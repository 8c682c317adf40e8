-- ===== src/Federation/Provider.antt =====
-- packages/nexcraft/nexcraft/connection/pooled.py: pools of driver connections, one for each source.
-- Pools, factories, the store and the resolver act on a world `W` of which nothing is known. Here
-- each call runs alone; calls that interleave are in Provider/Builds.
pub mod Acquire
pub mod Close
pub mod Counted
pub mod Builds
use nexcraft.Base.{
  String, Option, none, some, List, [], ◌∷◌, Result, ok, err, authentication_error,
  configuration_error, if◌then◌else◌, str_eq,
}
use nexcraft.Base.Dict
use nexcraft.Base.Dict.{Dict}
use nexcraft.Base.Exec
use nexcraft.Base.Exec.{Exec, ◌>>=◌, ignore}
use nexcraft.Federation.Core.{QueryContext, ConnectionDetails, ConnectionHandle, PoolSlot}
use nexcraft.Federation.Store.{ManagementStore}
use nexcraft.Federation.Sizing.{PoolConfig}
use nexcraft.Federation.Secrets.{SecretResolver}

-- The protocol `DriverPool`.
pub record DriverPool (W : Type 0) : Type 0 where
  pub kind : String
  pub acquire : QueryContext → Exec W ConnectionHandle
  pub release : ConnectionHandle → Exec W (Unit {0})
  pub close : Exec W (Unit {0})

-- The protocol `DriverPoolFactory`.
pub record DriverPoolFactory (V W : Type 0) : Type 0 where
  pub create : ConnectionDetails V → Dict String → PoolConfig V → Exec W (DriverPool W)

-- The arguments of the constructor.
pub record Settings (V W : Type 0) : Type 0 where
  pub store : ManagementStore V W
  pub factories : Dict (DriverPoolFactory V W)
  pub pool_config : String → String → PoolConfig V
  pub secrets : SecretResolver W

-- The provider's own state, `_pools`, and the world.
pub record State (W : Type 0) : Type 0 where
  pub pools : Dict (DriverPool W)
  pub world : W

module _ {W : Type 0} where
  -- An action on the world, as one on the state.
  abbrev pub outside {ℓ} : {A : Type ℓ} → (W → Result A × W) → State W → Result A × State W
  outside m s = ((m s.world).0, record s { world = (m s.world).1 })

  abbrev pub store_pool : String → DriverPool W → Exec (State W) (DriverPool W)
  store_pool source_id pool s = (ok pool, record s { pools = Dict.set source_id pool s.pools })

module _ {V W : Type 0} (c : Settings V W) where
  resolve_secrets : ConnectionDetails V → Option String → Exec (State W) (Dict String)
  resolve_secrets details none = Exec.pure []
  resolve_secrets details (some secret_ref) =
      if str_eq secret_ref ""
      then Exec.pure []
      else outside (c.secrets.resolve secret_ref details.source_id details.tenant_id)

  -- The body of `_get_or_build_pool` from the factory on.
  build_with : ConnectionDetails V → Option (DriverPoolFactory V W) → Exec (State W) (DriverPool W)
  unfolding resolve_secrets
  build_with details none = Exec.raise configuration_error
  build_with details (some factory) = do
    secrets ← resolve_secrets details details.secret_ref
    pool ← outside (factory.create details secrets (c.pool_config details.kind details.source_id))
    store_pool details.source_id pool

  reuse_or_build : ConnectionDetails V → Option (DriverPool W) → Exec (State W) (DriverPool W)
  unfolding build_with
  reuse_or_build details (some existing) = Exec.pure existing
  reuse_or_build details none = build_with details (Dict.get details.kind c.factories)

  -- `_get_or_build_pool`: the check outside the lock and the one under it see the same pools when
  -- the call runs alone.
  unfoldable pub get_or_build_pool : ConnectionDetails V → Exec (State W) (DriverPool W)
  unfolding reuse_or_build
  get_or_build_pool details s = reuse_or_build details (Dict.get details.source_id s.pools) s

  acquire_for : QueryContext → ConnectionDetails V → Exec (State W) ConnectionHandle
  acquire_for ctx details =
      if str_eq details.tenant_id ctx.tenant_id
      then (do pool ← get_or_build_pool details; outside (pool.acquire ctx))
      else Exec.raise authentication_error

  unfoldable pub acquire : String → QueryContext → Exec (State W) ConnectionHandle
  unfolding acquire_for
  acquire source_id ctx = do
    details ← outside (c.store.get_connection_details source_id)
    acquire_for ctx details

module _ {W : Type 0} where
  release_to : ConnectionHandle → Option (DriverPool W) → Exec (State W) (Unit {0})
  release_to handle none = Exec.pure tt
  release_to handle (some pool) = outside (pool.release handle)

  release_slot : ConnectionHandle → Option PoolSlot → Exec (State W) (Unit {0})
  unfolding release_to
  release_slot handle none s = (ok tt, s)
  release_slot handle (some slot) s = release_to handle (Dict.get slot.pool_id s.pools) s

  pub release : ConnectionHandle → Exec (State W) (Unit {0})
  unfolding release_slot
  release handle = release_slot handle handle.pooled

  close_all : List (DriverPool W) → W → W
  close_all [] w = w
  close_all (pool ∷ pools) w = close_all pools (ignore pool.close w)

  -- An exception of one pool's `close` is dropped.
  unfoldable pub close : State W → State W
  unfolding close_all
  close s = record { pools = []; world = close_all (Dict.values s.pools) s.world }
