-- ===== src/Federation/Provider/Counted.antt =====
-- What is asked of the drivers' pools, and how `acquire` and `release` of connection/pooled.py count
-- connections over them.
use nexcraft.Base.{
  ℕ, ◌+◌, ◌-◌, String, ◌≡◌, refl, ◌∙◌, ap, sym, subst, some, none, Option, Result, ok, err,
  Bool-cases, inl, inr, str_eq, eq_iff, eq_refl, if◌then◌else◌,
}
use nexcraft.Base.Dict
use nexcraft.Base.Dict.{Dict, get-set}
use nexcraft.Base.Exec.{◌>>=◌, resume}
use nexcraft.Federation.Core.{QueryContext, ConnectionDetails, ConnectionHandle, PoolSlot}
use nexcraft.Federation.Provider
use nexcraft.Federation.Provider.{
  DriverPool, DriverPoolFactory, Settings, State, outside, store_pool, resolve_secrets, build_with,
  reuse_or_build, get_or_build_pool, acquire_for, release_slot, release_to,
}
use nexcraft.Federation.Router.{SourceExecutor}
use nexcraft.Federation.Router.Balance.{Ledger, Holds, HoldsFor, Acquired}

module _ {W : Type 0} (out : W → ℕ) (InFlight : ConnectionHandle → W → Type 0) where
  -- What a pool gives: a handle that is in flight and names the pool, or an error.
  abbrev pub Lends : String → Result ConnectionHandle → ℕ → W → Type 0
  Lends key (ok h) n w =
      (out w ≡ n + 1)
      × InFlight h w
      × (slot : PoolSlot) × (h.pooled ≡ some slot)
      × (slot.pool_id ≡ key)
  Lends key (err e) n w = out w ≡ n

  -- What is asked of a pool that stands under a key: `acquire` puts a connection in flight, and
  -- `release` brings one back that is, whether it raises or not.
  pub record IsPool (key : String) (pool : DriverPool W) : Type 0 where
    pub acquire :
        (ctx : QueryContext) (w : W)
        → Lends key (pool.acquire ctx w).0 (out w) (pool.acquire ctx w).1
    pub release :
        (h : ConnectionHandle) (w : W) → InFlight h w → out (pool.release h w).1 ≡ out w - 1

  -- A pool's own connections are those out; a handle is lent while its pool is there.
  abbrev pub ledger : Ledger (State W)
  ledger = record {
    held = λ s. out s.world;
    size = λ h. 1;
    IsValid =
        λ s. (k : String) (pool : DriverPool W) → Dict.get k s.pools ≡ some pool → IsPool k pool;
    Lent = λ h s.
        (slot : PoolSlot) × (h.pooled ≡ some slot)
        × (pool : DriverPool W) × (Dict.get slot.pool_id s.pools ≡ some pool)
        × InFlight h s.world;
  }

  abbrev pub Built : String → Result (DriverPool W) → W → Type 0
  Built key (ok pool) w = IsPool key pool
  Built key (err e) w = Unit

  module _ {V H B : Type 0} (c : Settings V W)
      (executors : Dict (SourceExecutor H B (State W))) where
    -- What is asked of the store, the resolver, the factories and the executors: they take no
    -- connection, a factory builds a pool for the source of the row, and an executor leaves the
    -- pools and the handle as they are.
    pub record IsQuiet : Type 0 where
      pub store : (k : String) (w : W) → out (c.store.get_connection_details k w).1 ≡ out w
      pub secrets :
          (ref source_id tenant_id : String) (w : W)
          → out (c.secrets.resolve ref source_id tenant_id w).1 ≡ out w
      pub create :
          (kind : String) (f : DriverPoolFactory V W) (details : ConnectionDetails V)
          (fields : Dict String) (w : W)
          → Dict.get kind c.factories ≡ some f
          → let made = f.create details fields (c.pool_config details.kind details.source_id) w in
            (out made.1 ≡ out w) × Built details.source_id made.0 made.1
      pub describe :
          (kind : String) (e : SourceExecutor H B (State W)) (sql : String) (ctx : QueryContext)
          (h : ConnectionHandle) (s : State W)
          → Dict.get kind executors ≡ some e
          → ledger.IsValid s
          → ledger.Lent h s
          → HoldsFor ledger h (ledger.held s) (e.describe sql ctx h s).1
      pub execute :
          (kind : String) (e : SourceExecutor H B (State W)) (sql : String) (ctx : QueryContext)
          (h : ConnectionHandle) (s : State W)
          → Dict.get kind executors ≡ some e
          → ledger.IsValid s
          → ledger.Lent h s
          → HoldsFor ledger h (ledger.held s) (e.execute sql ctx h s).1

    module _ (q : IsQuiet) where
      -- A pool that stands under the key, in a valid state with `n` connections out.
      abbrev Ready : String → Result (DriverPool W) → ℕ → State W → Type 0
      Ready key (ok pool) n s =
          (out s.world ≡ n) × ledger.IsValid s × (Dict.get key s.pools ≡ some pool)
      Ready key (err e) n s = Holds ledger n s

      IsValid-set :
          (key : String) (pool : DriverPool W) (s : State W)
          → ledger.IsValid s
          → IsPool key pool
          → ledger.IsValid (store_pool key pool s).1
      IsValid-set key pool s valid lawful j other h = elim (Bool-cases (str_eq key j)) [
        | inl same ↦
            let k : key ≡ j = (eq_iff key j).0 same in
            let e : some pool ≡ some other =
              sym (
                get-set key j pool s.pools
                ∙ ap (λ b. if b then some pool else Dict.get j s.pools) same)
              ∙ h in
            subst (λ x. IsPool x other) k (subst (IsPool key) (cc e) lawful)
        | inr apart ↦ valid j other (
            sym (
              get-set key j pool s.pools
              ∙ ap (λ b. if b then some pool else Dict.get j s.pools) apart)
            ∙ h)
      ]

      -- From the factory's call on.
      made_pool :
          (key : String) (x : Result (DriverPool W)) (n : ℕ) (s : State W)
          → Holds ledger n s
          → Built key x s.world
          → Ready key (resume x (store_pool key) s).0 n (resume x (store_pool key) s).1
      made_pool key (ok pool) n s h built = (
        h.0,
        IsValid-set key pool s h.1 built,
        get-set key key pool s.pools
            ∙ ap (λ b. if b then some pool else Dict.get key s.pools) (eq_refl key),
      )
      made_pool key (err e) n s h built = h

      with_secrets :
          (details : ConnectionDetails V) (f : DriverPoolFactory V W) (x : Result (Dict String))
          (n : ℕ) (s : State W)
          → Dict.get details.kind c.factories ≡ some f
          → Holds ledger n s
          → let m =
              resume x
                (λ secrets.
                  outside (f.create details secrets (c.pool_config details.kind details.source_id))
                  >>= store_pool details.source_id)
                s in
            Ready details.source_id m.0 n m.1
      with_secrets details f (ok fields) n s known h =
          let made =
            f.create details fields (c.pool_config details.kind details.source_id) s.world in
          let k = q.create details.kind f details fields s.world known in
          made_pool details.source_id made.0 n (record s { world = made.1 }) (k.0 ∙ h.0, h.1) k.1
      with_secrets details f (err e) n s known h = h

      resolve_secrets-Holds :
          (details : ConnectionDetails V) (ref : Option String) (n : ℕ) (s : State W)
          → Holds ledger n s
          → Holds ledger n (resolve_secrets c details ref s).1
      unfolding resolve_secrets
      resolve_secrets-Holds details none n s h = h
      resolve_secrets-Holds details (some ref) n s h = elim (Bool-cases (str_eq ref "")) [
        | inl empty ↦ rw empty h
        | inr given ↦
            rw given (q.secrets ref details.source_id details.tenant_id s.world ∙ h.0, h.1)
      ]

      build_with-Ready :
          (details : ConnectionDetails V) (o : Option (DriverPoolFactory V W)) (n : ℕ) (s : State W)
          → Dict.get details.kind c.factories ≡ o
          → Holds ledger n s
          → Ready details.source_id (build_with c details o s).0 n (build_with c details o s).1
      unfolding build_with
      build_with-Ready details none n s known h = h
      build_with-Ready details (some f) n s known h =
          let r = resolve_secrets c details details.secret_ref s in
          with_secrets details f r.0 n r.1 known
            (resolve_secrets-Holds details details.secret_ref n s h)

      get_or_build_pool-Ready :
          (details : ConnectionDetails V) (n : ℕ) (s : State W)
          → Holds ledger n s
          → let m = get_or_build_pool c details s in Ready details.source_id m.0 n m.1
      unfolding get_or_build_pool reuse_or_build
      get_or_build_pool-Ready details n s h = go (Dict.get details.source_id s.pools) refl
        where
          go :
              (o : Option (DriverPool W))
              → Dict.get details.source_id s.pools ≡ o
              → let m = reuse_or_build c details o s in Ready details.source_id m.0 n m.1
          go (some pool) found = (h.0, h.1, found)
          go none absent = build_with-Ready details (Dict.get details.kind c.factories) n s refl h

      lent :
          (key : String) (pool : DriverPool W) (x : Result ConnectionHandle) (n : ℕ) (s : State W)
          → Dict.get key s.pools ≡ some pool
          → ledger.IsValid s
          → Lends key x n s.world
          → Acquired ledger x n s
      lent key pool (ok h) n s found valid (count, flying, slot, is, at) =
          (count, valid, (slot, is, pool, ap (λ k. Dict.get k s.pools) at ∙ found, flying))
      lent key pool (err e) n s found valid count = (count, valid)

      lend :
          (key : String) (x : Result (DriverPool W)) (ctx : QueryContext) (n : ℕ) (s : State W)
          → Ready key x n s
          → let m = resume x (λ pool. outside (pool.acquire ctx)) s in Acquired ledger m.0 n m.1
      lend key (err e) ctx n s h = h
      lend key (ok pool) ctx n s (count, valid, found) =
          let m = pool.acquire ctx s.world in
          lent key pool m.0 n (record s { world = m.1 }) found valid
            (subst (λ k. Lends key m.0 k m.1) count ((valid key pool found).acquire ctx s.world))

      acquire_for-Acquired :
          (ctx : QueryContext) (x : Result (ConnectionDetails V)) (n : ℕ) (s : State W)
          → Holds ledger n s
          → let m = resume x (acquire_for c ctx) s in Acquired ledger m.0 n m.1
      unfolding acquire_for
      acquire_for-Acquired ctx (err e) n s h = h
      acquire_for-Acquired ctx (ok details) n s h =
          elim (Bool-cases (str_eq details.tenant_id ctx.tenant_id)) [
            | inl same ↦
                let m = get_or_build_pool c details s in
                rw same
                  (lend details.source_id m.0 ctx n m.1 (get_or_build_pool-Ready details n s h))
            | inr other ↦ rw other h
          ]

      pub acquire-Acquired :
          (source_id : String) (ctx : QueryContext) (s : State W)
          → ledger.IsValid s
          → let m = Provider.acquire c source_id ctx s in Acquired ledger m.0 (out s.world) m.1
      unfolding Provider.acquire
      acquire-Acquired source_id ctx s valid =
          let m = c.store.get_connection_details source_id s.world in
          acquire_for-Acquired ctx m.0 (out s.world) (record s { world = m.1 })
            (q.store source_id s.world, valid)

  pub release-Holds :
      (h : ConnectionHandle) (s : State W)
      → ledger.IsValid s
      → ledger.Lent h s
      → Holds ledger (out s.world - 1) (Provider.release h s).1
  unfolding Provider.release release_slot release_to
  release-Holds h s valid (slot, is, pool, found, flying) =
      subst (λ o. Holds ledger (out s.world - 1) (release_slot h o s).1) (sym is)
        (subst (λ o. Holds ledger (out s.world - 1) (release_to h o s).1) (sym found)
          ((valid slot.pool_id pool found).release h s.world flying, valid))
