-- ===== src/Federation/Router.antt =====
-- packages/nexcraft/nexcraft/router.py: a query goes to the executor of its source's kind, over a
-- connection that the provider hands out. Catalog, provider and executors act on a world `W`. The
-- batches of `execute` are what a caller gets who reads the stream to its end.
pub mod Balance
pub mod Pooled
pub mod Tenancy
use nexcraft.Base.{
  String, Bool, Option, none, some, List, [], str_eq, if◌then◌else◌, Result, Error, ok, err,
  configuration_error,
}
use nexcraft.Base.Dict
use nexcraft.Base.Dict.{Dict}
use nexcraft.Base.Exec
use nexcraft.Base.Exec.{Exec, ◌>>=◌, try_finally, ignore}
use nexcraft.Federation.Core.{QueryContext, SourceDescriptor, ConnectionHandle}
use nexcraft.Federation.Catalog.{Catalog}

-- The protocol `ConnectionProvider`; `release` may be missing.
pub record ConnectionProvider (W : Type 0) : Type 0 where
  pub acquire : String → QueryContext → Exec W ConnectionHandle
  pub release : Option (ConnectionHandle → Exec W (Unit {0}))

-- What a stream yields until it ends, and the exception that it ends with, if any.
pub record Stream (B : Type 0) : Type 0 where
  pub batches : List B
  pub failure : Option Error

-- The protocol `SourceExecutor`, with schemas `H` and record batches `B`.
pub record SourceExecutor (H B W : Type 0) : Type 0 where
  pub kind : String
  pub describe : String → QueryContext → ConnectionHandle → Exec W H
  pub execute : String → QueryContext → ConnectionHandle → W → Stream B × W

pub record Router (V H B W : Type 0) : Type 0 where
  pub catalog : Catalog V W
  pub provider : ConnectionProvider W
  pub executors : Dict (SourceExecutor H B W)

abbrev pub failed : {B : Type 0} → Error → Stream B
failed e = record { batches = []; failure = some e }

ensure_kind : ConnectionHandle → String → Result (Unit {0})
ensure_kind handle kind = if str_eq handle.kind kind then ok tt else err configuration_error

module _ {B W : Type 0} where
  stream_after : {A : Type 0} → Result A × W → (A → W → Stream B × W) → Stream B × W
  stream_after (ok a, w) f = f a w
  stream_after (err e, w) f = (failed e, w)

module _ {H B W : Type 0} where
  known_executor : Option (SourceExecutor H B W) → Result (SourceExecutor H B W)
  known_executor (some executor) = ok executor
  known_executor none = err configuration_error

  -- What runs between `acquire` and the release, in `describe`.
  describe_on : SourceExecutor H B W → String → QueryContext → ConnectionHandle → Exec W H
  unfolding ensure_kind
  describe_on executor sql ctx handle =
      Exec.lift (ensure_kind handle executor.kind) >>= λ _. executor.describe sql ctx handle

  execute_on : SourceExecutor H B W → String → QueryContext → ConnectionHandle → W → Stream B × W
  unfolding stream_after ensure_kind
  execute_on executor sql ctx handle w =
      stream_after (ensure_kind handle executor.kind, w) (λ _. executor.execute sql ctx handle)

module _ {V H B W : Type 0} where
  executor_for : Router V H B W → String → Result (SourceExecutor H B W)
  unfolding known_executor
  executor_for r kind = known_executor (Dict.get kind r.executors)

  unfoldable pub safe_release : Router V H B W → ConnectionHandle → W → W
  safe_release r handle w = elim r.provider.release [
    | some release ↦ ignore (release handle) w
    | none ↦ w
  ]

  unfoldable pub describe : Router V H B W → String → String → QueryContext → Exec W H
  unfolding executor_for safe_release describe_on
  describe r source_id sql ctx = do
    desc ← r.catalog.get_source source_id
    executor ← Exec.lift (executor_for r desc.kind)
    handle ← r.provider.acquire source_id ctx
    try_finally (describe_on executor sql ctx handle) (safe_release r handle)

  released : Router V H B W → ConnectionHandle → Stream B × W → Stream B × W
  unfolding safe_release
  released r handle (s, w) = (s, safe_release r handle w)

  unfoldable pub execute : Router V H B W → String → String → QueryContext → W → Stream B × W
  unfolding executor_for stream_after execute_on released
  execute r source_id sql ctx w = stream_after (r.catalog.get_source source_id w) λ desc w₁.
      stream_after (executor_for r desc.kind, w₁)
        λ executor w₂.
          stream_after (r.provider.acquire source_id ctx w₂)
            λ handle w₃. released r handle (execute_on executor sql ctx handle w₃)
