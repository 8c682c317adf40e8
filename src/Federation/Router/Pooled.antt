-- ===== src/Federation/Router/Pooled.antt =====
-- The router over the pooled provider and the catalog of one management store counts connections.
use nexcraft.Base.{ℕ, ◌≡◌, refl, ap, ◌∙◌, Result, ok, err}
use nexcraft.Base.Dict.{Dict}
use nexcraft.Base.Exec
use nexcraft.Base.Exec.{resume}
use nexcraft.Federation.Core.{ConnectionDetails, ConnectionHandle}
use nexcraft.Federation.Catalog.{db_catalog, to_descriptor}
use nexcraft.Federation.Provider.{Settings, State}
use nexcraft.Federation.Provider.Counted.{ledger, IsQuiet, acquire-Acquired, release-Holds}
use nexcraft.Federation.Router.{SourceExecutor, safe_release}
use nexcraft.Federation.Router.Balance.{IsCounted}
use nexcraft.Federation.Router.Tenancy.{federation}

module _ {V H B W : Type 0} (out : W → ℕ) (InFlight : ConnectionHandle → W → Type 0)
    (c : Settings V W) (executors : Dict (SourceExecutor H B (State W))) where
  described :
      (x : Result (ConnectionDetails V)) (w : W)
      → (resume x (λ row. Exec.pure (to_descriptor row)) w).1 ≡ w
  described (ok row) w = refl
  described (err e) w = refl

  -- With pools, factories and executors that do what is asked of them, the program's own provider
  -- meets the laws of the router.
  pub federation-IsCounted :
      IsQuiet out InFlight c executors → IsCounted (federation c executors) (ledger out InFlight)
  unfolding safe_release
  federation-IsCounted q = record {
    catalog = λ source_id s valid.
        let m = c.store.get_connection_details source_id s.world in
        (unfold db_catalog in ap out (described m.0 m.1) ∙ q.store source_id s.world, valid);
    acquire =
        λ source_id ctx s valid. acquire-Acquired out InFlight c executors q source_id ctx s valid;
    release = λ h s valid is. release-Holds out InFlight h s valid is;
    describe = q.describe;
    execute = q.execute;
  }
