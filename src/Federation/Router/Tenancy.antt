-- ===== src/Federation/Router/Tenancy.antt =====
-- The router over the pooled provider and the catalog of one management store, as a host system
-- puts them together: no query reaches a source of another tenant.
use nexcraft.Base.{
  String, ◌≡◌, refl, ◌≢◌, ap, ◌∙◌, Option, none, some, Error, ok, err, authentication_error,
  configuration_error,
}
use nexcraft.Base.Dict
use nexcraft.Base.Dict.{Dict}
use nexcraft.Federation.Core.{QueryContext, ConnectionDetails}
use nexcraft.Federation.Catalog.{db_catalog}
use nexcraft.Federation.Provider
use nexcraft.Federation.Provider.{Settings, State, outside}
use nexcraft.Federation.Provider.Acquire.{acquire_other_tenant}
use nexcraft.Federation.Router.{
  SourceExecutor, Router, failed, executor_for, known_executor, describe, execute, stream_after,
}

-- What a context of another tenant gets: an authentication error, but for a kind with no executor.
abbrev pub refusal : {A : Type 0} → Option A → Error
refusal none = configuration_error
refusal (some executor) = authentication_error

module _ {V H B W : Type 0} where
  -- DBCatalog(store), with PooledConnectionProvider over the same store.
  abbrev pub federation :
      Settings V W → Dict (SourceExecutor H B (State W)) → Router V H B (State W)
  federation c executors = record {
    catalog = record {
      get_source = λ source_id. outside ((db_catalog c.store).get_source source_id);
      list_sources = λ tenant_id. outside ((db_catalog c.store).list_sources tenant_id);
    };
    provider = record { acquire = Provider.acquire c; release = some Provider.release };
    executors = executors;
  }

  execute_refused :
      (c : Settings V W) (executors : Dict (SourceExecutor H B (State W))) (source_id sql : String)
      (ctx : QueryContext) (s : State W) (details : ConnectionDetails V)
      (o : Option (SourceExecutor H B (State W)))
      → ((w : W) → c.store.get_connection_details source_id w ≡ (ok details, w))
      → details.tenant_id ≢ ctx.tenant_id
      → Dict.get details.kind executors ≡ o
      → execute (federation c executors) source_id sql ctx s ≡ (failed (refusal o), s)
  unfolding execute db_catalog stream_after executor_for
  execute_refused c executors source_id sql ctx s details none stable other known =
      rw (stable s.world, known)
  execute_refused c executors source_id sql ctx s details (some e) stable other known =
      let denied : Provider.acquire c source_id ctx s ≡ (err authentication_error, s) =
        acquire_other_tenant c source_id ctx s (ap (λ x. x.0) (stable s.world)) other
        ∙ rw (stable s.world) in
      rw (stable s.world, known) (unfold known_executor in rw denied refl)

  describe_refused :
      (c : Settings V W) (executors : Dict (SourceExecutor H B (State W))) (source_id sql : String)
      (ctx : QueryContext) (s : State W) (details : ConnectionDetails V)
      (o : Option (SourceExecutor H B (State W)))
      → ((w : W) → c.store.get_connection_details source_id w ≡ (ok details, w))
      → details.tenant_id ≢ ctx.tenant_id
      → Dict.get details.kind executors ≡ o
      → describe (federation c executors) source_id sql ctx s ≡ (err (refusal o), s)
  unfolding describe db_catalog executor_for
  describe_refused c executors source_id sql ctx s details none stable other known =
      rw (stable s.world, known) (unfold known_executor in refl)
  describe_refused c executors source_id sql ctx s details (some e) stable other known =
      let denied : Provider.acquire c source_id ctx s ≡ (err authentication_error, s) =
        acquire_other_tenant c source_id ctx s (ap (λ x. x.0) (stable s.world)) other
        ∙ rw (stable s.world) in
      rw (stable s.world, known) (unfold known_executor in rw denied refl)

  -- A context of another tenant than the source's gets nothing of it, whatever the executors do:
  -- `execute` yields no batch and fails, `describe` raises, both by an authentication error (by a
  -- configuration error, if no executor is registered for the kind), and provider and outside are
  -- as before. The store answers with the row and does not change.
  pub router_other_tenant :
      (c : Settings V W) (executors : Dict (SourceExecutor H B (State W))) (source_id sql : String)
      (ctx : QueryContext) (s : State W) (details : ConnectionDetails V)
      → ((w : W) → c.store.get_connection_details source_id w ≡ (ok details, w))
      → details.tenant_id ≢ ctx.tenant_id
      → (execute (federation c executors) source_id sql ctx s
          ≡ (failed (refusal (Dict.get details.kind executors)), s))
        × (describe (federation c executors) source_id sql ctx s
            ≡ (err (refusal (Dict.get details.kind executors)), s))
  router_other_tenant c executors source_id sql ctx s details stable other =
      let o = Dict.get details.kind executors in
      (
        execute_refused c executors source_id sql ctx s details o stable other refl,
        describe_refused c executors source_id sql ctx s details o stable other refl,
      )
