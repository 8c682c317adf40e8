-- ===== src/Federation/Provider/Acquire.antt =====
-- What `acquire` of connection/pooled.py promises: the tenant boundary, one pool for a source, and
-- the pools of other sources left alone.
use nexcraft.Base.{
  String, ◌≡◌, refl, ◌≢◌, ◌∙◌, ap, Option, none, some, inl, inr, arith, eq_iff, eq_refl, str_ne,
  Result, Error, ok, err, authentication_error, Option-cases,
}
use nexcraft.Base.Dict
use nexcraft.Base.Dict.{get-set}
use nexcraft.Base.Exec.{resume, bind-eq-ok}
use nexcraft.Federation.Core.{QueryContext, ConnectionDetails, ConnectionHandle}
use nexcraft.Federation.Provider.{
  DriverPool, DriverPoolFactory, Settings, State, outside, store_pool, build_with, reuse_or_build,
  get_or_build_pool, acquire_for, acquire,
}

module _ {V W : Type 0} (c : Settings V W) where
  -- A context of another tenant than the source's gets an authentication error. Of the outside only
  -- the store was asked: no factory and no pool, and the pools are as before.
  pub acquire_other_tenant :
      (source_id : String) (ctx : QueryContext) (s : State W) {details : ConnectionDetails V}
      → (c.store.get_connection_details source_id s.world).0 ≡ ok details
      → details.tenant_id ≢ ctx.tenant_id
      → acquire c source_id ctx s ≡ (
        err authentication_error,
        record s { world = (c.store.get_connection_details source_id s.world).1 },
      )
  unfolding acquire
  acquire_other_tenant source_id ctx s {details} found other =
      rw (found, str_ne details.tenant_id ctx.tenant_id other)

  -- A handle is only given out for a source of the context's tenant.
  pub acquire_tenant :
      (source_id : String) (ctx : QueryContext) (s : State W) {handle : ConnectionHandle}
      → (acquire c source_id ctx s).0 ≡ ok handle
      → (details : ConnectionDetails V) × ((c.store.get_connection_details source_id s.world).0
          ≡ ok details)
        × (details.tenant_id ≡ ctx.tenant_id)
  unfolding acquire
  acquire_tenant source_id ctx s h =
      let (details, found, rest) =
        bind-eq-ok (outside (c.store.get_connection_details source_id)) (acquire_for c ctx) s h in
      (details, found, ground (arith, eq_iff details.tenant_id ctx.tenant_id))

  store_pool-get :
      (source_id : String) (pool : DriverPool W) (s : State W)
      → Dict.get source_id (store_pool source_id pool s).1.pools ≡ some pool
  store_pool-get source_id pool s = simp (get-set, eq_refl)

  build_with-ok :
      (details : ConnectionDetails V) (f : Option (DriverPoolFactory V W)) (s : State W)
      {pool : DriverPool W}
      → (build_with c details f s).0 ≡ ok pool
      → Dict.get details.source_id (build_with c details f s).1.pools ≡ some pool
  unfolding build_with
  build_with-ok details none s h = cc
  build_with-ok details (some factory) s {pool} h =
      ground (arith, store_pool-get details.source_id pool s)

  reuse_or_build-ok :
      (details : ConnectionDetails V) (o : Option (DriverPool W)) (s : State W)
      {pool : DriverPool W}
      → Dict.get details.source_id s.pools ≡ o
      → (reuse_or_build c details o s).0 ≡ ok pool
      → Dict.get details.source_id (reuse_or_build c details o s).1.pools ≡ some pool
  unfolding reuse_or_build
  reuse_or_build-ok details (some existing) s e h = ground arith
  reuse_or_build-ok details none s e h =
      build_with-ok details (Dict.get details.kind c.factories) s h

  -- The pool that a call returned is the one that a later call returns for any row of the same
  -- source, whatever else the row now says, with no call outside and no change. The pools are those
  -- that the first call left.
  pub get_or_build_pool_reuse :
      (details later : ConnectionDetails V) (s t : State W) {pool : DriverPool W}
      → (get_or_build_pool c details s).0 ≡ ok pool
      → later.source_id ≡ details.source_id
      → t.pools ≡ (get_or_build_pool c details s).1.pools
      → get_or_build_pool c later t ≡ (ok pool, t)
  unfolding get_or_build_pool
  get_or_build_pool_reuse details later s t h source same =
      let e = reuse_or_build-ok details (Dict.get details.source_id s.pools) s refl h in
      rw (ap (λ k. Dict.get k t.pools) source ∙ ap (Dict.get details.source_id) same ∙ e)
        (unfold reuse_or_build in refl)

  -- A call that raises has changed no pool.
  pub pools-get_or_build_pool_err :
      (details : ConnectionDetails V) (s : State W) {e : Error}
      → (get_or_build_pool c details s).0 ≡ err e
      → (get_or_build_pool c details s).1.pools ≡ s.pools
  unfolding get_or_build_pool reuse_or_build
  pools-get_or_build_pool_err details s h = ground arith

  -- A pool that is there stays there.
  abbrev Keeps : State W → State W → Type 0
  Keeps s t =
      (j : String) (pool : DriverPool W)
      → Dict.get j s.pools ≡ some pool
      → Dict.get j t.pools ≡ some pool

  set_absent-keeps :
      (k j : String) (new pool : DriverPool W) (pools : Dict.Dict (DriverPool W))
      → Dict.get k pools ≡ none
      → Dict.get j pools ≡ some pool
      → Dict.get j (Dict.set k new pools) ≡ some pool
  set_absent-keeps k j new pool pools absent h = ground (arith, get-set k j new pools, eq_iff k j)

  build_with-Keeps :
      (details : ConnectionDetails V) (f : Option (DriverPoolFactory V W)) (s : State W)
      → Dict.get details.source_id s.pools ≡ none
      → Keeps s (build_with c details f s).1
  unfolding build_with
  build_with-Keeps details none s absent j pool h = h
  build_with-Keeps details (some factory) s absent j pool h = grind (arith, set_absent-keeps)

  get_or_build_pool-Keeps :
      (details : ConnectionDetails V) (s : State W) → Keeps s (get_or_build_pool c details s).1
  unfolding get_or_build_pool
  get_or_build_pool-Keeps details s = elim (Option-cases (Dict.get details.source_id s.pools)) [
    | inl absent ↦ λ j pool h. rw absent (
        unfold reuse_or_build in
        build_with-Keeps details (Dict.get details.kind c.factories) s absent j pool h)
    | inr (existing, e) ↦ λ j pool h. rw e (unfold reuse_or_build in h)
  ]

  acquire_for-Keeps :
      (ctx : QueryContext) (r : Result (ConnectionDetails V)) (s : State W)
      → Keeps s (resume r (acquire_for c ctx) s).1
  unfolding acquire_for
  acquire_for-Keeps ctx (err e) s j pool h = h
  acquire_for-Keeps ctx (ok details) s j pool h =
      ground (arith, get_or_build_pool-Keeps details s j pool h)

  -- No `acquire`, whatever its outcome, drops or replaces a pool.
  pub acquire-Keeps :
      (source_id : String) (ctx : QueryContext) (s : State W) (j : String) (pool : DriverPool W)
      → Dict.get j s.pools ≡ some pool
      → Dict.get j (acquire c source_id ctx s).1.pools ≡ some pool
  unfolding acquire
  acquire-Keeps source_id ctx s j pool h =
      acquire_for-Keeps ctx (c.store.get_connection_details source_id s.world).0
        (record s { world = (c.store.get_connection_details source_id s.world).1 }) j pool h
