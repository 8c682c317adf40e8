-- ===== src/Federation/Router/Balance.antt =====
-- Connections do not leak: on every path of the router, what was acquired is given back.
use nexcraft.Base.{
  ℕ, ◌+◌, ◌-◌, String, ◌≡◌, refl, ◌∙◌, some, arith, Option, none, Result, ok, err, subst,
  Bool-cases, inl, inr, str_eq,
}
use nexcraft.Base.Dict
use nexcraft.Base.Exec
use nexcraft.Base.Exec.{◌>>=◌, resume, try_finally}
use nexcraft.Federation.Core.{QueryContext, SourceDescriptor, ConnectionHandle}
use nexcraft.Federation.Router.{
  SourceExecutor, Router, ensure_kind, executor_for, known_executor, safe_release, describe_on,
  describe, stream_after, execute_on, released, execute,
}

-- How connections are counted in a world: those that are out, how many a handle stands for (none for
-- a handle that is shared and never given back), what the world promises, and that a handle was
-- handed out and is not back.
pub record Ledger (W : Type 0) : Type 1 where
  pub held : W → ℕ
  pub size : ConnectionHandle → ℕ
  pub IsValid : W → Type 0
  pub Lent : ConnectionHandle → W → Type 0

module _ {W : Type 0} (l : Ledger W) where
  -- A valid world with `n` connections out.
  abbrev pub Holds : ℕ → W → Type 0
  Holds n w = (l.held w ≡ n) × l.IsValid w

  -- The same, with a handle that is out.
  abbrev pub HoldsFor : ConnectionHandle → ℕ → W → Type 0
  HoldsFor h n w = (l.held w ≡ n) × l.IsValid w × l.Lent h w

  -- What `acquire` leaves: a handle that is out and counts, or an error and nothing more out.
  abbrev pub Acquired : Result ConnectionHandle → ℕ → W → Type 0
  Acquired (ok h) n w = HoldsFor h (n + l.size h) w
  Acquired (err e) n w = Holds n w

module _ {V H B W : Type 0} where
  -- What the router relies on, in valid worlds: `acquire` counts the handle that it returns, a
  -- `release` of a handle that is out takes it off the count, even if it raises, and the catalog and
  -- the executors take no connection and bring none.
  pub record IsCounted (r : Router V H B W) (l : Ledger W) : Type 0 where
    pub catalog :
        (source_id : String) (w : W)
        → l.IsValid w
        → Holds l (l.held w) (r.catalog.get_source source_id w).1
    pub acquire :
        (source_id : String) (ctx : QueryContext) (w : W)
        → l.IsValid w
        → Acquired l
            (r.provider.acquire source_id ctx w).0
            (l.held w)
            (r.provider.acquire source_id ctx w).1
    pub release :
        (h : ConnectionHandle) (w : W)
        → l.IsValid w
        → l.Lent h w
        → Holds l (l.held w - l.size h) (safe_release r h w)
    pub describe :
        (kind : String) (e : SourceExecutor H B W) (sql : String) (ctx : QueryContext)
        (h : ConnectionHandle) (w : W)
        → Dict.get kind r.executors ≡ some e
        → l.IsValid w
        → l.Lent h w
        → HoldsFor l h (l.held w) (e.describe sql ctx h w).1
    pub execute :
        (kind : String) (e : SourceExecutor H B W) (sql : String) (ctx : QueryContext)
        (h : ConnectionHandle) (w : W)
        → Dict.get kind r.executors ≡ some e
        → l.IsValid w
        → l.Lent h w
        → HoldsFor l h (l.held w) (e.execute sql ctx h w).1

  module _ (r : Router V H B W) (l : Ledger W) (c : IsCounted r l) where
    release_lent :
        (h : ConnectionHandle) (n : ℕ) (w : W)
        → HoldsFor l h (n + l.size h) w
        → Holds l n (safe_release r h w)
    release_lent h n w (out, valid, lent) =
        let k = c.release h w valid lent in (omega (arith, k.0, out), k.1)

    describe_on-HoldsFor :
        (kind sql : String) (ctx : QueryContext) (e : SourceExecutor H B W) (h : ConnectionHandle)
        (n : ℕ) (w : W)
        → Dict.get kind r.executors ≡ some e
        → HoldsFor l h n w
        → HoldsFor l h n (describe_on e sql ctx h w).1
    unfolding describe_on ensure_kind
    describe_on-HoldsFor kind sql ctx e h n w known (out, valid, lent) =
        elim (Bool-cases (str_eq h.kind e.kind)) [
          | inl same ↦
              rw same
                (let k = c.describe kind e sql ctx h w known valid lent in (k.0 ∙ out, k.1, k.2))
          | inr other ↦ rw other (out, valid, lent)
        ]

    execute_on-HoldsFor :
        (kind sql : String) (ctx : QueryContext) (e : SourceExecutor H B W) (h : ConnectionHandle)
        (n : ℕ) (w : W)
        → Dict.get kind r.executors ≡ some e
        → HoldsFor l h n w
        → HoldsFor l h n (execute_on e sql ctx h w).1
    unfolding execute_on ensure_kind stream_after
    execute_on-HoldsFor kind sql ctx e h n w known (out, valid, lent) =
        elim (Bool-cases (str_eq h.kind e.kind)) [
          | inl same ↦
              rw same
                (let k = c.execute kind e sql ctx h w known valid lent in (k.0 ∙ out, k.1, k.2))
          | inr other ↦ rw other (out, valid, lent)
        ]

    -- With what `acquire` gave, the rest of `describe` brings it back.
    describe_acquired :
        (kind sql : String) (ctx : QueryContext) (e : SourceExecutor H B W)
        (x : Result ConnectionHandle) (w : W) (n : ℕ)
        → Dict.get kind r.executors ≡ some e
        → Acquired l x n w
        → Holds l n
            (resume x
              (λ handle. try_finally (describe_on e sql ctx handle) (safe_release r handle))
              w).1
    describe_acquired kind sql ctx e (ok handle) w n known h =
        release_lent handle n (describe_on e sql ctx handle w).1
          (describe_on-HoldsFor kind sql ctx e handle (n + l.size handle) w known h)
    describe_acquired kind sql ctx e (err x) w n known h = h

    execute_acquired :
        (kind sql : String) (ctx : QueryContext) (e : SourceExecutor H B W)
        (x : Result ConnectionHandle) (w : W) (n : ℕ)
        → Dict.get kind r.executors ≡ some e
        → Acquired l x n w
        → Holds l n
            (stream_after
              (x, w)
              (λ handle w'. released r handle (execute_on e sql ctx handle w'))).1
    unfolding stream_after released
    execute_acquired kind sql ctx e (ok handle) w n known h =
        release_lent handle n (execute_on e sql ctx handle w).1
          (execute_on-HoldsFor kind sql ctx e handle (n + l.size handle) w known h)
    execute_acquired kind sql ctx e (err x) w n known h = h

    describe_known :
        (kind source_id sql : String) (ctx : QueryContext) (o : Option (SourceExecutor H B W))
        (n : ℕ) (w : W)
        → Dict.get kind r.executors ≡ o
        → Holds l n w
        → Holds l n
            ((Exec.lift (known_executor o) >>= λ e. r.provider.acquire source_id ctx >>= λ handle.
                try_finally (describe_on e sql ctx handle) (safe_release r handle))
              w).1
    unfolding known_executor
    describe_known kind source_id sql ctx none n w known h = h
    describe_known kind source_id sql ctx (some e) n w known h =
        describe_acquired kind sql ctx e (r.provider.acquire source_id ctx w).0
          (r.provider.acquire source_id ctx w).1 n known
          (subst
            (λ m.
              Acquired l (r.provider.acquire source_id ctx w).0 m
                (r.provider.acquire source_id ctx w).1)
            h.0 (c.acquire source_id ctx w h.1))

    execute_known :
        (kind source_id sql : String) (ctx : QueryContext) (o : Option (SourceExecutor H B W))
        (n : ℕ) (w : W)
        → Dict.get kind r.executors ≡ o
        → Holds l n w
        → Holds l n
            (stream_after
              (known_executor o, w)
              λ e w₂.
                stream_after
                  (r.provider.acquire source_id ctx w₂)
                  λ handle w₃. released r handle (execute_on e sql ctx handle w₃)).1
    unfolding known_executor stream_after
    execute_known kind source_id sql ctx none n w known h = h
    execute_known kind source_id sql ctx (some e) n w known h =
        execute_acquired kind sql ctx e (r.provider.acquire source_id ctx w).0
          (r.provider.acquire source_id ctx w).1 n known
          (subst
            (λ m.
              Acquired l (r.provider.acquire source_id ctx w).0 m
                (r.provider.acquire source_id ctx w).1)
            h.0 (c.acquire source_id ctx w h.1))

    describe_found :
        (source_id sql : String) (ctx : QueryContext) (x : Result (SourceDescriptor V)) (n : ℕ)
        (w : W)
        → Holds l n w
        → Holds l n
            (resume x
              (λ desc. Exec.lift (executor_for r desc.kind) >>= λ e.
                r.provider.acquire source_id ctx >>= λ handle.
                try_finally (describe_on e sql ctx handle) (safe_release r handle))
              w).1
    unfolding executor_for
    describe_found source_id sql ctx (err x) n w h = h
    describe_found source_id sql ctx (ok desc) n w h =
        describe_known desc.kind source_id sql ctx (Dict.get desc.kind r.executors) n w refl h

    execute_found :
        (source_id sql : String) (ctx : QueryContext) (x : Result (SourceDescriptor V)) (n : ℕ)
        (w : W)
        → Holds l n w
        → Holds l n
            (stream_after
              (x, w)
              (λ desc w₁.
                stream_after
                  (executor_for r desc.kind, w₁)
                  λ e w₂.
                    stream_after
                      (r.provider.acquire source_id ctx w₂)
                      λ handle w₃. released r handle (execute_on e sql ctx handle w₃))).1
    unfolding executor_for stream_after
    execute_found source_id sql ctx (err x) n w h = h
    execute_found source_id sql ctx (ok desc) n w h =
        execute_known desc.kind source_id sql ctx (Dict.get desc.kind r.executors) n w refl h

    -- From a valid world, `describe` and `execute` leave as many connections out as there were, and
    -- a valid world, on every path: an unknown source or kind, a failed `acquire`, a handle of
    -- another kind, a failure of the executor or of `release`, and success. It is assumed that
    -- `IsCounted` holds.
    pub held_router :
        (source_id sql : String) (ctx : QueryContext) (w : W)
        → l.IsValid w
        → Holds l (l.held w) (describe r source_id sql ctx w).1
          × Holds l (l.held w) (execute r source_id sql ctx w).1
    unfolding describe execute
    held_router source_id sql ctx w valid = (
      describe_found source_id sql ctx (r.catalog.get_source source_id w).0 (l.held w)
          (r.catalog.get_source source_id w).1 (c.catalog source_id w valid),
      execute_found source_id sql ctx (r.catalog.get_source source_id w).0 (l.held w)
          (r.catalog.get_source source_id w).1 (c.catalog source_id w valid),
    )
