-- ===== src/Driver/AsyncStore/View/Agree.antt =====
-- What the status, the task and the file of a query say of each other, and the changes that keep it.
use nexcraft.Base.{ℕ, String, ◌≡◌, refl, Bool, true, false, Option, none, some, inl, inr, ◌⊎◌, ◌≢◌}
use nexcraft.Driver.AsyncStore.{
  QueryState, pending, running, succeeded, failed, cancelled, expired, QueryStatus, new_status,
  Phase, created, awaiting, finished, Task, Ending, table, cancellation, exception, Event, submit,
  purge_spool, mark_running, mark_succeeded, mark_cancelled, mark_failed, cancel_status,
  cancel_task,
}
use nexcraft.Driver.AsyncStore.View.{View, change, begin_view, complete_view}

-- A query whose task is at its end, by its state: a result is in its file, and nothing else has one.
-- A task that `aclose` cancelled before its first step leaves the status `pending`.
abbrev pub Over : String → QueryStatus → QueryState → Option ℕ → Type 0
Over id st succeeded file =
    (size : ℕ) × (file ≡ some size) × (st.result_uri ≡ some id) × (st.bytes ≡ some size)
Over id st failed file = (file ≡ none) × (st.result_uri ≡ none)
Over id st cancelled file = (file ≡ none) × (st.result_uri ≡ none)
Over id st pending file = (file ≡ none) × (st.result_uri ≡ none)
Over id st _ file = ⊥

abbrev pub Agree : String → QueryStatus → Phase → Bool → Option ℕ → Type 0
Agree id st created false file = (st.state ≡ pending) × (file ≡ none) × (st.result_uri ≡ none)
Agree id st created true file =
    ((st.state ≡ pending) ⊎ (st.state ≡ cancelled)) × (file ≡ none) × (st.result_uri ≡ none)
Agree id st awaiting false file = (st.state ≡ running) × (file ≡ none) × (st.result_uri ≡ none)
Agree id st awaiting true file =
    ((st.state ≡ running) ⊎ (st.state ≡ cancelled)) × (file ≡ none) × (st.result_uri ≡ none)
Agree id st finished c file = Over id st st.state file

abbrev pub Sound : String → Option QueryStatus → Option Task → Option ℕ → Type 0
Sound id none none file = file ≡ none
Sound id (some st) (some t) file = Agree id st t.phase t.cancelling file
Sound id none (some t) file = ⊥
Sound id (some st) none file = ⊥

abbrev pub IsSound : String → View → Type 0
IsSound id v = Sound id v.status v.task v.file

-- A submission takes an id that no query has, as `uuid4` is meant to give, and nobody purges the
-- spool directory, which the source calls a helper for tests.
abbrev pub Allowed : View → Event → Type 0
Allowed v (submit id) = v.task ≡ none
Allowed v purge_spool = ⊥
Allowed v _ = Unit

abbrev pub made : Option QueryStatus → Option Task → Option ℕ → View
made st t file = record { status = st; task = t; file = file }

abbrev pub at : Phase → Bool → Task
at p c = record { phase = p; cancelling = c }

module _ (id : String) (now : ℕ) where
  begin_at-Sound :
      (st : Option QueryStatus) (p : Phase) (c : Bool) (file : Option ℕ)
      → Sound id st (some (at p c)) file
      → IsSound id (begin_view id now (made st (some (at p c)) file) (some (at p c)))
  unfolding begin_view mark_running
  begin_at-Sound none p c file h = elim h [ ]
  begin_at-Sound (some st) created false file h = (refl, h.1, h.2)
  begin_at-Sound (some st) created true file (inl e, g, k) = rw e (g, k)
  begin_at-Sound (some st) created true file (inr e, g, k) = rw e (g, k)
  begin_at-Sound (some st) awaiting c file h = h
  begin_at-Sound (some st) finished c file h = h

  pub begin-Sound :
      (st : Option QueryStatus) (t : Option Task) (file : Option ℕ)
      → Sound id st t file
      → IsSound id (begin_view id now (made st t file) t)
  begin-Sound st (some t) file h = begin_at-Sound st t.phase t.cancelling file h
  begin-Sound st none file h = unfold begin_view in h

  complete_at-Sound :
      (ending : Ending) (st : Option QueryStatus) (p : Phase) (c : Bool) (file : Option ℕ)
      → Sound id st (some (at p c)) file
      → IsSound id (complete_view id now ending (made st (some (at p c)) file) (some (at p c)))
  unfolding complete_view mark_succeeded mark_cancelled mark_failed
  complete_at-Sound ending none p c file h = elim h [ ]
  complete_at-Sound (table rows size) (some st) awaiting c file h = (size, refl, refl, refl)
  complete_at-Sound cancellation (some st) awaiting false file h = (refl, h.2)
  complete_at-Sound cancellation (some st) awaiting true file h = (refl, h.2)
  complete_at-Sound (exception n m f) (some st) awaiting false file h = (refl, h.2)
  complete_at-Sound (exception n m f) (some st) awaiting true file h = (refl, h.2)
  complete_at-Sound ending (some st) created c file h = h
  complete_at-Sound ending (some st) finished c file h = h

  pub complete-Sound :
      (ending : Ending) (st : Option QueryStatus) (t : Option Task) (file : Option ℕ)
      → Sound id st t file
      → IsSound id (complete_view id now ending (made st t file) t)
  complete-Sound ending st (some t) file h = complete_at-Sound ending st t.phase t.cancelling file h
  complete-Sound ending st none file h = unfold complete_view in h

  -- A query that is over is not touched by `cancel`, unless its status is still `pending`.
  pub Over-cancel :
      (st : QueryStatus) (state : QueryState) (file : Option ℕ)
      → st.state ≡ state
      → Over id st state file
      → state ≢ pending
      → cancel_status now state st ≡ st
  unfolding cancel_status
  Over-cancel st succeeded file e h ne = refl
  Over-cancel st failed file e h ne = refl
  Over-cancel st cancelled file e h ne = refl
  Over-cancel st pending file e h ne = absurd (ne refl)
  Over-cancel st running file e h ne = elim h [ ]
  Over-cancel st expired file e h ne = elim h [ ]

  Over-cancelled :
      (st : QueryStatus) (state : QueryState) (file : Option ℕ)
      → st.state ≡ state
      → Over id st state file
      → Over id (cancel_status now state st) (cancel_status now state st).state file
  unfolding cancel_status mark_cancelled
  Over-cancelled st pending file e h = h
  Over-cancelled st succeeded file e h = rw e h
  Over-cancelled st failed file e h = rw e h
  Over-cancelled st cancelled file e h = rw e h
  Over-cancelled st running file e h = elim h [ ]
  Over-cancelled st expired file e h = elim h [ ]

  cancel_at-Sound :
      (st : QueryStatus) (p : Phase) (c : Bool) (file : Option ℕ)
      → Agree id st p c file
      → IsSound id
          (made (some (cancel_status now st.state st)) (some (cancel_task p (at p c))) file)
  unfolding cancel_task
  cancel_at-Sound st created false file h =
      rw h.0 (unfold cancel_status mark_cancelled in (inr refl, h.1, h.2))
  cancel_at-Sound st created true file (inl e, g, k) =
      rw e (unfold cancel_status mark_cancelled in (inr refl, g, k))
  cancel_at-Sound st created true file (inr e, g, k) =
      rw e (unfold cancel_status in (inr refl, g, k))
  cancel_at-Sound st awaiting false file h =
      rw h.0 (unfold cancel_status mark_cancelled in (inr refl, h.1, h.2))
  cancel_at-Sound st awaiting true file (inl e, g, k) =
      rw e (unfold cancel_status mark_cancelled in (inr refl, g, k))
  cancel_at-Sound st awaiting true file (inr e, g, k) =
      rw e (unfold cancel_status in (inr refl, g, k))
  cancel_at-Sound st finished c file h = Over-cancelled st st.state file refl h

  aclose_at-Sound :
      (st : QueryStatus) (p : Phase) (c : Bool) (file : Option ℕ)
      → Agree id st p c file
      → IsSound id (made (some st) (some (cancel_task p (at p c))) file)
  unfolding cancel_task
  aclose_at-Sound st created false file h = (inl h.0, h.1, h.2)
  aclose_at-Sound st created true file h = h
  aclose_at-Sound st awaiting false file h = (inl h.0, h.1, h.2)
  aclose_at-Sound st awaiting true file h = h
  aclose_at-Sound st finished c file h = h

  pub aclose-Sound :
      (st : Option QueryStatus) (t : Option Task) (file : Option ℕ)
      → Sound id st t file
      → IsSound id (made st (change (λ u. cancel_task u.phase u) t) file)
  aclose-Sound none none file h = h
  aclose-Sound (some st) (some t) file h = aclose_at-Sound st t.phase t.cancelling file h
  aclose-Sound none (some t) file h = elim h [ ]
  aclose-Sound (some st) none file h = elim h [ ]

  pub cancel-Sound :
      (st : Option QueryStatus) (t : Option Task) (file : Option ℕ)
      → Sound id st t file
      → IsSound id (
          made
            (change (λ s. cancel_status now s.state s) st)
            (change (λ u. cancel_task u.phase u) t)
            file)
  cancel-Sound none none file h = h
  cancel-Sound (some st) (some t) file h = cancel_at-Sound st t.phase t.cancelling file h
  cancel-Sound none (some t) file h = elim h [ ]
  cancel-Sound (some st) none file h = elim h [ ]

pub submit-Sound :
    (id : String) (st : Option QueryStatus) (t : Option Task) (file : Option ℕ)
    → t ≡ none
    → Sound id st t file
    → IsSound id (made (some (new_status id pending)) (some (at created false)) file)
submit-Sound id none none file e h = (refl, h, refl)
submit-Sound id (some st) none file e h = elim h [ ]
submit-Sound id st (some t) file e h = cc
