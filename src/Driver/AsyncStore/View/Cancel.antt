-- ===== src/Driver/AsyncStore/View/Cancel.antt =====
-- What `cancel` of the store brings about.
use nexcraft.Base.{
  ℕ, String, ◌≡◌, refl, sym, Bool, true, false, Option, none, some, List, [], ◌∷◌, arith, eq_iff,
  eq_refl, Bool-cases, subst, inl, inr, ◌≢◌, ◌⊎◌,
}
use nexcraft.Base.Dict
use nexcraft.Driver.AsyncStore.{
  pending, running, cancelled, QueryStatus, Phase, created, awaiting, finished, Task, Store, empty,
  cancellation, Event, submit, begin, complete, cancel, aclose, purge_spool, mark_cancelled,
  cancel_status, cancel_task, step, steps, status, or_expired,
}
use nexcraft.Driver.AsyncStore.View.{
  View, view, change, begin_view, complete_view, move, is_about, view-step_same, view-step_other,
}
use nexcraft.Driver.AsyncStore.View.Agree.{Over, Agree, Sound}
use nexcraft.Driver.AsyncStore.View.Sound.{AllAllowed, steps-IsSound, empty-IsSound}

-- A status `cancelled` beside a task that cannot overwrite it, if cancellations are honoured.
abbrev Doomed : Option QueryStatus → Option Task → Type 0
Doomed (some st) (some t) = (st.state ≡ cancelled) × ((t.cancelling ≡ true) ⊎ (t.phase ≡ finished))
Doomed _ _ = ⊥

-- No event submits the id again, and the await of a cancelled query ends by the cancellation.
abbrev pub Honours : String → Event → Type 0
Honours id (submit j) = j ≢ id
Honours id (complete j ending now) = j ≡ id → ending ≡ cancellation
Honours id purge_spool = ⊥
Honours id _ = Unit

abbrev with_task : QueryStatus → Phase → Bool → Option ℕ → View
with_task st p c file = record {
  status = some st;
  task = some (record { phase = p; cancelling = c });
  file = file;
}

abbrev IsDoomed : View → Type 0
IsDoomed v = Doomed v.status v.task

module _ (id : String) (now : ℕ) (st : QueryStatus) (file : Option ℕ) where
  begin-IsDoomed :
      (p : Phase) (c : Bool)
      → IsDoomed (with_task st p c file)
      → IsDoomed
          (begin_view id now (with_task st p c file) (some (record { phase = p; cancelling = c })))
  unfolding begin_view
  begin-IsDoomed created true h = (h.0, inr refl)
  begin-IsDoomed created false h = elim h.1 [ inl e ↦ cc | inr e ↦ cc ]
  begin-IsDoomed awaiting c h = h
  begin-IsDoomed finished c h = h

  complete-IsDoomed :
      (p : Phase) (c : Bool)
      → IsDoomed (with_task st p c file)
      → IsDoomed (
          complete_view id now cancellation
            (with_task st p c file)
            (some (record { phase = p; cancelling = c })))
  unfolding complete_view mark_cancelled
  complete-IsDoomed created c h = h
  complete-IsDoomed awaiting c h = (refl, inr refl)
  complete-IsDoomed finished c h = h

  cancel-Doomed :
      (p : Phase) (c : Bool)
      → IsDoomed (with_task st p c file)
      → Doomed
          (some (cancel_status now st.state st))
          (some (cancel_task p (record { phase = p; cancelling = c })))
  unfolding cancel_task cancel_status
  cancel-Doomed created c h = (ground arith, inl refl)
  cancel-Doomed awaiting c h = (ground arith, inl refl)
  cancel-Doomed finished c h = (ground arith, h.1)

  aclose-Doomed :
      (p : Phase) (c : Bool)
      → IsDoomed (with_task st p c file)
      → Doomed (some st) (some (cancel_task p (record { phase = p; cancelling = c })))
  unfolding cancel_task
  aclose-Doomed created c h = (h.0, inl refl)
  aclose-Doomed awaiting c h = (h.0, inl refl)
  aclose-Doomed finished c h = h

move-IsDoomed :
    (e : Event) (id : String) (st : QueryStatus) (file : Option ℕ) (p : Phase) (c : Bool)
    → is_about id e ≡ true
    → Honours id e
    → IsDoomed (with_task st p c file)
    → IsDoomed (move e (with_task st p c file))
unfolding move
move-IsDoomed (submit j) id st file p c same honours h = absurd (honours ((eq_iff j id).0 same))
move-IsDoomed (begin j at) id st file p c same honours h = begin-IsDoomed j at st file p c h
move-IsDoomed (complete j ending at) id st file p c same honours h =
    subst
      (λ x. IsDoomed (
        complete_view j at x (with_task st p c file) (some (record { phase = p; cancelling = c }))))
      (sym (honours ((eq_iff j id).0 same))) (complete-IsDoomed j at st file p c h)
move-IsDoomed (cancel j at) id st file p c same honours h = cancel-Doomed j at st file p c h
move-IsDoomed aclose id st file p c same honours h = aclose-Doomed id 0 st file p c h
move-IsDoomed purge_spool id st file p c same honours h = elim honours [ ]

step-IsDoomed :
    (s : Store) (e : Event) (id : String)
    → Honours id e
    → IsDoomed (view s id)
    → IsDoomed (view (step s e) id)
step-IsDoomed s e id honours h = elim (Bool-cases (is_about id e)) [
  | inl same ↦
      subst IsDoomed (sym (view-step_same s e id same))
        (go (Dict.get id s.statuses) (Dict.get id s.tasks) (Dict.get id s.spool) same h)
  | inr other ↦ subst IsDoomed (sym (view-step_other s e id other)) h
]
  where
    go :
        (st : Option QueryStatus) (t : Option Task) (file : Option ℕ)
        → is_about id e ≡ true
        → Doomed st t
        → IsDoomed (move e (record { status = st; task = t; file = file }))
    go (some st) (some t) file same d =
        move-IsDoomed e id st file t.phase t.cancelling same honours d
    go none t file same d = elim d [ ]
    go (some st) none file same d = elim d [ ]

abbrev pub AllHonour : String → List Event → Type 0
AllHonour id [] = Unit
AllHonour id (e ∷ events) = Honours id e × AllHonour id events

steps-IsDoomed :
    (s : Store) (events : List Event) (id : String)
    → AllHonour id events
    → IsDoomed (view s id)
    → IsDoomed (view (steps s events) id)
unfolding steps
steps-IsDoomed s [] id honours h = h
steps-IsDoomed s (e ∷ events) id honours h =
    steps-IsDoomed (step s e) events id honours.1 (step-IsDoomed s e id honours.0 h)

Doomed-state :
    (id : String) (st : Option QueryStatus) (t : Option Task)
    → Doomed st t
    → (or_expired id st).state ≡ cancelled
unfolding or_expired
Doomed-state id (some st) (some t) h = h.0
Doomed-state id (some st) none h = elim h [ ]
Doomed-state id none t h = elim h [ ]

Agree-cancel :
    (id : String) (now : ℕ) (st : QueryStatus) (p : Phase) (c : Bool) (file : Option ℕ)
    → Agree id st p c file
    → (st.state ≡ pending) ⊎ (st.state ≡ running)
    → Doomed
        (some (cancel_status now st.state st))
        (some (cancel_task p (record { phase = p; cancelling = c })))
unfolding cancel_status mark_cancelled cancel_task
Agree-cancel id now st created c file h o = (ground arith, inl refl)
Agree-cancel id now st awaiting c file h o = (ground arith, inl refl)
Agree-cancel id now st finished c file h (inl e) = (rw e refl, inr refl)
Agree-cancel id now st finished c file h (inr e) = elim (subst (λ x. Over id st x file) e h) [ ]

cancel_known :
    (s : Store) (id : String) (now : ℕ) (st : Option QueryStatus) (t : Option Task)
    → Dict.get id s.statuses ≡ st
    → Dict.get id s.tasks ≡ t
    → Sound id st t (Dict.get id s.spool)
    → ((or_expired id st).state ≡ pending) ⊎ ((or_expired id st).state ≡ running)
    → Doomed (change (λ x. cancel_status now x.state x) st) (change (λ u. cancel_task u.phase u) t)
unfolding or_expired
cancel_known s id now none t e f h (inl o) = cc
cancel_known s id now none t e f h (inr o) = cc
cancel_known s id now (some st) none e f h o = elim h [ ]
cancel_known s id now (some st) (some t) e f h o =
    Agree-cancel id now st t.phase t.cancelling (Dict.get id s.spool) h o

-- A query that is cancelled while it is pending or running has the status `cancelled` from then on,
-- whatever comes after, if its id is not submitted again, nobody purges the spool directory, and an
-- await that was cancelled ends by the cancellation. Before, no id is submitted twice and nothing
-- purged.
pub steps-cancel :
    (before after : List Event) (id : String) (now : ℕ)
    → AllAllowed empty before
    → AllHonour id after
    → ((status (steps empty before) id).state ≡ pending)
      ⊎ ((status (steps empty before) id).state ≡ running)
    → (status (steps (step (steps empty before) (cancel id now)) after) id).state ≡ cancelled
unfolding status
steps-cancel before after id now allowed honours live =
    let s = steps empty before in
    let h = steps-IsSound empty before id allowed (empty-IsSound id) in
    let self : is_about id (cancel id now) ≡ true = eq_refl id in
    let d : IsDoomed (view (step s (cancel id now)) id) =
      subst IsDoomed (sym (view-step_same s (cancel id now) id self)) (
        unfold move in
        cancel_known s id now (Dict.get id s.statuses) (Dict.get id s.tasks) refl refl h live) in
    let k = steps-IsDoomed (step s (cancel id now)) after id honours d in
    Doomed-state id _ (Dict.get id (steps (step s (cancel id now)) after).tasks) k
