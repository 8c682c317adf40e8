-- ===== src/Driver/AsyncStore/View/Final.antt =====
-- Queries that are over stay as they are.
use nexcraft.Base.{
  ℕ, String, ◌≡◌, refl, sym, ◌∙◌, ap, Option, none, some, List, [], ◌∷◌, arith, Bool-cases, subst,
  inl, inr, ◌≢◌,
}
use nexcraft.Base.Dict
use nexcraft.Driver.AsyncStore.{
  QueryStatus, finished, Task, Store, empty, Ending, Event, submit, begin, pending, complete,
  cancel, aclose, purge_spool, cancel_status, cancel_task, step, steps, status, or_expired,
}
use nexcraft.Driver.AsyncStore.View.{
  View, view, change, begin_view, complete_view, move, is_about, view-step_same, view-step_other,
}
use nexcraft.Driver.AsyncStore.View.Agree.{Over-cancel, Agree, Sound, IsSound, Allowed}
use nexcraft.Driver.AsyncStore.View.Sound.{
  Allowed-view, step-IsSound, AllowedIn, AllAllowed, steps-IsSound, empty-IsSound,
}

-- A query whose task is at its end.
abbrev pub Finished : View → Type 0
Finished v = (t : Task) × (v.task ≡ some t) × (t.phase ≡ finished)

begin_finished :
    (id : String) (now : ℕ) (v : View) (t : Task)
    → t.phase ≡ finished
    → begin_view id now v (some t) ≡ v
unfolding begin_view
begin_finished id now v t e = ground arith

complete_finished :
    (id : String) (now : ℕ) (ending : Ending) (v : View) (t : Task)
    → t.phase ≡ finished
    → complete_view id now ending v (some t) ≡ v
unfolding complete_view
complete_finished id now ending v t e = ground arith

task_finished : (t : Task) → t.phase ≡ finished → cancel_task t.phase t ≡ t
unfolding cancel_task
task_finished t e = rw e refl

cancel_finished :
    (id : String) (now : ℕ) (st : Option QueryStatus) (t : Task) (file : Option ℕ)
    → Sound id st (some t) file
    → t.phase ≡ finished
    → (or_expired id st).state ≢ pending
    → (change (λ x. cancel_status now x.state x) st ≡ st) × (cancel_task t.phase t ≡ t)
unfolding or_expired
cancel_finished id now none t file h e ne = elim h [ ]
cancel_finished id now (some st) t file h e ne =
    let o : Agree id st finished t.cancelling file =
      subst (λ p. Agree id st p t.cancelling file) e h in
    (ap some (Over-cancel id now st st.state file refl o ne), task_finished t e)

move-finished :
    (e : Event) (v : View) (id : String) (t : Task)
    → v.task ≡ some t
    → t.phase ≡ finished
    → Allowed v e
    → Sound id v.status (some t) v.file
    → (or_expired id v.status).state ≢ pending
    → move e v ≡ v
unfolding move
move-finished (submit j) v id t is end allowed h ne = cc
move-finished (begin j now) v id t is end allowed h ne =
    ap (λ x. begin_view j now v x) is ∙ begin_finished j now v t end
move-finished (complete j ending now) v id t is end allowed h ne =
    ap (λ x. complete_view j now ending v x) is ∙ complete_finished j now ending v t end
move-finished (cancel j now) v id t is end allowed h ne =
    let (same, left) = cancel_finished id now v.status t v.file h end ne in
    let kept : change (λ u. cancel_task u.phase u) v.task ≡ v.task =
      ap (change (λ u. cancel_task u.phase u)) is ∙ ap some left ∙ sym is in
    λ i. record v { status = same i; task = kept i }
move-finished aclose v id t is end allowed h ne =
    let kept : change (λ u. cancel_task u.phase u) v.task ≡ v.task =
      ap (change (λ u. cancel_task u.phase u)) is ∙ ap some (task_finished t end) ∙ sym is in
    λ i. record v { task = kept i }
move-finished purge_spool v id t is end allowed h ne = elim allowed [ ]

step-finished :
    (s : Store) (e : Event) (id : String) (t : Task)
    → Dict.get id s.tasks ≡ some t
    → t.phase ≡ finished
    → AllowedIn s e
    → IsSound id (view s id)
    → (status s id).state ≢ pending
    → view (step s e) id ≡ view s id
unfolding status
step-finished s e id t is end allowed h ne = elim (Bool-cases (is_about id e)) [
  | inl same ↦
      view-step_same s e id same
      ∙ move-finished e (view s id) id t is end (Allowed-view s e id same allowed)
          (subst (λ o. Sound id (Dict.get id s.statuses) o (Dict.get id s.spool)) is h) ne
  | inr other ↦ view-step_other s e id other
]

steps-finished :
    (s : Store) (events : List Event) (id : String) (t : Task)
    → Dict.get id s.tasks ≡ some t
    → t.phase ≡ finished
    → AllAllowed s events
    → IsSound id (view s id)
    → (status s id).state ≢ pending
    → view (steps s events) id ≡ view s id
unfolding steps status
steps-finished s [] id t is end allowed h ne = refl
steps-finished s (e ∷ events) id t is end allowed h ne =
    let kept = step-finished s e id t is end allowed.0 h ne in
    steps-finished (step s e) events id t (ap (λ v. v.task) kept ∙ is) end allowed.1
      (step-IsSound s e id allowed.0 h)
      (subst (λ v. (or_expired id v.status).state ≢ pending) (sym kept) ne)
    ∙ kept

-- Once the task of a query is at its end and the status is not `pending`, no event changes the
-- query's status, its task or its file: a late `cancel` or `aclose` does nothing. `before` leads to
-- that point from the empty store. No id is submitted twice, and nobody purges the spool directory.
pub steps-final :
    (before after : List Event) (id : String) (t : Task)
    → AllAllowed empty before
    → AllAllowed (steps empty before) after
    → Dict.get id (steps empty before).tasks ≡ some t
    → t.phase ≡ finished
    → (status (steps empty before) id).state ≢ pending
    → view (steps (steps empty before) after) id ≡ view (steps empty before) id
steps-final before after id t allowed then_allowed is end ne =
    steps-finished (steps empty before) after id t is end then_allowed
      (steps-IsSound empty before id allowed (empty-IsSound id)) ne
