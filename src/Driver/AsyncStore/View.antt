-- ===== src/Driver/AsyncStore/View.antt =====
-- What the store holds of one query, and how the events move it: each query is on its own.
pub mod Agree
pub mod Sound
pub mod Fetch
pub mod Final
pub mod Cancel
use nexcraft.Base.{
  ℕ, String, ◌≡◌, refl, Bool, true, false, Option, none, some, List, [], ◌∷◌, arith, eq_iff,
  eq_refl, str_eq, if◌then◌else◌, Bool-cases, inl, inr, ap, ◌∙◌, fun_ext,
}
use nexcraft.Base.Dict
use nexcraft.Base.Dict.{Dict, get-set, get-pop, get-map_values}
use nexcraft.Driver.AsyncStore.{
  QueryState, pending, running, succeeded, failed, cancelled, expired, QueryStatus, new_status,
  Phase, created, awaiting, finished, Task, Store, Ending, table, cancellation, exception, Event,
  submit, begin, complete, cancel, aclose, purge_spool, update, mark_running, mark_succeeded,
  mark_cancelled, mark_failed, cancel_status, cancel_task, begin_run, end_run, begin_at,
  complete_at, step,
}

pub record View : Type 0 where
  pub status : Option QueryStatus
  pub task : Option Task
  pub file : Option ℕ

abbrev pub view : Store → String → View
view s id = record {
  status = Dict.get id s.statuses;
  task = Dict.get id s.tasks;
  file = Dict.get id s.spool;
}

abbrev pub change : {A : Type 0} → (A → A) → Option A → Option A
change f none = none
change f (some a) = some (f a)

change-elim :
    {A : Type 0} (f : A → A) (o : Option A)
    → (elim o [ none ↦ none | some a ↦ some (f a) ]) ≡ change f o
change-elim f none = refl
change-elim f (some a) = refl

update_found :
    {A : Type 0} (k j : String) (f : A → A) (d : Dict A) (o : Option A)
    → Dict.get k d ≡ o
    → Dict.get j (elim o [ none ↦ d | some a ↦ Dict.set k (f a) d ])
      ≡ (if str_eq k j then change f (Dict.get j d) else Dict.get j d)
update_found k j f d none e = ground (arith, eq_iff k j)
update_found k j f d (some a) e = ground (arith, eq_iff k j, get-set k j (f a) d)

get-update :
    {A : Type 0} (k j : String) (f : A → A) (d : Dict A)
    → Dict.get j (update k f d) ≡ (if str_eq k j then change f (Dict.get j d) else Dict.get j d)
get-update k j f d = update_found k j f d (Dict.get k d) refl

-- The view of the query that an event is about, before and after it.
pub begin_view : String → ℕ → View → Option Task → View
begin_view id now v (some t) = elim t.phase [
  | created ↦ elim t.cancelling [
    | true ↦ record v { task = some (record { phase = finished; cancelling = true }) }
    | false ↦ record v {
      status = change (mark_running now) v.status;
      task = some (record { phase = awaiting; cancelling = false });
    }
  ]
  | _ ↦ v
]
begin_view id now v none = v

end_view : String → ℕ → View → Task → Ending → View
end_view id now v t (table rows size) = record {
  status = change (mark_succeeded id rows size now) v.status;
  task = some (record t { phase = finished });
  file = some size;
}
end_view id now v t cancellation = record {
  status = change (mark_cancelled now) v.status;
  task = some (record t { phase = finished });
  file = none;
}
end_view id now v t (exception class_name message formatted) = record {
  status = change (mark_failed class_name message formatted now) v.status;
  task = some (record t { phase = finished });
  file = none;
}

pub complete_view : String → ℕ → Ending → View → Option Task → View
unfolding end_view
complete_view id now ending v (some t) = elim t.phase [
  | awaiting ↦ end_view id now v t ending
  | _ ↦ v
]
complete_view id now ending v none = v

pub move : Event → View → View
unfolding begin_view complete_view
move (submit id) v = record {
  status = some (new_status id pending);
  task = some (record { phase = created; cancelling = false });
  file = v.file;
}
move (begin id now) v = begin_view id now v v.task
move (complete id ending now) v = complete_view id now ending v v.task
move (cancel id now) v = record v {
  status = change (λ st. cancel_status now st.state st) v.status;
  task = change (λ t. cancel_task t.phase t) v.task;
}
move aclose v = record v { task = change (λ t. cancel_task t.phase t) v.task }
move purge_spool v = record v { file = none }

abbrev pub is_about : String → Event → Bool
is_about id (submit j) = str_eq j id
is_about id (begin j now) = str_eq j id
is_about id (complete j ending now) = str_eq j id
is_about id (cancel j now) = str_eq j id
is_about id aclose = true
is_about id purge_spool = true

module _ (s : Store) (j id : String) (now : ℕ) where
  begin-view :
      (o : Option Task)
      → Dict.get j s.tasks ≡ o
      → view (elim o [ none ↦ s | some t ↦ begin_at s j now t t.phase ]) id
        ≡ (if str_eq j id then begin_view j now (view s id) (Dict.get id s.tasks) else view s id)
  unfolding begin_view begin_at
  begin-view none e = ground (arith, eq_iff j id)
  begin-view (some t) e = ground (
    arith,
    eq_iff j id,
    get-update j id (mark_running now) s.statuses,
    get-set j id (record { phase = awaiting; cancelling = false }) s.tasks,
    get-set j id (record { phase = finished; cancelling = true }) s.tasks,
  )

  complete-view :
      (ending : Ending) (o : Option Task)
      → Dict.get j s.tasks ≡ o
      → view (elim o [ none ↦ s | some t ↦ complete_at s j t ending now t.phase ]) id ≡ (
          if str_eq j id
          then complete_view j now ending (view s id) (Dict.get id s.tasks)
          else view s id)
  unfolding complete_view complete_at
  complete-view ending none e = ground (arith, eq_iff j id)
  complete-view (table rows size) (some t) e = ground (
    arith,
    eq_iff j id,
    get-update j id (mark_succeeded j rows size now) s.statuses,
    get-set j id (record t { phase = finished }) s.tasks,
    get-set j id size s.spool,
  )
  complete-view cancellation (some t) e = ground (
    arith,
    eq_iff j id,
    get-update j id (mark_cancelled now) s.statuses,
    get-set j id (record t { phase = finished }) s.tasks,
    get-pop j id s.spool,
  )
  complete-view (exception class_name message formatted) (some t) e = ground (
    arith,
    eq_iff j id,
    get-update j id (mark_failed class_name message formatted now) s.statuses,
    get-set j id (record t { phase = finished }) s.tasks,
    get-pop j id s.spool,
  )

-- An event moves the view of its query, and leaves that of any other query.
pub view-step :
    (s : Store) (e : Event) (id : String)
    → view (step s e) id ≡ (if is_about id e then move e (view s id) else view s id)
unfolding step move
view-step s (submit j) id = ground (
  arith,
  eq_iff j id,
  get-set j id (new_status j pending) s.statuses,
  get-set j id (record { phase = created; cancelling = false }) s.tasks,
)
view-step s (begin j now) id = begin-view s j id now (Dict.get j s.tasks) refl
view-step s (complete j ending now) id = complete-view s j id now ending (Dict.get j s.tasks) refl
view-step s (cancel j now) id = ground (
  arith,
  eq_iff j id,
  get-update j id (λ st. cancel_status now st.state st) s.statuses,
  get-update j id (λ t. cancel_task t.phase t) s.tasks,
)
view-step s aclose id =
    let kept = get-map_values id (λ t. cancel_task t.phase t) s.tasks ∙ change-elim _ _ in
    λ i. record (view s id) { task = kept i }
view-step s purge_spool id = unfold Dict.get in refl

module _ (s : Store) (e : Event) (id : String) where
  pub view-step_same : is_about id e ≡ true → view (step s e) id ≡ move e (view s id)
  view-step_same same =
      view-step s e id ∙ ap (λ b. if b then move e (view s id) else view s id) same

  pub view-step_other : is_about id e ≡ false → view (step s e) id ≡ view s id
  view-step_other other =
      view-step s e id ∙ ap (λ b. if b then move e (view s id) else view s id) other
