-- ===== src/Driver/AsyncStore/View/Sound.antt =====
-- The invariant of a query: its status, its task and its file agree.
use nexcraft.Base.{
  String, ◌≡◌, refl, sym, true, none, List, [], ◌∷◌, eq_iff, Bool-cases, subst, inl, inr,
}
use nexcraft.Base.Dict
use nexcraft.Driver.AsyncStore.{
  Store, empty, Event, submit, begin, complete, cancel, aclose, purge_spool, step, steps,
}
use nexcraft.Driver.AsyncStore.View.{View, view, move, is_about, view-step_same, view-step_other}
use nexcraft.Driver.AsyncStore.View.Agree.{
  IsSound, Allowed, begin-Sound, complete-Sound, cancel-Sound, aclose-Sound, submit-Sound,
}

move-IsSound :
    (e : Event) (id : String) (v : View)
    → is_about id e ≡ true
    → Allowed v e
    → IsSound id v
    → IsSound id (move e v)
unfolding move
move-IsSound (submit j) id v same allowed h =
    subst (λ k. IsSound id (move (submit k) v)) (sym ((eq_iff j id).0 same))
      (submit-Sound id v.status v.task v.file allowed h)
move-IsSound (begin j now) id v same allowed h =
    subst (λ k. IsSound id (move (begin k now) v)) (sym ((eq_iff j id).0 same))
      (begin-Sound id now v.status v.task v.file h)
move-IsSound (complete j ending now) id v same allowed h =
    subst (λ k. IsSound id (move (complete k ending now) v)) (sym ((eq_iff j id).0 same))
      (complete-Sound id now ending v.status v.task v.file h)
move-IsSound (cancel j now) id v same allowed h = cancel-Sound id now v.status v.task v.file h
move-IsSound aclose id v same allowed h = aclose-Sound id 0 v.status v.task v.file h
move-IsSound purge_spool id v same allowed h = elim allowed [ ]

-- Each event is allowed when it happens.
abbrev pub AllowedIn : Store → Event → Type 0
AllowedIn s (submit id) = Dict.get id s.tasks ≡ none
AllowedIn s purge_spool = ⊥
AllowedIn s _ = Unit

abbrev pub AllAllowed : Store → List Event → Type 0
AllAllowed s [] = Unit
AllAllowed s (e ∷ events) = AllowedIn s e × AllAllowed (step s e) events

pub Allowed-view :
    (s : Store) (e : Event) (id : String)
    → is_about id e ≡ true
    → AllowedIn s e
    → Allowed (view s id) e
Allowed-view s (submit j) id same allowed =
    subst (λ k. Dict.get k s.tasks ≡ none) ((eq_iff j id).0 same) allowed
Allowed-view s (begin j now) id same allowed = tt
Allowed-view s (complete j ending now) id same allowed = tt
Allowed-view s (cancel j now) id same allowed = tt
Allowed-view s aclose id same allowed = tt
Allowed-view s purge_spool id same allowed = allowed

pub step-IsSound :
    (s : Store) (e : Event) (id : String)
    → AllowedIn s e
    → IsSound id (view s id)
    → IsSound id (view (step s e) id)
step-IsSound s e id allowed h = elim (Bool-cases (is_about id e)) [
  | inl same ↦
      subst (IsSound id) (sym (view-step_same s e id same))
        (move-IsSound e id (view s id) same (Allowed-view s e id same allowed) h)
  | inr other ↦ subst (IsSound id) (sym (view-step_other s e id other)) h
]

pub steps-IsSound :
    (s : Store) (events : List Event) (id : String)
    → AllAllowed s events
    → IsSound id (view s id)
    → IsSound id (view (steps s events) id)
unfolding steps
steps-IsSound s [] id allowed h = h
steps-IsSound s (e ∷ events) id allowed h =
    steps-IsSound (step s e) events id allowed.1 (step-IsSound s e id allowed.0 h)

pub empty-IsSound : (id : String) → IsSound id (view empty id)
unfolding Dict.get
empty-IsSound id = refl
