-- ===== src/Driver/Tests.antt =====
-- Tests of the store of background queries, and the theorems about it at small histories.
use nexcraft.Base.{ℕ, ◌≡◌, refl, ◌≢◌, inr, false, some, List, [], ◌∷◌, ok, err, foreign_error}
use nexcraft.Base.Dict
use nexcraft.Driver.AsyncStore.{
  pending, succeeded, cancelled, empty, table, cancellation, Event, submit, begin, complete, cancel,
  aclose, steps, step, status, fetch, finished,
}
use nexcraft.Driver.AsyncStore.View.{view}
use nexcraft.Driver.AsyncStore.View.Fetch.{fetch-status}
use nexcraft.Driver.AsyncStore.View.Final.{steps-final}
use nexcraft.Driver.AsyncStore.View.Cancel.{steps-cancel}

-- One query that succeeds, and one that is cancelled while it runs.
abbrev history : List Event
history = submit "q" ∷ begin "q" 5 ∷ submit "r" ∷ begin "r" 6 ∷ complete "q" (table 3 100) 8 ∷ []

fetch-status_example :
    ((status (steps empty history) "q").state ≡ succeeded
      → (size : ℕ) × (fetch (steps empty history) "q" ≡ ok size)
        × ((status (steps empty history) "q").bytes ≡ some size))
    × ((status (steps empty history) "q").state ≢ succeeded
        → fetch (steps empty history) "q" ≡ err (foreign_error "RuntimeError"))
unfolding steps step Dict.get Dict.set
fetch-status_example = fetch-status history "q" (refl, (tt, (refl, (tt, (tt, tt)))))

fetch-history : fetch (steps empty history) "q" ≡ ok 100
unfolding fetch steps step Dict.get Dict.set
fetch-history = refl

-- A late `cancel`, and a shutdown.
steps-final_example :
    view (steps (steps empty history) (cancel "q" 9 ∷ aclose ∷ [])) "q"
    ≡ view (steps empty history) "q"
unfolding steps step status Dict.get Dict.set
steps-final_example =
    steps-final history (cancel "q" 9 ∷ aclose ∷ []) "q"
      (record { phase = finished; cancelling = false }) (refl, (tt, (refl, (tt, (tt, tt)))))
      (tt, (tt, tt)) refl refl (λ e. cc)

-- A shutdown before the first step of a task leaves its status `pending`.
left_pending : (status (steps empty (submit "q" ∷ aclose ∷ begin "q" 5 ∷ [])) "q").state ≡ pending
unfolding steps step status Dict.get Dict.set Dict.map_values
left_pending = refl

steps-cancel_example :
    (status
      (steps (step (steps empty history) (cancel "r" 9)) (complete "r" cancellation 10 ∷ []))
      "r").state
    ≡ cancelled
unfolding steps step status Dict.get Dict.set
steps-cancel_example =
    steps-cancel history (complete "r" cancellation 10 ∷ []) "r" 9
      (refl, (tt, (refl, (tt, (tt, tt))))) ((λ same. refl), tt) (inr refl)
