-- ===== src/Driver/AsyncStore/View/Fetch.antt =====
-- What `fetch` of the store gives.
use nexcraft.Base.{
  ℕ, String, ◌≡◌, refl, Bool, true, false, Option, none, some, List, arith, subst, inl, inr, ◌≢◌,
  ok, err, foreign_error,
}
use nexcraft.Base.Dict
use nexcraft.Driver.AsyncStore.{
  QueryState, pending, running, succeeded, failed, cancelled, expired, QueryStatus, Phase, created,
  awaiting, finished, Task, Store, empty, Event, steps, status, or_expired, fetch, fetch_in,
  open_file,
}
use nexcraft.Driver.AsyncStore.View.Agree.{Over, Agree, Sound}
use nexcraft.Driver.AsyncStore.View.Sound.{AllAllowed, steps-IsSound, empty-IsSound}

open_file-some :
    (id : String) (s : Store) (uri : Option String) (size : ℕ)
    → uri ≡ some id
    → Dict.get id s.spool ≡ some size
    → open_file s uri ≡ ok size
unfolding open_file
open_file-some id s uri size e f = ground arith

-- A status `succeeded` stands beside the file that its `result_uri` names.
Agree-file :
    (id : String) (s : Store) (st : QueryStatus) (p : Phase) (c : Bool)
    → Agree id st p c (Dict.get id s.spool)
    → st.state ≡ succeeded
    → (size : ℕ) × (open_file s st.result_uri ≡ ok size) × (st.bytes ≡ some size)
Agree-file id s st created false k e = cc (k.0)
Agree-file id s st created true (inl p, k, uri) e = cc
Agree-file id s st created true (inr p, k, uri) e = cc
Agree-file id s st awaiting false k e = cc (k.0)
Agree-file id s st awaiting true (inl p, k, uri) e = cc
Agree-file id s st awaiting true (inr p, k, uri) e = cc
Agree-file id s st finished c k e =
    let o : Over id st succeeded (Dict.get id s.spool) =
      subst (λ x. Over id st x (Dict.get id s.spool)) e k in
    (o.0, open_file-some id s st.result_uri o.0 o.2 o.1, o.3)

succeeded_file :
    (id : String) (s : Store) (st : Option QueryStatus) (t : Option Task)
    → Sound id st t (Dict.get id s.spool)
    → (or_expired id st).state ≡ succeeded
    → (size : ℕ) × (open_file s (or_expired id st).result_uri ≡ ok size)
      × ((or_expired id st).bytes ≡ some size)
unfolding or_expired
succeeded_file id s none t h e = cc
succeeded_file id s (some st) none h e = elim h [ ]
succeeded_file id s (some st) (some t) h e = Agree-file id s st t.phase t.cancelling h e

not_ready :
    (s : Store) (st : QueryStatus) (state : QueryState)
    → state ≢ succeeded
    → fetch_in s st state ≡ err (foreign_error "RuntimeError")
unfolding fetch_in
not_ready s st succeeded h = absurd (h refl)
not_ready s st pending h = refl
not_ready s st running h = refl
not_ready s st failed h = refl
not_ready s st cancelled h = refl
not_ready s st expired h = refl

-- From an empty store, whatever the events in whatever order, if no id is submitted twice and nobody
-- purges the spool directory: `fetch` opens the result, whose size is the one in the status, exactly
-- for the queries with the status `succeeded`. For all others, the unknown ones too, it raises a
-- RuntimeError.
pub fetch-status :
    (events : List Event) (id : String)
    → AllAllowed empty events
    → ((status (steps empty events) id).state ≡ succeeded
        → (size : ℕ) × (fetch (steps empty events) id ≡ ok size)
          × ((status (steps empty events) id).bytes ≡ some size))
      × ((status (steps empty events) id).state ≢ succeeded
          → fetch (steps empty events) id ≡ err (foreign_error "RuntimeError"))
unfolding fetch
fetch-status events id allowed =
    let s = steps empty events in
    (
      λ e.
          let (size, opened, sized) =
            succeeded_file id s (Dict.get id s.statuses) (Dict.get id s.tasks)
              (steps-IsSound empty events id allowed (empty-IsSound id)) e in
          (size, rw e (unfold fetch_in in opened), sized),
      λ ne. not_ready s (status s id) (status s id).state ne,
    )
