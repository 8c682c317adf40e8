-- ===== src/Driver/AsyncStore.antt =====
-- packages/nexcraft-driver/nexcraft_driver/async_store.py: `InProcessAsyncQueryStore`, with the
-- statuses of types.py. No task awaits while it holds the lock, so the lock is always free, and what
-- stands between two awaits of a task is one event. A query's file is named by its id. Times are
-- what `now_utc` gives.
pub mod View
use nexcraft.Base.{
  ℕ, String, Bool, true, false, Option, none, some, List, [], ◌∷◌, str_eq, if◌then◌else◌, Result,
  ok, err, foreign_error,
}
use nexcraft.Base.Dict
use nexcraft.Base.Dict.{Dict}

pub data QueryState : Type 0 where
  pending running succeeded failed cancelled expired : QueryState

pub record QueryStatus : Type 0 where
  pub query_id : String
  pub state : QueryState
  pub rows : Option ℕ
  pub bytes : Option ℕ
  pub started_at : Option ℕ
  pub completed_at : Option ℕ
  pub error_class : Option String
  pub error_message : Option String
  pub result_uri : Option String

abbrev pub new_status : String → QueryState → QueryStatus
new_status query_id state = record {
  query_id = query_id;
  state = state;
  rows = none;
  bytes = none;
  started_at = none;
  completed_at = none;
  error_class = none;
  error_message = none;
  result_uri = none;
}

-- Where the coroutine `_run` of a query stands: not begun, in `execute_to_table`, at its end.
pub data Phase : Type 0 where
  created awaiting finished : Phase

-- An asyncio task, and whether `task.cancel()` was called on it.
pub record Task : Type 0 where
  pub phase : Phase
  pub cancelling : Bool

pub record Store : Type 0 where
  pub statuses : Dict QueryStatus
  pub tasks : Dict Task
  -- the sizes of the files in the spool directory
  pub spool : Dict ℕ

abbrev pub empty : Store
empty = record { statuses = []; tasks = []; spool = [] }

-- How the await in `_run` and what follows it up to the last lock end: a table that was written, a
-- cancellation, or an exception by its class, its text and the text that stands in for an empty one.
pub data Ending : Type 0 where
  table : (rows size : ℕ) → Ending
  cancellation : Ending
  exception : (class_name message formatted : String) → Ending

-- What can happen, each event for one query but the last two.
pub data Event : Type 0 where
  submit : String → Event
  begin : String → (now : ℕ) → Event
  complete : String → Ending → (now : ℕ) → Event
  cancel : String → (now : ℕ) → Event
  aclose : Event
  purge_spool : Event

abbrev pub update : {A : Type 0} → String → (A → A) → Dict A → Dict A
update k f d = elim (Dict.get k d) [ none ↦ d | some a ↦ Dict.set k (f a) d ]

mark_running : ℕ → QueryStatus → QueryStatus
mark_running now st = record st { state = running; started_at = some now }

mark_succeeded : String → ℕ → ℕ → ℕ → QueryStatus → QueryStatus
mark_succeeded path rows size now st = record st {
  state = succeeded;
  completed_at = some now;
  rows = some rows;
  bytes = some size;
  result_uri = some path;
}

mark_cancelled : ℕ → QueryStatus → QueryStatus
mark_cancelled now st = record st { state = cancelled; completed_at = some now }

-- `str(exc) or "".join(...)`
mark_failed : String → String → String → ℕ → QueryStatus → QueryStatus
mark_failed class_name message formatted now st = record st {
  state = failed;
  completed_at = some now;
  error_class = some class_name;
  error_message = some (if str_eq message "" then formatted else message);
}

-- The `cancel` method on a status that is there.
pub cancel_status : ℕ → QueryState → QueryStatus → QueryStatus
unfolding mark_cancelled
cancel_status now pending st = mark_cancelled now st
cancel_status now running st = mark_cancelled now st
cancel_status now _ st = st

pub cancel_task : Phase → Task → Task
cancel_task finished t = t
cancel_task _ t = record t { cancelling = true }

-- The first step of `_run`. A task that was cancelled before it ends without running any of it.
begin_run : Store → String → ℕ → Bool → Store
unfolding mark_running
begin_run s id now true = record s {
  tasks = Dict.set id (record { phase = finished; cancelling = true }) s.tasks;
}
begin_run s id now false = record s {
  statuses = update id (mark_running now) s.statuses;
  tasks = Dict.set id (record { phase = awaiting; cancelling = false }) s.tasks;
}

-- The rest of `_run`, by how the await ended.
end_run : Store → String → Task → Ending → ℕ → Store
unfolding mark_succeeded mark_cancelled mark_failed
end_run s id t (table rows size) now = record {
  statuses = update id (mark_succeeded id rows size now) s.statuses;
  tasks = Dict.set id (record t { phase = finished }) s.tasks;
  spool = Dict.set id size s.spool;
}
end_run s id t cancellation now = record {
  statuses = update id (mark_cancelled now) s.statuses;
  tasks = Dict.set id (record t { phase = finished }) s.tasks;
  spool = Dict.pop id s.spool;
}
end_run s id t (exception class_name message formatted) now = record {
  statuses = update id (mark_failed class_name message formatted now) s.statuses;
  tasks = Dict.set id (record t { phase = finished }) s.tasks;
  spool = Dict.pop id s.spool;
}

begin_at : Store → String → ℕ → Task → Phase → Store
unfolding begin_run
begin_at s id now t created = begin_run s id now t.cancelling
begin_at s id now t _ = s

complete_at : Store → String → Task → Ending → ℕ → Phase → Store
unfolding end_run
complete_at s id t ending now awaiting = end_run s id t ending now
complete_at s id t ending now _ = s

-- An event of a task that is not there, or not at that point, cannot happen and changes nothing.
unfoldable pub step : Store → Event → Store
unfolding begin_at complete_at cancel_task cancel_status
step s (submit id) = record s {
  statuses = Dict.set id (new_status id pending) s.statuses;
  tasks = Dict.set id (record { phase = created; cancelling = false }) s.tasks;
}
step s (begin id now) = elim (Dict.get id s.tasks) [
  | none ↦ s
  | some t ↦ begin_at s id now t t.phase
]
step s (complete id ending now) = elim (Dict.get id s.tasks) [
  | none ↦ s
  | some t ↦ complete_at s id t ending now t.phase
]
step s (cancel id now) = record s {
  statuses = update id (λ st. cancel_status now st.state st) s.statuses;
  tasks = update id (λ t. cancel_task t.phase t) s.tasks;
}
step s aclose = record s { tasks = Dict.map_values (λ t. cancel_task t.phase t) s.tasks }
step s purge_spool = record s { spool = [] }

unfoldable pub steps : Store → List Event → Store
steps s [] = s
steps s (e ∷ events) = steps (step s e) events

or_expired : String → Option QueryStatus → QueryStatus
or_expired id (some st) = st
or_expired id none = record (new_status id expired) {
  error_class = some "UnknownHandle";
  error_message = some "query_id not found (expired or never submitted)";
}

unfoldable pub status : Store → String → QueryStatus
unfolding or_expired
status s id = or_expired id (Dict.get id s.statuses)

-- Opening the file; its row groups are what `fetch` yields.
open_file : Store → Option String → Result ℕ
open_file s none = err (foreign_error "RuntimeError")
open_file s (some uri) = elim (Dict.get uri s.spool) [
  | some size ↦ ok size
  | none ↦ err (foreign_error "FileNotFoundError")
]

fetch_in : Store → QueryStatus → QueryState → Result ℕ
unfolding open_file
fetch_in s st succeeded = open_file s st.result_uri
fetch_in s st _ = err (foreign_error "RuntimeError")

-- `fetch`, up to the reading of the file.
unfoldable pub fetch : Store → String → Result ℕ
unfolding fetch_in status
fetch s id = fetch_in s (status s id) (status s id).state
