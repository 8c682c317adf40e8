-- ===== src/Pipeline/Tests.antt =====
-- Tests of the run state with one source, and the theorems about it there.
use nexcraft.Base.{◌≡◌, refl, none, some, ◌⊎◌, take}
use nexcraft.Pipeline.RunState.{
  State, Json, Files, fresh, load, lookup, record_table, flush, flush_writes, apply_all, stamped,
}
use nexcraft.Pipeline.RunState.Laws.{RoundTrips, load-interrupted, lookup-load}

-- Texts that are the state itself.
abbrev plain : Json State
plain = record {
  dumps = λ s. s;
  loads = λ s. some (record {
    format_version = some s.format_version;
    sources = some s.sources;
    updated_at = s.updated_at;
  });
}

plain-RoundTrips : RoundTrips plain
plain-RoundTrips = record { loads-dumps = λ s. refl }

abbrev known : State
known = record_table "wh" "hr" "staff" "h1" "ok" 3 fresh

abbrev disk : Files State
disk = record { path = some fresh; tmp = none }

lookup-load_example :
    lookup "wh" "hr" "staff"
      (load plain (flush plain 9 (record_table "wh" "hr" "team" "h2" "ok" 9 known) disk))
    ≡ lookup "wh" "hr" "staff" known
lookup-load_example =
    lookup-load plain "wh" "hr" "team" "h2" "ok" 9 "wh" "hr" "staff" known disk plain-RoundTrips

load-interrupted_example :
    (load plain (apply_all (take 1 (flush_writes plain 9 known)) disk) ≡ load plain disk)
    ⊎ (load plain (apply_all (take 1 (flush_writes plain 9 known)) disk) ≡ stamped 9 known)
load-interrupted_example = load-interrupted plain 9 known disk 1 plain-RoundTrips
