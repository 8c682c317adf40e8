-- ===== src/Pipeline/RunState/Laws.antt =====
-- What a later run finds.
use nexcraft.Base.{
  ℕ, zero, suc, ◌≡◌, refl, ◌∙◌, ap, String, Bool, true, false, ◌&&◌, some, [], take, str_eq, eq_iff,
  if◌then◌else◌, ◌⊎◌, inl, inr, Bool-cases,
}
use nexcraft.Base.Dict
use nexcraft.Base.Dict.{Dict, get-set}
use nexcraft.Pipeline.RunState.{
  State, Json, Files, Entry, set_default, load, lookup, record_table, get_dict, hash_of, flush,
  flush_writes, apply_all, stamped,
}

-- JSON gives back what was written.
pub record RoundTrips {T : Type 0} (json : Json T) : Type 0 where
  pub loads-dumps :
      (s : State)
      → json.loads (json.dumps s)
        ≡ some (record {
          format_version = some s.format_version;
          sources = some s.sources;
          updated_at = s.updated_at;
        })

get_dict-set :
    {V : Type 0} (j k : String) (v : Dict V) (d : Dict (Dict V))
    → get_dict j (Dict.set k v d) ≡ (if str_eq k j then v else get_dict j d)
get_dict-set j k v d = ap (λ o. set_default o []) (get-set k j v d) ∙ push (str_eq k j)
  where
    push :
        (b : Bool)
        → set_default (if b then some v else Dict.get j d) [] ≡ (if b then v else get_dict j d)
    push true = refl
    push false = refl

-- A look-up finds the hash that was last recorded for the table, and those of all other tables as
-- they were.
pub lookup-record_table :
    (source_id schema table hash outcome : String) (now : ℕ) (source_id' schema' table' : String)
    (s : State)
    → lookup source_id' schema' table' (record_table source_id schema table hash outcome now s) ≡ (
        if str_eq source_id source_id' && str_eq schema schema' && str_eq table table'
        then some hash
        else lookup source_id' schema' table' s)
unfolding lookup record_table
lookup-record_table source_id schema table hash outcome now source_id' schema' table' s =
    let per_source = get_dict source_id s.sources in
    let per_schema = get_dict schema per_source in
    let entry : Entry = record {
      content_hash_value = hash;
      last_outcome = outcome;
      last_seen_at = now;
    } in
    let per_schema' = Dict.set table entry per_schema in
    ap (λ d. hash_of (Dict.get table' (get_dict schema' d)))
      (get_dict-set source_id' source_id (Dict.set schema per_schema' per_source) s.sources)
    ∙ elim (Bool-cases (str_eq source_id source_id')) [
      | inr other ↦ rw other refl
      | inl same ↦ rw same (
          ap (λ d. hash_of (Dict.get table' d)) (get_dict-set schema' schema per_schema' per_source)
          ∙ elim (Bool-cases (str_eq schema schema')) [
            | inr other ↦ rw other (rw ((eq_iff source_id source_id').0 same) refl)
            | inl same' ↦ rw same' (
                ap hash_of (get-set table table' entry per_schema)
                ∙ elim (Bool-cases (str_eq table table')) [
                  | inl hit ↦ rw hit refl
                  | inr miss ↦ rw miss (
                      rw ((eq_iff source_id source_id').0 same, (eq_iff schema schema').0 same')
                        refl)
                ])
          ])
    ]

-- What a run has recorded and flushed is what the next run loads: the same look-ups, and the same
-- version. JSON is assumed to give back what was written.
pub load-flush :
    {T : Type 0} (json : Json T) (now : ℕ) (s : State) (files : Files T)
    → RoundTrips json
    → load json (flush json now s files) ≡ stamped now s
unfolding load flush
load-flush json now s files json_laws = rw (json_laws.loads-dumps (stamped now s)) refl

-- A flush that is interrupted after any of its writes leaves the state of before or the new one for
-- the next run, and nothing else.
pub load-interrupted :
    {T : Type 0} (json : Json T) (now : ℕ) (s : State) (files : Files T) (n : ℕ)
    → RoundTrips json
    → (load json (apply_all (take n (flush_writes json now s)) files) ≡ load json files)
      ⊎ (load json (apply_all (take n (flush_writes json now s)) files) ≡ stamped now s)
unfolding load
load-interrupted json now s files zero json_laws = inl refl
load-interrupted json now s files (suc zero) json_laws = inl refl
load-interrupted json now s files (suc (suc n)) json_laws = inr (done n)
  where
    done :
        (n : ℕ)
        → load json (apply_all (take (suc (suc n)) (flush_writes json now s)) files) ≡ stamped now s
    done zero = rw (json_laws.loads-dumps (stamped now s)) refl
    done (suc n) = rw (json_laws.loads-dumps (stamped now s)) refl

-- What a run records of a table and flushes, the next run finds: the hash of that table, and those of
-- all other tables as they were. JSON is assumed to give back what was written.
pub lookup-load :
    {T : Type 0} (json : Json T) (source_id schema table hash outcome : String) (now : ℕ)
    (source_id' schema' table' : String) (s : State) (files : Files T)
    → RoundTrips json
    → lookup source_id' schema' table'
        (load json (flush json now (record_table source_id schema table hash outcome now s) files))
      ≡ (if str_eq source_id source_id' && str_eq schema schema' && str_eq table table'
          then some hash
          else lookup source_id' schema' table' s)
unfolding lookup
lookup-load json source_id schema table hash outcome now source_id' schema' table' s files
      json_laws =
    ap (lookup source_id' schema' table')
      (load-flush json now (record_table source_id schema table hash outcome now s) files json_laws)
    ∙ lookup-record_table source_id schema table hash outcome now source_id' schema' table' s
