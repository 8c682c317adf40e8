-- ===== src/Spine/Inferences.antt =====
-- dao/inferences.py: `InferenceDAO`, what the pipeline inferred. The items of a batch are given with
-- their keys read.
pub mod Candidates
pub mod Hints
use nexcraft.Base.{
  ℕ, suc, ◌+◌, String, ◌<>◌, Bool, true, false, Option, none, some, List, [], ◌∷◌, any, leb, ◌==◌,
  ◌&&◌, ◌||◌, str_eq, if◌then◌else◌, Result, ok, err, value_error, foreign_error, take, keep,
  sort_by,
}
use text.Mathlib.Text.{starts_with}
use nexcraft.Base.Exec
use nexcraft.Base.Exec.{Exec}
use nexcraft.Spine.Table
use nexcraft.Spine.Table.{Table}
use nexcraft.Spine.Models.{LineageEdge, HierarchyAudit, Session, add_audit}
use nexcraft.Spine.Models.Derived.{CausalCandidate, DataProtectionHint}

-- `scalar_one_or_none()` of a query whose columns are no key.
abbrev pub one_or_none : {R : Type 0} → (R → Bool) → List R → Result (Option R)
one_or_none p [] = ok none
one_or_none p (r ∷ rs) =
    let rest = one_or_none p rs in
    if p r
    then (if any p rs then err (foreign_error "MultipleResultsFound") else ok (some r))
    else rest

-- `x or y` for texts and for lists.
abbrev pub or_text : String → Option String → Option String
or_text x y = if str_eq x "" then y else some x

abbrev pub or_list : List String → List String → List String
or_list [] ys = ys
or_list (x ∷ xs) ys = x ∷ xs

abbrev pub or_else : {A : Type 0} → Option A → Option A → Option A
or_else none y = y
or_else (some x) y = some x

abbrev pub text_of : Option String → String
text_of none = ""
text_of (some x) = x

-- `x or y` for texts that may be None.
abbrev pub or_given : Option String → Option String → Option String
or_given x y = or_text (text_of x) y

abbrev pub is_edge : String → String → String → LineageEdge → Bool
is_edge from_rk to_rk edge_kind e =
    str_eq e.from_rk from_rk && str_eq e.to_rk to_rk && str_eq e.edge_kind edge_kind

-- The fields of an edge that was found.
abbrev pub refresh_edge : Option ℕ → Option String → LineageEdge → LineageEdge
refresh_edge confidence evidence_ref e = record e {
  confidence = or_else confidence e.confidence;
  active = true;
  evidence_ref = or_given evidence_ref e.evidence_ref;
}

inferred_edge : String → String → Option ℕ → Option String → String → LineageEdge
inferred_edge from_rk to_rk confidence evidence_ref edge_kind = record {
  from_rk = from_rk;
  from_kind = "table";
  to_rk = to_rk;
  to_kind = "table";
  edge_kind = edge_kind;
  evidence_kind = "inferred_relationship";
  evidence_ref = evidence_ref;
  confidence = confidence;
  predicate_id = none;
  active = true;
}

module _ {J : Type 0} (actor : String) where
  unfoldable pub audit : String → String → String → Session J → Session J
  audit action tier entity_uid s =
      add_audit
        (record {
          actor = actor;
          action = action;
          tier = tier;
          entity_uid = entity_uid;
          field_path = none;
        })
        s

  after_edge :
      String
      → String
      → Option ℕ
      → Option String
      → String
      → Option LineageEdge
      → Session J
      → ℕ × Session J
  unfolding audit inferred_edge
  after_edge from_rk to_rk confidence evidence_ref edge_kind none s = (
    1,
    audit "create" "lineage_inferred" (from_rk <> "->" <> to_rk) (record s {
      lineage = Table.add (inferred_edge from_rk to_rk confidence evidence_ref edge_kind) s.lineage;
    }),
  )
  after_edge from_rk to_rk confidence evidence_ref edge_kind (some existing) s = (
    0,
    record s {
      lineage =
          Table.update (is_edge from_rk to_rk edge_kind) (refresh_edge confidence evidence_ref)
            s.lineage;
    },
  )

  unfoldable pub upsert_inferred_relationship :
      String → String → Option ℕ → Option String → String → String → Exec (Session J) ℕ
  unfolding after_edge
  upsert_inferred_relationship from_rk to_rk confidence reason cardinality_hint edge_kind s =
      go (one_or_none (is_edge from_rk to_rk edge_kind) s.lineage.stored)
    where
      go : Result (Option LineageEdge) → Result ℕ × Session J
      go (err e) = (err e, s)
      go (ok existing) =
          let (n, s') =
            after_edge from_rk to_rk confidence (or_given reason (or_text cardinality_hint none))
              edge_kind existing s in
          (ok n, s')

-- An item of `upsert_inferred_relationships`; a key that is missing is none.
pub record RelationshipItem : Type 0 where
  pub from_rk : Option String
  pub to_rk : Option String
  pub confidence : Option ℕ
  pub reason : Option String
  pub rationale : Option String
  pub cardinality_hint : Option String

count_edge : ℕ → ℕ × ℕ → ℕ × ℕ
count_edge n (inserted, updated) =
    if n == 1 then (suc inserted, updated) else (inserted, suc updated)

module _ {J : Type 0} (actor : String) where
  -- The counts are of the items before.
  unfoldable pub upsert_inferred_relationships :
      List RelationshipItem → ℕ × ℕ → Exec (Session J) (ℕ × ℕ)
  unfolding upsert_inferred_relationship count_edge
  upsert_inferred_relationships [] counts s = (ok counts, s)
  upsert_inferred_relationships (item ∷ items) counts s =
      if str_eq (text_of item.from_rk) "" || str_eq (text_of item.to_rk) ""
      then upsert_inferred_relationships items counts s
      else (Exec.◌>>=◌
            (upsert_inferred_relationship actor (text_of item.from_rk) (text_of item.to_rk)
              item.confidence (or_given item.reason item.rationale) (text_of item.cardinality_hint)
              "depends_on")
            (λ n. upsert_inferred_relationships items (count_edge n counts)))
          s
