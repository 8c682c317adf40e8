-- ===== src/Spine/Relations.antt =====
-- dao/relations.py: `RelationTypeDAO`, the types of relations and their attachment to edges. The
-- column of surfaces joins them by commas; here it is their list.
pub mod Laws
use nexcraft.Base.{
  ℕ, suc, ◌+◌, ◌-◌, String, ◌<>◌, Bool, true, false, Option, none, some, List, [], ◌∷◌, any, leb,
  ltb, ◌==◌, ◌&&◌, ◌||◌, str_eq, if◌then◌else◌, Result, ok, err, keep, sort_by,
}
use Prim.Native.String.{compare}
use text.Mathlib.Text.{is_le, is_lt}
use nexcraft.Base.Exec
use nexcraft.Base.Exec.{Exec}
use nexcraft.Spine.Table
use nexcraft.Spine.Table.{Table}
use nexcraft.Spine.Models.{LineageEdge, Session, add_audit}
use nexcraft.Spine.Models.Derived.{RelationType}
use nexcraft.Spine.Inferences.{one_or_none, is_edge, or_else, audit}

pub record RelationTypeIn : Type 0 where
  pub predicate : String
  pub domain : String
  pub range_type : String
  pub inverse : Option String
  pub functional : Bool
  pub confidence : Option ℕ
  pub evidence_count : ℕ
  pub surfaces : List String
  pub provenance : String

pub data Outcome : Type 0 where
  inserted updated : Outcome

abbrev is_type : String → String → String → String → RelationType → Bool
is_type org_id predicate domain range_type r =
    str_eq r.org_id org_id
    && str_eq r.predicate predicate
    && str_eq r.domain domain
    && str_eq r.range_type range_type

abbrev pub is_spec : String → RelationTypeIn → RelationType → Bool
is_spec org_id spec = is_type org_id spec.predicate spec.domain spec.range_type

-- `sorted(set(surfaces))`, none when there are none.
distinct : List String → List String
distinct [] = []
distinct (x ∷ xs) = let rest = distinct xs in if any (str_eq x) rest then rest else x ∷ rest

surfaces_of : List String → Option (List String)
unfolding distinct
surfaces_of [] = none
surfaces_of (x ∷ xs) = some (sort_by (λ a b. is_le (compare a b)) (distinct (x ∷ xs)))

-- Surfaces whose text is not empty.
abbrev filled : Option (List String) → Option (List String)
filled (some (x ∷ [])) = if str_eq x "" then none else some (x ∷ [])
filled o = o

abbrev pub max : ℕ → ℕ → ℕ
max a b = if ltb a b then b else a

new_type : String → RelationTypeIn → ℕ → ℕ → RelationType
unfolding surfaces_of
new_type org_id spec pk now = record {
  relation_type_pk = pk;
  org_id = org_id;
  predicate = spec.predicate;
  domain = spec.domain;
  range_type = spec.range_type;
  inverse = spec.inverse;
  functional = spec.functional;
  confidence = spec.confidence;
  evidence_count = spec.evidence_count;
  surfaces = surfaces_of spec.surfaces;
  provenance = spec.provenance;
  updated_at = now;
}

refresh_type : RelationTypeIn → ℕ → RelationType → RelationType
unfolding surfaces_of
refresh_type spec now r = record r {
  inverse = spec.inverse;
  functional = spec.functional;
  confidence = or_else spec.confidence r.confidence;
  evidence_count = max r.evidence_count spec.evidence_count;
  surfaces = or_else (filled (surfaces_of spec.surfaces)) r.surfaces;
  provenance = spec.provenance;
  updated_at = now;
}

abbrev count_outcome : Outcome → ℕ × ℕ → ℕ × ℕ
count_outcome inserted (n, m) = (suc n, m)
count_outcome updated (n, m) = (n, suc m)

-- The identity of an edge and the predicate for it.
pub record Attachment : Type 0 where
  pub from_rk : String
  pub to_rk : String
  pub edge_kind : String
  pub predicate_id : ℕ

abbrev has_predicate : ℕ → Option ℕ → Bool
has_predicate id none = false
has_predicate id (some old) = old == id

abbrev count_attached : ℕ → ℕ × ℕ → ℕ × ℕ
count_attached n (attached, missing) =
    if n == 1 then (suc attached, missing) else (attached, suc missing)

abbrev matches : Option String → RelationType → Bool
matches none r = true
matches (some predicate) r = str_eq r.predicate predicate

-- ORDER BY predicate, evidence_count DESC
abbrev precedes : RelationType → RelationType → Bool
precedes a b =
    is_lt (compare a.predicate b.predicate)
    || (str_eq a.predicate b.predicate && leb b.evidence_count a.evidence_count)

module _ {J : Type 0} (actor : String) where
  put_type : String → RelationTypeIn → ℕ → Option RelationType → Session J → Outcome × Session J
  unfolding new_type refresh_type audit
  put_type org_id spec now none s = (
    inserted,
    audit actor "create" "relation_type"
        ("relation_type:" <> org_id <> ":" <> spec.predicate <> ":" <> spec.domain <> "->"
          <> spec.range_type)
        (record s {
          relation_types = Table.add (new_type org_id spec s.next_pk now) s.relation_types;
          next_pk = suc s.next_pk;
        }),
  )
  put_type org_id spec now (some existing) s = (
    updated,
    record s {
      relation_types = Table.update (is_spec org_id spec) (refresh_type spec now) s.relation_types;
    },
  )

  unfoldable pub upsert_relation_type :
      String → RelationTypeIn → ℕ → Session J → Outcome × Session J
  unfolding put_type
  upsert_relation_type org_id spec now s =
      put_type org_id spec now (Table.find (is_spec org_id spec) s.relation_types) s

  -- The counters, of those inserted and those updated before.
  unfoldable pub upsert_many :
      String → List RelationTypeIn → ℕ → ℕ × ℕ → Session J → (ℕ × ℕ) × Session J
  unfolding upsert_relation_type
  upsert_many org_id [] now counts s = (counts, s)
  upsert_many org_id (spec ∷ specs) now counts s =
      let (outcome, s') = upsert_relation_type org_id spec now s in
      upsert_many org_id specs now (count_outcome outcome counts) s'

module _ {J : Type 0} where
  attach : Attachment → Option LineageEdge → Session J → ℕ × Session J
  attach a none s = (0, s)
  attach a (some edge) s = if has_predicate a.predicate_id edge.predicate_id then (0, s) else (
    1,
    record s {
      lineage =
          Table.update (is_edge a.from_rk a.to_rk a.edge_kind)
            (λ e. record e { predicate_id = some a.predicate_id }) s.lineage;
    },
  )

  unfoldable pub attach_predicate_to_edge : Attachment → Exec (Session J) ℕ
  unfolding attach
  attach_predicate_to_edge a s =
      go (one_or_none (is_edge a.from_rk a.to_rk a.edge_kind) s.lineage.stored)
    where
      go : Result (Option LineageEdge) → Result ℕ × Session J
      go (err e) = (err e, s)
      go (ok edge) = let (n, s') = attach a edge s in (ok n, s')

  unfoldable pub attach_many : List Attachment → ℕ × ℕ → Exec (Session J) (ℕ × ℕ)
  unfolding attach_predicate_to_edge
  attach_many [] counts s = (ok counts, s)
  attach_many (a ∷ items) counts s =
      (Exec.◌>>=◌ (attach_predicate_to_edge a) (λ n. attach_many items (count_attached n counts))) s

  unfoldable pub get_relation_type :
      String → String → String → String → Session J → Option RelationType
  get_relation_type org_id predicate domain range_type s =
      Table.find (is_type org_id predicate domain range_type) s.relation_types

  unfoldable pub list_relation_types : String → Option String → ℕ → Session J → List RelationType
  list_relation_types org_id predicate min_evidence_count s = sort_by precedes (
      keep
        (λ r.
          str_eq r.org_id org_id && matches predicate r && leb min_evidence_count r.evidence_count)
        s.relation_types.stored)
