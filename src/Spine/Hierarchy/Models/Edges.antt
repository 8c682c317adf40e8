-- ===== src/Spine/Hierarchy/Models/Edges.antt =====
-- Queries for an edge where no two edges have the same ends and kind.
use nexcraft.Base.{
  str_eq_comm, ◌≡◌, refl, ◌∙◌, String, Bool, true, false, Option, none, some, List, [], ◌∷◌, any,
  ◌&&◌, str_eq, eq_iff, ok, Bool-cases, inl, inr,
}
use nexcraft.Spine.Table.Unique.{IsUnique, any_pointwise}
use nexcraft.Spine.Models.{LineageEdge}
use nexcraft.Spine.Inferences.{one_or_none, is_edge}

abbrev pub same_edge : LineageEdge → LineageEdge → Bool
same_edge a = is_edge a.from_rk a.to_rk a.edge_kind

pub same_edge_comm : (a b : LineageEdge) → same_edge a b ≡ same_edge b a
same_edge_comm a b =
    rw
      (
        str_eq_comm b.from_rk a.from_rk,
        str_eq_comm b.to_rk a.to_rk,
        str_eq_comm b.edge_kind a.edge_kind,
      )
      refl

-- A query that an edge answers looks for the key of that edge.
pub is_edge-same :
    (from_rk to_rk edge_kind : String) (e : LineageEdge)
    → is_edge from_rk to_rk edge_kind e ≡ true
    → (x : LineageEdge) → is_edge from_rk to_rk edge_kind x ≡ same_edge e x
is_edge-same from_rk to_rk edge_kind e h x =
    let (a, b, c) =
      all_true (str_eq e.from_rk from_rk) (str_eq e.to_rk to_rk) (str_eq e.edge_kind edge_kind) h in
    rw
      (
        (eq_iff e.from_rk from_rk).0 a,
        (eq_iff e.to_rk to_rk).0 b,
        (eq_iff e.edge_kind edge_kind).0 c,
      )
      refl
  where
    all_true : (a b c : Bool) → (a && b && c) ≡ true → (a ≡ true) × (b ≡ true) × (c ≡ true)
    all_true true true true h = (refl, refl, refl)
    all_true true true false h = cc
    all_true true false c h = cc
    all_true false b c h = cc

pub one_or_none_of_unique :
    (from_rk to_rk edge_kind : String) (xs : List LineageEdge)
    → IsUnique same_edge xs
    → (o : Option LineageEdge) × (one_or_none (is_edge from_rk to_rk edge_kind) xs ≡ ok o)
one_or_none_of_unique from_rk to_rk edge_kind [] u = (none, refl)
one_or_none_of_unique from_rk to_rk edge_kind (x ∷ xs) u =
    elim (Bool-cases (is_edge from_rk to_rk edge_kind x)) [
      | inl here ↦ (
        some x,
        rw here (
            rw
              (any_pointwise (is_edge from_rk to_rk edge_kind) (same_edge x) xs
                  (is_edge-same from_rk to_rk edge_kind x here)
                ∙ u.0)
              refl),
      )
      | inr later ↦
          let (o, found) = one_or_none_of_unique from_rk to_rk edge_kind xs u.1 in
          (o, rw later found)
    ]

pub one_or_none-absent :
    (p : LineageEdge → Bool) (xs : List LineageEdge) → one_or_none p xs ≡ ok none → any p xs ≡ false
one_or_none-absent p [] h = refl
one_or_none-absent p (x ∷ xs) h = elim (Bool-cases (p x)) [
  | inl here ↦ elim (Bool-cases (any p xs)) [
    | inl more ↦ cc (rw (here, more) at h)
    | inr alone ↦ cc (rw (here, alone) at h)
  ]
  | inr later ↦ rw later (one_or_none-absent p xs (rw later at h))
]
