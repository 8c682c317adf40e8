-- ===== src/Spine/Relations/Laws.antt =====
-- What an induction pass leaves of the stored types, and that an attachment is made once.
use nexcraft.Base.{
  ℕ, ◌≤◌, ◌≡◌, refl, ◌∙◌, ap, Bool, Option, none, some, List, [], ◌∷◌, any, arith, Result, ok, err,
  Bool-cases, inl, inr,
}
use nexcraft.Spine.Table
use nexcraft.Spine.Table.{change}
use nexcraft.Spine.Models.{LineageEdge, Session}
use nexcraft.Spine.Models.Derived.{RelationType}
use nexcraft.Spine.Inferences.{one_or_none, is_edge}
use nexcraft.Spine.Relations.{Attachment, has_predicate, attach, attach_predicate_to_edge}

-- A stored type and the type that it has become: the same row, with no less evidence.
abbrev pub Grows : RelationType → RelationType → Type 0
Grows a b =
    (a.relation_type_pk ≡ b.relation_type_pk)
    × (a.org_id ≡ b.org_id)
    × (a.predicate ≡ b.predicate)
    × (a.domain ≡ b.domain)
    × (a.range_type ≡ b.range_type)
    × (a.evidence_count ≤ b.evidence_count)

abbrev pub AllGrow : List RelationType → List RelationType → Type 0
AllGrow [] [] = Unit
AllGrow [] (b ∷ rest) = ⊥
AllGrow (a ∷ rows) [] = ⊥
AllGrow (a ∷ rows) (b ∷ rest) = Grows a b × AllGrow rows rest

abbrev on_found :
    (LineageEdge → LineageEdge) → Result (Option LineageEdge) → Result (Option LineageEdge)
on_found f (ok (some e)) = ok (some (f e))
on_found f (ok none) = ok none
on_found f (err e) = err e

one_or_none-change :
    (p : LineageEdge → Bool) (f : LineageEdge → LineageEdge) (xs : List LineageEdge)
    {e : LineageEdge}
    → ((r : LineageEdge) → p (f r) ≡ p r)
    → one_or_none p xs ≡ ok (some e)
    → one_or_none p (change p f xs) ≡ ok (some (f e))
one_or_none-change p f [] keeps h = cc
one_or_none-change p f (x ∷ xs) keeps h = elim (Bool-cases (p x)) [
  | inl here ↦ elim (Bool-cases (any p xs)) [
    | inl more ↦ cc (rw (here, more) at h)
    | inr alone ↦ rw here (rw (keeps x ∙ here) (rw alone (ap (on_found f) (rw (here, alone) at h))))
  ]
  | inr later ↦ rw later (rw later (one_or_none-change p f xs keeps (rw later at h)))
]

module _ {J : Type 0} where
  -- An attachment that returned, made again, finds its predicate at the edge or no edge: it returns 0
  -- and leaves the session.
  pub attach_predicate_to_edge-again :
      (a : Attachment) (s : Session J) {n : ℕ}
      → (attach_predicate_to_edge a s).0 ≡ ok n
      → attach_predicate_to_edge a (attach_predicate_to_edge a s).1
        ≡ (ok 0, (attach_predicate_to_edge a s).1)
  unfolding attach_predicate_to_edge attach
  attach_predicate_to_edge-again a s returned = again (one_or_none query s.lineage.stored) refl
    where
      query : LineageEdge → Bool
      query = is_edge a.from_rk a.to_rk a.edge_kind

      again :
          (r : Result (Option LineageEdge))
          → one_or_none query s.lineage.stored ≡ r
          → attach_predicate_to_edge a (attach_predicate_to_edge a s).1
            ≡ (ok 0, (attach_predicate_to_edge a s).1)
      again (err e) h = cc (rw h at returned)
      again (ok none) h = rw h (rw h refl)
      again (ok (some edge)) h =
          elim (Bool-cases (has_predicate a.predicate_id edge.predicate_id)) [
            | inl same ↦ rw (h, same) (rw (h, same) refl)
            | inr other ↦
                rw (h, other)
                  (rw
                    (one_or_none-change query (λ e. record e { predicate_id = some a.predicate_id })
                      s.lineage.stored (λ r. refl) h)
                    (ground arith))
          ]
