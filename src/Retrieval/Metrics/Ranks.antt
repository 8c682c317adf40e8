-- ===== src/Retrieval/Metrics/Ranks.antt =====
-- What the reciprocal rank and the hit rate say of the order.
use nexcraft.Base.{
  ℕ, zero, suc, ◌+◌, ◌≡◌, refl, ◌∙◌, ap, String, Option, none, some, List, [], ◌∷◌, arith, take,
  Bool-cases, ◌⊎◌, inl, inr,
}
use nexcraft.Retrieval.Metrics.{among, set_of, hits, first_rank, reciprocal, mean_reciprocal_rank}

-- A rank is the first at which there is a relevant item: the items before it hold none, and with it
-- there is one. Without a rank there is none at all.
abbrev pub IsFirstRank : List String → List String → Option ℕ → Type 0
IsFirstRank rel xs none = hits rel xs ≡ 0
IsFirstRank rel xs (some zero) = ⊥
IsFirstRank rel xs (some (suc n)) = (hits rel (take n xs) ≡ 0) × (hits rel (take (suc n) xs) ≡ 1)

first_rank_from :
    (rel : List String) (start : ℕ) (xs : List String)
    → ((first_rank rel start xs ≡ none) × (hits rel xs ≡ 0))
      ⊎ ((n : ℕ) × (first_rank rel start xs ≡ some (n + start))
          × (hits rel (take n xs) ≡ 0)
          × (hits rel (take (suc n) xs) ≡ 1))
first_rank_from rel start [] = inl (refl, refl)
first_rank_from rel start (x ∷ xs) = elim (Bool-cases (among rel x)) [
  | inl here ↦ inr (0, rw here (ap some (omega arith)), refl, rw here refl)
  | inr later ↦ elim (first_rank_from rel (suc start) xs) [
    | inl (none_found, no_hits) ↦ inl (rw later none_found, rw later no_hits)
    | inr (n, found, before, here) ↦
        inr (suc n, rw later (found ∙ ap some (omega arith)), rw later before, rw later here)
  ]
]

-- The reciprocal rank is 1 over the first rank at which an item is relevant, and 0 if none is.
pub mean_reciprocal_rank-IsFirstRank :
    (retrieved relevant : List String)
    → (rank : Option ℕ) × (mean_reciprocal_rank retrieved relevant ≡ reciprocal rank)
      × IsFirstRank (set_of relevant) retrieved rank
unfolding mean_reciprocal_rank
mean_reciprocal_rank-IsFirstRank retrieved relevant =
    elim (first_rank_from (set_of relevant) 1 retrieved) [
      | inl (none_found, no_hits) ↦ (none, rw none_found refl, no_hits)
      | inr (n, found, before, here) ↦
          (some (suc n), rw found (ap (λ i. reciprocal (some i)) (omega arith)), (before, here))
    ]
