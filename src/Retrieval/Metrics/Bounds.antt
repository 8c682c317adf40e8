-- ===== src/Retrieval/Metrics/Bounds.antt =====
-- That the fractions are at most one.
use nexcraft.Base.{
  ℕ, zero, suc, ◌+◌, ◌≤◌, ◌≡◌, refl, String, false, List, [], ◌∷◌, ◌||◌, str_eq, eq_iff, eq_refl,
  leb, arith, length, take, count, count-le-length, length-take-le, Bool-cases, inl, inr,
}
use nexcraft.Retrieval.Metrics.{Score, among, set_of, is_empty, hits, precision_at_k, recall_at_k}

-- No item stands twice.
abbrev pub IsDistinct : List String → Type 0
IsDistinct [] = Unit
IsDistinct (x ∷ xs) = (among xs x ≡ false) × IsDistinct xs

abbrev pub IsFraction : Score → Type 0
IsFraction score = score.num ≤ score.den

among-take :
    (k : ℕ) (xs : List String) (x : String) → among xs x ≡ false → among (take k xs) x ≡ false
among-take zero xs x h = refl
among-take (suc k) [] x h = refl
among-take (suc k) (y ∷ xs) x h = elim (Bool-cases (str_eq x y)) [
  | inl same ↦ cc (rw same at h)
  | inr other ↦ rw other (among-take k xs x (rw other at h))
]

take-IsDistinct : (k : ℕ) (xs : List String) → IsDistinct xs → IsDistinct (take k xs)
take-IsDistinct zero xs d = tt
take-IsDistinct (suc k) [] d = tt
take-IsDistinct (suc k) (x ∷ xs) d = (among-take k xs x d.0, take-IsDistinct k xs d.1)

count-none : (x : String) (xs : List String) → among xs x ≡ false → count (λ y. str_eq y x) xs ≡ 0
count-none x [] h = refl
count-none x (y ∷ xs) h = elim (Bool-cases (str_eq x y)) [
  | inl same ↦ cc (rw same at h)
  | inr other ↦ elim (Bool-cases (str_eq y x)) [
    | inl back ↦ cc (rw ((eq_iff y x).0 back, eq_refl x) at other)
    | inr apart ↦ rw apart (count-none x xs (rw other at h))
  ]
]

count_once : (x : String) (xs : List String) → IsDistinct xs → count (λ y. str_eq y x) xs ≤ 1
count_once x [] d = omega arith
count_once x (y ∷ xs) d = elim (Bool-cases (str_eq y x)) [
  | inl same ↦
      let absent = count-none x xs (rw ((eq_iff y x).0 same) at d.0) in
      rw same (omega (arith, absent))
  | inr other ↦ rw other (count_once x xs d.1)
]

hits-cons :
    (x : String) (rel xs : List String)
    → hits (x ∷ rel) xs ≤ count (λ y. str_eq y x) xs + hits rel xs
hits-cons x rel [] = omega arith
hits-cons x rel (y ∷ xs) =
    let rest = hits-cons x rel xs in
    elim (Bool-cases (str_eq y x)) [
      | inl same ↦ elim (Bool-cases (among rel y)) [
        | inl too ↦ rw (same, too) (omega (arith, rest))
        | inr only ↦ rw (same, only) (omega (arith, rest))
      ]
      | inr other ↦ elim (Bool-cases (among rel y)) [
        | inl too ↦ rw (other, too) (omega (arith, rest))
        | inr none ↦ rw (other, none) (omega (arith, rest))
      ]
    ]

hits_none : (xs : List String) → hits [] xs ≡ 0
hits_none [] = refl
hits_none (x ∷ xs) = hits_none xs

pub hits-le : (rel xs : List String) → IsDistinct xs → hits rel xs ≤ length rel
hits-le [] xs d = let empty = hits_none xs in omega (arith, empty)
hits-le (x ∷ rel) xs d =
    let split = hits-cons x rel xs in
    let once = count_once x xs d in let rest = hits-le rel xs d in omega (arith, split, once, rest)

-- The precision is at most one, whatever is retrieved.
pub precision_at_k-IsFraction :
    (retrieved relevant : List String) (k : ℕ) → IsFraction (precision_at_k retrieved relevant k)
unfolding precision_at_k
precision_at_k-IsFraction [] relevant k = omega arith
precision_at_k-IsFraction (r ∷ retrieved) relevant zero = omega arith
precision_at_k-IsFraction (r ∷ retrieved) relevant (suc k) =
    let some_of = count-le-length (among (set_of relevant)) (take (suc k) (r ∷ retrieved)) in
    let short = length-take-le (suc k) (r ∷ retrieved) in le_trans some_of short
  where
    le_trans : {a b c : ℕ} → a ≤ b → b ≤ c → a ≤ c
    le_trans ab bc = omega (arith, ab, bc)

-- The recall is at most one when no item is retrieved twice.
pub recall_at_k-IsFraction :
    (retrieved relevant : List String) (k : ℕ)
    → IsDistinct retrieved
    → IsFraction (recall_at_k retrieved relevant k)
unfolding recall_at_k
recall_at_k-IsFraction retrieved relevant k d = elim (Bool-cases (is_empty (set_of relevant))) [
  | inl empty ↦ rw empty (omega arith)
  | inr given ↦ elim (Bool-cases (leb k 0 || is_empty retrieved)) [
    | inl early ↦ rw (given, early) (omega arith)
    | inr late ↦
        rw (given, late)
          (hits-le (set_of relevant) (take k retrieved) (take-IsDistinct k retrieved d))
  ]
]
