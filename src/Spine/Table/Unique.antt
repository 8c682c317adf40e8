-- ===== src/Spine/Table/Unique.antt =====
-- Rows of which no two have the same key, as the constraints of the tables want it.
use nexcraft.Base.{
  ◌≡◌, refl, ◌∙◌, ap, Bool, false, none, List, [], ◌∷◌, ◌++◌, any, ◌||◌, arith, Bool-cases, inl,
  inr,
}
use nexcraft.Spine.Table.{first, change}

module _ {R : Type 0} where
  pub any-append_one :
      (p : R → Bool) (xs : List R) (y : R) → any p (xs ++ y ∷ []) ≡ (any p xs || p y)
  any-append_one p [] y = ground arith
  any-append_one p (x ∷ xs) y = let next = any-append_one p xs y in ground (arith, next)

  pub first-none-any : (p : R → Bool) (xs : List R) → first p xs ≡ none → any p xs ≡ false
  first-none-any p [] h = refl
  first-none-any p (x ∷ xs) h = elim (Bool-cases (p x)) [
    | inl here ↦ cc (rw here at h)
    | inr later ↦ rw later (first-none-any p xs (rw later at h))
  ]

  abbrev pub IsUnique : (R → R → Bool) → List R → Type 0
  IsUnique same [] = Unit
  IsUnique same (r ∷ rs) = (any (same r) rs ≡ false) × IsUnique same rs

  pub any_pointwise : (p q : R → Bool) (xs : List R) → ((r : R) → p r ≡ q r) → any p xs ≡ any q xs
  any_pointwise p q [] eq = refl
  any_pointwise p q (x ∷ xs) eq = rw (eq x, any_pointwise p q xs eq) refl

  module _ (same : R → R → Bool) where
    pub append-IsUnique :
        (xs : List R) (y : R)
        → ((a b : R) → same a b ≡ same b a)
        → any (same y) xs ≡ false
        → IsUnique same xs
        → IsUnique same (xs ++ y ∷ [])
    append-IsUnique [] y symmetric fresh u = (refl, tt)
    append-IsUnique (x ∷ xs) y symmetric fresh u = elim (Bool-cases (same y x)) [
      | inl here ↦ cc (rw here at fresh)
      | inr later ↦ (
        any-append_one (same x) xs y ∙ rw (u.0) (symmetric x y ∙ later),
        append-IsUnique xs y symmetric (rw later at fresh) u.1,
      )
    ]

    any-change :
        (p q : R → Bool) (f : R → R) (xs : List R)
        → ((r : R) → q (f r) ≡ q r)
        → any q (change p f xs) ≡ any q xs
    any-change p q f [] keeps = refl
    any-change p q f (x ∷ xs) keeps = elim (Bool-cases (p x)) [
      | inl hit ↦ rw hit (ap (λ b. b || any q xs) (keeps x))
      | inr miss ↦ rw miss (ap (λ b. q x || b) (any-change p q f xs keeps))
    ]

    -- A change that leaves the key keeps the rows unique.
    pub change-IsUnique :
        (p : R → Bool) (f : R → R) (xs : List R)
        → ((a b : R) → same (f a) b ≡ same a b)
        → ((a b : R) → same a (f b) ≡ same a b)
        → IsUnique same xs
        → IsUnique same (change p f xs)
    change-IsUnique p f [] left right u = tt
    change-IsUnique p f (x ∷ xs) left right u = elim (Bool-cases (p x)) [
      | inl hit ↦ rw hit (any_pointwise (same (f x)) (same x) xs (left x) ∙ u.0, u.1)
      | inr miss ↦
          rw miss
            (any-change p (same x) f xs (right x) ∙ u.0, change-IsUnique p f xs left right u.1)
    ]
