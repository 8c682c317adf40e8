-- ===== src/Foundry/Merge/Apart.antt =====
-- Spans that do not overlap, sorted.
use nexcraft.Base.{
  ◌≡◌, refl, ◌∙◌, Bool, false, List, [], ◌∷◌, ◌++◌, any, ◌||◌, arith, Bool-cases, inl, inr,
}
use nexcraft.Foundry.Merge.{EntitySpan, insert, sorted, overlaps, pick}

abbrev pub Apart : List EntitySpan → Type 0
Apart [] = Unit
Apart (x ∷ xs) = (any (overlaps x) xs ≡ false) × Apart xs

any-insert :
    (le : EntitySpan → EntitySpan → Bool) (p : EntitySpan → Bool) (x : EntitySpan)
    (xs : List EntitySpan)
    → any p (insert le x xs) ≡ (p x || any p xs)
unfolding insert
any-insert le p x [] = refl
any-insert le p x (y ∷ ys) = ground (arith, any-insert le p x ys)

pub any-sorted :
    (le : EntitySpan → EntitySpan → Bool) (p : EntitySpan → Bool) (xs : List EntitySpan)
    → any p (sorted le xs) ≡ any p xs
unfolding sorted
any-sorted le p [] = refl
any-sorted le p (x ∷ xs) = ground (arith, any-insert le p x (sorted le xs), any-sorted le p xs)

pub overlaps_comm : (x y : EntitySpan) → overlaps x y ≡ overlaps y x
overlaps_comm x y = ground arith

insert-Apart :
    (le : EntitySpan → EntitySpan → Bool) (x : EntitySpan) (xs : List EntitySpan)
    → any (overlaps x) xs ≡ false
    → Apart xs
    → Apart (insert le x xs)
unfolding insert
insert-Apart le x [] h a = (h, tt)
insert-Apart le x (y ∷ ys) h a = elim (Bool-cases (le x y)) [
  | inl first ↦ rw first (h, a)
  | inr later ↦ rw later (
    ground (arith, any-insert le (overlaps y) x ys, overlaps_comm x y, a.0),
    insert-Apart le x ys (ground arith) a.1,
  )
]

pub sorted-Apart :
    (le : EntitySpan → EntitySpan → Bool) (xs : List EntitySpan) → Apart xs → Apart (sorted le xs)
unfolding sorted
sorted-Apart le [] a = tt
sorted-Apart le (x ∷ xs) a =
    insert-Apart le x (sorted le xs) (any-sorted le (overlaps x) xs ∙ a.0) (sorted-Apart le xs a.1)

pub any-snoc :
    (p : EntitySpan → Bool) (xs : List EntitySpan) (x : EntitySpan)
    → any p (xs ++ x ∷ []) ≡ (any p xs || p x)
any-snoc p [] x = ground arith
any-snoc p (y ∷ ys) x = ground (arith, any-snoc p ys x)

pub snoc-Apart :
    (xs : List EntitySpan) (x : EntitySpan)
    → any (overlaps x) xs ≡ false
    → Apart xs
    → Apart (xs ++ x ∷ [])
snoc-Apart [] x h a = (refl, tt)
snoc-Apart (y ∷ ys) x h a = (
  ground (arith, any-snoc (overlaps y) ys x, overlaps_comm x y, a.0),
  snoc-Apart ys x (ground arith) a.1,
)

pub pick-Apart : (kept spans : List EntitySpan) → Apart kept → Apart (pick kept spans)
unfolding pick
pick-Apart kept [] a = a
pick-Apart kept (span ∷ spans) a = elim (Bool-cases (any (overlaps span) kept)) [
  | inl taken ↦ rw taken (pick-Apart kept spans a)
  | inr free ↦ rw free (pick-Apart (kept ++ span ∷ []) spans (snoc-Apart kept span free a))
]
