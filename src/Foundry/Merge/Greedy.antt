-- ===== src/Foundry/Merge/Greedy.antt =====
-- What the merge keeps.
use nexcraft.Base.{
  ◌≤◌, ◌≡◌, refl, ◌∙◌, sym, Bool, true, false, List, [], ◌∷◌, ◌++◌, any, not, ◌&&◌, ◌||◌, leb,
  arith, Bool-cases, inl, inr, All,
}
use nexcraft.Foundry.Merge.{
  EntitySpan, score, leads, insert, sorted, overlaps, pick, by_start, merge_entity_spans,
}
use nexcraft.Foundry.Merge.Apart.{Apart, any-sorted, sorted-Apart, any-snoc, pick-Apart}

-- No span of the list scores more than `x`.
abbrev Tops : EntitySpan → List EntitySpan → Type 0
Tops x xs = All (λ y. score y ≤ score x) xs

abbrev Ranked : List EntitySpan → Type 0
Ranked [] = Unit
Ranked (x ∷ xs) = Tops x xs × Ranked xs

Tops-weaken : (x z : EntitySpan) (xs : List EntitySpan) → score x ≤ score z → Tops x xs → Tops z xs
Tops-weaken x z [] h t = tt
Tops-weaken x z (y ∷ ys) h t = (omega (arith, t.0), Tops-weaken x z ys h t.1)

leads_lem : (x y : EntitySpan) → leads x y ≡ true → score y ≤ score x
unfolding leads
leads_lem x y h = ground arith

not_leads_lem : (x y : EntitySpan) → leads x y ≡ false → score x ≤ score y
unfolding leads
not_leads_lem x y h = ground arith

insert-Tops :
    (z x : EntitySpan) (xs : List EntitySpan)
    → score x ≤ score z
    → Tops z xs
    → Tops z (insert leads x xs)
unfolding insert
insert-Tops z x [] h t = (h, tt)
insert-Tops z x (y ∷ ys) h t = elim (Bool-cases (leads x y)) [
  | inl first ↦ rw first (h, t)
  | inr later ↦ rw later (t.0, insert-Tops z x ys h t.1)
]

insert-Ranked : (x : EntitySpan) (xs : List EntitySpan) → Ranked xs → Ranked (insert leads x xs)
unfolding insert
insert-Ranked x [] r = (tt, tt)
insert-Ranked x (y ∷ ys) r = elim (Bool-cases (leads x y)) [
  | inl first ↦ let h = leads_lem x y first in rw first ((h, Tops-weaken y x ys h r.0), r)
  | inr later ↦ rw later (insert-Tops y x ys (not_leads_lem x y later) r.0, insert-Ranked x ys r.1)
]

sorted-Ranked : (xs : List EntitySpan) → Ranked (sorted leads xs)
unfolding sorted
sorted-Ranked [] = tt
sorted-Ranked (x ∷ xs) = insert-Ranked x (sorted leads xs) (sorted-Ranked xs)

any-pick :
    (p : EntitySpan → Bool) (kept spans : List EntitySpan)
    → any p kept ≡ true
    → any p (pick kept spans) ≡ true
unfolding pick
any-pick p kept [] h = h
any-pick p kept (span ∷ spans) h = elim (Bool-cases (any (overlaps span) kept)) [
  | inl taken ↦ rw taken (any-pick p kept spans h)
  | inr free ↦ rw free (any-pick p (kept ++ span ∷ []) spans (any-snoc p kept span ∙ rw h refl))
]

-- A kept span that overlaps and scores at least as much.
abbrev pub beaten_by : EntitySpan → EntitySpan → Bool
beaten_by s k = leb (score s) (score k) && overlaps s k

any-beaten_by :
    (s : EntitySpan) (kept : List EntitySpan)
    → All (λ k. score s ≤ score k) kept
    → any (overlaps s) kept ≡ true
    → any (beaten_by s) kept ≡ true
any-beaten_by s [] t h = h
any-beaten_by s (k ∷ kept) t h = ground (arith, t.0, any-beaten_by s kept t.1)

-- What is kept scores at least as much as what is to come.
abbrev Above : List EntitySpan → List EntitySpan → Type 0
Above kept spans = All (λ k. Tops k spans) kept

Above-tail :
    (kept : List EntitySpan) (s : EntitySpan) (spans : List EntitySpan)
    → Above kept (s ∷ spans)
    → Above kept spans
Above-tail [] s spans h = tt
Above-tail (k ∷ kept) s spans h = (h.0.1, Above-tail kept s spans h.1)

Above-head :
    (kept : List EntitySpan) (s : EntitySpan) (spans : List EntitySpan)
    → Above kept (s ∷ spans)
    → All (λ k. score s ≤ score k) kept
Above-head [] s spans h = tt
Above-head (k ∷ kept) s spans h = (h.0.0, Above-head kept s spans h.1)

Above-snoc :
    (kept : List EntitySpan) (s : EntitySpan) (spans : List EntitySpan)
    → Above kept spans
    → Tops s spans
    → Above (kept ++ s ∷ []) spans
Above-snoc [] s spans h t = (t, tt)
Above-snoc (k ∷ kept) s spans h t = (h.0, Above-snoc kept s spans h.1 t)

-- Every span is empty or beaten by one that is picked; `beaten` says which are.
pick-beaten :
    (beaten : EntitySpan → Bool) (kept spans : List EntitySpan)
    → ((s : EntitySpan) → any (beaten_by s) (pick kept spans) ≡ true → beaten s ≡ true)
    → Above kept spans
    → Ranked spans
    → any (λ s. not (leb s.char_end s.char_start || beaten s)) spans ≡ false
unfolding pick
pick-beaten beaten kept [] e a r = refl
pick-beaten beaten kept (s ∷ spans) e a r = elim (Bool-cases (any (overlaps s) kept)) [
  | inl taken ↦
      let e' : (x : EntitySpan) → any (beaten_by x) (pick kept spans) ≡ true → beaten x ≡ true =
        rw taken at e in
      let here = e' s (
        any-pick (beaten_by s) kept spans
          (any-beaten_by s kept (Above-head kept s spans a) taken)) in
      ground (arith, here, pick-beaten beaten kept spans e' (Above-tail kept s spans a) r.1)
  | inr free ↦
      let more = kept ++ s ∷ [] in
      let e' : (x : EntitySpan) → any (beaten_by x) (pick more spans) ≡ true → beaten x ≡ true =
        rw free at e in
      let rest =
        pick-beaten beaten more spans e' (Above-snoc kept s spans (Above-tail kept s spans a) r.0)
          r.1 in
      elim (Bool-cases (leb s.char_end s.char_start)) [
        | inl empty ↦ rw empty rest
        | inr some_text ↦
            let here =
              e' s (
                any-pick (beaten_by s) more spans (any-snoc (beaten_by s) kept s ∙ ground arith)) in
            ground (arith, here, rest)
      ]
]

-- No two spans of the result overlap, and each span of the input that is not empty overlaps one of
-- the result, maybe itself, that scores at least as much.
pub merge_entity_spans-Apart :
    (spans : List EntitySpan)
    → Apart (merge_entity_spans spans)
      × (any
            (λ s. not (leb s.char_end s.char_start || any (beaten_by s) (merge_entity_spans spans)))
            spans
          ≡ false)
unfolding merge_entity_spans
merge_entity_spans-Apart spans =
    let ordered = sorted leads spans in
    let kept = pick [] ordered in
    (
      sorted-Apart by_start kept (pick-Apart [] ordered tt),
      sym (
            any-sorted leads
              (λ s. not (leb s.char_end s.char_start || any (beaten_by s) (sorted by_start kept)))
              spans)
          ∙ pick-beaten (λ s. any (beaten_by s) (sorted by_start kept)) [] ordered
              (λ s h. any-sorted by_start (beaten_by s) kept ∙ h) tt (sorted-Ranked spans),
    )
