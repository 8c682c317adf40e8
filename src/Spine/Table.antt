-- ===== src/Spine/Table.antt =====
-- A table as a session of SQLAlchemy sees it when it does not flush by itself, as `Database` of
-- db/engine.py opens it: the rows that a query finds, and the rows that were added and wait for the
-- next flush. A flush never fails here: constraints of the database are not checked. A change of a
-- row that was found counts as flushed: the columns by which the writing operations look rows up are
-- not changed by them, and a list that is read after other columns were changed is read after a
-- flush.
pub mod Unique
use nexcraft.Base.{
  ℕ, zero, suc, ◌+◌, ◌≡◌, refl, ap, Bool, true, false, Option, none, some, List, [], ◌∷◌, ◌++◌,
  arith, if◌then◌else◌, Bool-cases, inl, inr, ◌⊎◌, subst, map, keep, All,
}

pub record Table (R : Type 0) : Type 0 where
  pub stored : List R
  pub added : List R

module _ {R : Type 0} where
  abbrev pub first : (R → Bool) → List R → Option R
  first p [] = none
  first p (r ∷ rs) = let rest = first p rs in if p r then some r else rest

  -- An attribute of the row found is set.
  abbrev pub change : (R → Bool) → (R → R) → List R → List R
  change p f [] = []
  change p f (r ∷ rs) = let rest = change p f rs in if p r then f r ∷ rs else r ∷ rest

  abbrev pub find : (R → Bool) → Table R → Option R
  find p t = first p t.stored

  abbrev pub update : (R → Bool) → (R → R) → Table R → Table R
  update p f t = record t { stored = change p f t.stored }

  abbrev pub add : R → Table R → Table R
  add r t = record t { added = t.added ++ r ∷ [] }

  abbrev pub flush : Table R → Table R
  flush t = record { stored = t.stored ++ t.added; added = [] }

  -- All rows that the session has.
  abbrev pub rows : Table R → List R
  rows t = t.stored ++ t.added

  pub first-append :
      (p : R → Bool) (rs qs : List R) {r : R} → first p rs ≡ some r → first p (rs ++ qs) ≡ some r
  first-append p [] qs h = cc
  first-append p (x ∷ rs) qs h = elim (Bool-cases (p x)) [
    | inl here ↦ rw here (rw here at h)
    | inr later ↦ rw later (first-append p rs qs (rw later at h))
  ]

  pub first-append_none :
      (p : R → Bool) (rs qs : List R) → first p rs ≡ none → first p (rs ++ qs) ≡ first p qs
  first-append_none p [] qs h = refl
  first-append_none p (x ∷ rs) qs h = ground (arith, first-append_none p rs qs)

  -- A change that keeps what the query looks at leaves the row that is found, or changes it.
  pub first-change :
      (q p : R → Bool) (f : R → R) (rs : List R) {e : R}
      → ((r : R) → q (f r) ≡ q r)
      → first q rs ≡ some e
      → (first q (change p f rs) ≡ some e) ⊎ ((p e ≡ true) × (first q (change p f rs) ≡ some (f e)))
  first-change q p f [] keeps h = cc
  first-change q p f (x ∷ rs) {e} keeps h = elim (Bool-cases (q x)) [
    | inl here ↦
        let same : x ≡ e = cc (rw here at h) in
        elim (Bool-cases (p x)) [
          | inl hit ↦ inr (
            subst (λ r. p r ≡ true) same hit,
            rw hit (rw (keeps x, here) (ap (λ r. some (f r)) same)),
          )
          | inr miss ↦ inl (rw miss (rw here (ap some same)))
        ]
    | inr later ↦ elim (Bool-cases (p x)) [
      | inl hit ↦ inl (rw hit (rw (keeps x, later) (rw later at h)))
      | inr miss ↦ rw miss (rw later (first-change q p f rs keeps (rw later at h)))
    ]
  ]

  -- A change that keeps a part of the rows keeps it in all of them.
  pub map-change :
      {A : Type 0} (g : R → A) (p : R → Bool) (f : R → R) (rs : List R)
      → ((r : R) → g (f r) ≡ g r)
      → map g (change p f rs) ≡ map g rs
  map-change g p f [] keeps = refl
  map-change g p f (r ∷ rs) keeps = elim (Bool-cases (p r)) [
    | inl hit ↦ rw hit (ap (λ x. x ∷ map g rs) (keeps r))
    | inr miss ↦ rw miss (ap (λ xs. g r ∷ xs) (map-change g p f rs keeps))
  ]

  pub first-holds : (q : R → Bool) (rs : List R) {e : R} → first q rs ≡ some e → q e ≡ true
  first-holds q [] h = cc
  first-holds q (x ∷ rs) {e} h = elim (Bool-cases (q x)) [
    | inl here ↦ let same : x ≡ e = cc (rw here at h) in subst (λ r. q r ≡ true) same here
    | inr later ↦ first-holds q rs (rw later at h)
  ]

  pub All-change :
      {P : R → Type 0} (p : R → Bool) (f : R → R) (xs : List R)
      → ((r : R) → P r → P (f r))
      → All P xs
      → All P (change p f xs)
  All-change p f [] keeps h = tt
  All-change p f (x ∷ xs) keeps h = elim (Bool-cases (p x)) [
    | inl hit ↦ rw hit (keeps x h.0, h.1)
    | inr miss ↦ rw miss (h.0, All-change p f xs keeps h.1)
  ]

  -- A change of rows that are not kept leaves those that are.
  pub keep-change :
      (q p : R → Bool) (f : R → R) (xs : List R)
      → ((r : R) → p r ≡ true → (q r ≡ false) × (q (f r) ≡ false))
      → keep q (change p f xs) ≡ keep q xs
  keep-change q p f [] left_out = refl
  keep-change q p f (x ∷ xs) left_out = elim (Bool-cases (p x)) [
    | inl hit ↦ rw hit (rw ((left_out x hit).0, (left_out x hit).1) refl)
    | inr miss ↦ rw miss (ap (λ ys. if q x then x ∷ ys else ys) (keep-change q p f xs left_out))
  ]
