-- ===== src/Spine/Cards/Laws.antt =====
-- That a card is written once for its content, and that a card that is no longer used is not listed.
use nexcraft.Base.{
  ℕ, ◌≡◌, refl, ◌∙◌, ap, sym, subst, String, Bool, true, false, Option, none, some, List, [], ◌∷◌,
  str_eq, eq_refl, eq_iff, arith, ok, err, value_error, Bool-cases, Option-cases, inl, inr,
}
use nexcraft.Spine.Table
use nexcraft.Spine.Table.{Table, first, change, first-append, first-append_none}
use nexcraft.Spine.Models.{Session, flush_all}
use nexcraft.Spine.Models.Derived.{Card}
use nexcraft.Spine.Inferences.{audit}
use nexcraft.Spine.Cards.{
  Hashing, compute_content_hash, CardIn, Outcome, unchanged, is_known, is_card, new_card,
  refresh_card, put_card, upsert_card,
}

-- A change of the row that is found.
abbrev on_some : {R : Type 0} → (R → R) → Option R → Option R
on_some f none = none
on_some f (some x) = some (f x)

first-change_found :
    {R : Type 0} (p : R → Bool) (f : R → R) (xs : List R) {e : R}
    → ((r : R) → p (f r) ≡ p r)
    → first p xs ≡ some e
    → first p (change p f xs) ≡ some (f e)
first-change_found p f [] keeps h = cc
first-change_found p f (x ∷ xs) keeps h = elim (Bool-cases (p x)) [
  | inl here ↦ rw here (rw (keeps x ∙ here) (ap (on_some f) (rw here at h)))
  | inr later ↦ rw later (rw later (first-change_found p f xs keeps (rw later at h)))
]

module _ {J : Type 0} (hashing : Hashing J) where
  new_card-is_card :
      (c : CardIn J) (content_hash : String) (pk now : ℕ)
      → is_card c.org_id c.kind c.card_id (new_card c content_hash pk now) ≡ true
  unfolding new_card
  new_card-is_card c content_hash pk now =
      ground (arith, eq_refl c.org_id, eq_refl c.kind, eq_refl c.card_id)

  -- The row of a card after it is written and flushed holds the hash of its content.
  put_card-stored :
      (actor : String) (c : CardIn J) (now : ℕ) (s : Session J)
      → s.cards.added ≡ []
      → let o = Table.find (is_card c.org_id c.kind c.card_id) s.cards in
        (r : Card J) × (Table.find
            (is_card c.org_id c.kind c.card_id)
            (flush_all (put_card actor hashing c now o s).1).cards
          ≡ some r)
        × (r.content_hash ≡ compute_content_hash hashing c.frontmatter c.body)
  unfolding put_card audit flush_all refresh_card
  put_card-stored actor c now s flushed =
      let p = is_card c.org_id c.kind c.card_id in
      let content_hash = compute_content_hash hashing c.frontmatter c.body in
      elim (Option-cases (Table.find p s.cards)) [
        | inl absent ↦
            let new = new_card c content_hash s.next_pk now in
            rw absent (
              rw flushed (
                new,
                first-append_none p s.cards.stored (new ∷ []) absent
                    ∙ rw (new_card-is_card c content_hash s.next_pk now) refl,
                unfold new_card in refl,
              ))
        | inr (existing, found) ↦ elim (Bool-cases (str_eq existing.content_hash content_hash)) [
          | inl same ↦
              rw (found, same)
                (
                  existing,
                  first-append p s.cards.stored s.cards.added found,
                  (eq_iff existing.content_hash content_hash).0 same,
                )
          | inr other ↦
              rw (found, other)
                (
                  refresh_card c content_hash now existing,
                  first-append p _ s.cards.added (
                      first-change_found p (refresh_card c content_hash now) s.cards.stored
                        (λ r. refl) found),
                  refl,
                )
        ]
      ]

  put_card-same :
      (actor : String) (c : CardIn J) (later : ℕ) (t : Session J) (r : Card J)
      → r.content_hash ≡ compute_content_hash hashing c.frontmatter c.body
      → put_card actor hashing c later (some r) t ≡ (unchanged, t)
  unfolding put_card
  put_card-same actor c later t r same =
      rw same (rw (eq_refl (compute_content_hash hashing c.frontmatter c.body)) refl)

  upsert_card_known :
      (actor : String) (c : CardIn J) (now : ℕ) (s : Session J)
      → is_known c.kind ≡ true
      → let put =
          put_card actor hashing c now (Table.find (is_card c.org_id c.kind c.card_id) s.cards) s in
        upsert_card actor hashing c now s ≡ (ok put.0, put.1)
  unfolding upsert_card
  upsert_card_known actor c now s known = rw known refl

  upsert_card_unknown :
      (actor : String) (c : CardIn J) (now : ℕ) (s : Session J)
      → is_known c.kind ≡ false
      → upsert_card actor hashing c now s ≡ (err value_error, s)
  unfolding upsert_card
  upsert_card_unknown actor c now s unknown = rw unknown refl

  -- A write of a card whose row holds the hash of its content.
  upsert_card-same :
      (actor : String) (c : CardIn J) (later : ℕ) (t : Session J) (r : Card J)
      → is_known c.kind ≡ true
      → Table.find (is_card c.org_id c.kind c.card_id) t.cards ≡ some r
      → r.content_hash ≡ compute_content_hash hashing c.frontmatter c.body
      → upsert_card actor hashing c later t ≡ (ok unchanged, t)
  upsert_card-same actor c later t r known found same =
      upsert_card_known actor c later t known
      ∙ ap
          (λ o. (ok (put_card actor hashing c later o t).0, (put_card actor hashing c later o t).1))
          found
      ∙ ap (λ w. (ok w.0, w.1)) (put_card-same actor c later t r same)

  -- After a write of a card and a flush, a write of the same card with equal frontmatter and body,
  -- at any time, by any actor, and whatever its title, aliases and layer: the outcome is unchanged,
  -- and the session is as it was.
  pub upsert_card-again :
      (actor another : String) (c again : CardIn J) (now later : ℕ) (s : Session J)
      {outcome : Outcome}
      → s.cards.added ≡ []
      → (upsert_card actor hashing c now s).0 ≡ ok outcome
      → again.org_id ≡ c.org_id
      → again.kind ≡ c.kind
      → again.card_id ≡ c.card_id
      → again.frontmatter ≡ c.frontmatter
      → again.body ≡ c.body
      → upsert_card another hashing again later (flush_all (upsert_card actor hashing c now s).1)
        ≡ (ok unchanged, flush_all (upsert_card actor hashing c now s).1)
  upsert_card-again actor another c again now later s flushed returned org kind id front body =
      elim (Bool-cases (is_known c.kind)) [
        | inr unknown ↦ cc (rw (upsert_card_unknown actor c now s unknown) at returned)
        | inl known ↦
            let put =
              put_card actor hashing c now (Table.find (is_card c.org_id c.kind c.card_id) s.cards)
                s in
            let (r, found, same) = put_card-stored actor c now s flushed in
            subst
              (λ w.
                upsert_card another hashing again later (flush_all w.1)
                ≡ (ok unchanged, flush_all w.1))
              (sym (upsert_card_known actor c now s known))
              (upsert_card-same another again later (flush_all put.1) r (ap is_known kind ∙ known)
                ((λ i. Table.find (is_card (org i) (kind i) (id i)) (flush_all put.1).cards)
                  ∙ found)
                (same ∙ sym (λ i. compute_content_hash hashing (front i) (body i))))
      ]
