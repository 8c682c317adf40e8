-- ===== src/Spine/Cards/Reads.antt =====
-- dao/cards.py: what `CardDAO` reads, and the excerpts of the cards. The operations of a text are a
-- parameter.
use nexcraft.Base.{
  ℕ, String, ◌<>◌, Bool, true, Option, none, some, List, not, ltb, leb, ◌==◌, ◌&&◌, ◌||◌, str_eq,
  if◌then◌else◌, Result, ok, err, value_error, ◌>>=◌, keep, take, map, sort_by,
}
use Prim.Native.String.{compare}
use text.Mathlib.Text.{is_le, is_lt}
use nexcraft.Spine.Models.{Session}
use nexcraft.Spine.Models.Derived.{Card, CardRef}
use nexcraft.Spine.Cards.{is_known}

-- What a prompt reads of a card.
pub record CardSummary : Type 0 where
  pub card_id : String
  pub kind : String
  pub title : Option String
  pub body_excerpt : String

-- The operations of texts that `_excerpt` uses: `strip`, `len`, `body[:n]` and `rfind(" ")`, which
-- is none for -1.
pub record Texts : Type 0 where
  pub strip : String → String
  pub len : String → ℕ
  pub slice_to : String → ℕ → String
  pub last_space : String → Option ℕ

abbrev pub cut_at : Texts → String → Option ℕ → String
cut_at texts cut none = cut
cut_at texts cut (some last_space) =
    if ltb 100 last_space then texts.slice_to cut last_space else cut

unfoldable pub excerpt : Texts → String → ℕ → String
excerpt texts body max_chars =
    let stripped = texts.strip body in
    let cut = texts.slice_to stripped max_chars in
    if leb (texts.len stripped) max_chars
    then stripped
    else cut_at texts cut (texts.last_space cut) <> "…"

abbrev wanted : Option String → String → Bool
wanted none x = true
wanted (some y) x = str_eq x y

abbrev is_listable : Option String → Bool
is_listable none = true
is_listable (some kind) = is_known kind

abbrev limited : {A : Type 0} → Option ℕ → List A → List A
limited none xs = xs
limited (some n) xs = take n xs

module _ {J : Type 0} where
  -- ORDER BY kind, card_id
  abbrev card_le : Card J → Card J → Bool
  card_le a b =
      is_lt (compare a.kind b.kind) || (str_eq a.kind b.kind && is_le (compare a.card_id b.card_id))

  unfoldable pub list_cards :
      String → Option String → Bool → Option String → Option ℕ → Session J → Result (List (Card J))
  list_cards org_id kind include_deprecated origin limit s =
      let found = limited limit (
        sort_by card_le (
          keep
            (λ c.
              str_eq c.org_id org_id
              && wanted kind c.kind
              && (include_deprecated || not c.deprecated)
              && wanted origin c.origin)
            s.cards.stored)) in
      if is_listable kind then ok found else err value_error

  abbrev summary : Texts → ℕ → Card J → CardSummary
  summary texts excerpt_chars c = record {
    card_id = c.card_id;
    kind = c.kind;
    title = c.title;
    body_excerpt = excerpt texts c.body excerpt_chars;
  }

  unfoldable pub list_summaries :
      Texts → String → String → Bool → ℕ → Session J → Result (List CardSummary)
  unfolding list_cards
  list_summaries texts org_id kind include_deprecated excerpt_chars s =
      list_cards org_id (some kind) include_deprecated none none s >>= λ rows.
      ok (map (summary texts excerpt_chars) rows)

  -- ORDER BY relation, to_card_id
  abbrev ref_le : CardRef J → CardRef J → Bool
  ref_le a b =
      is_lt (compare a.relation b.relation)
      || (str_eq a.relation b.relation && is_le (compare a.to_card_id b.to_card_id))

  unfoldable pub list_refs_from : ℕ → Session J → List (CardRef J)
  list_refs_from card_pk s =
      sort_by ref_le (keep (λ r. r.from_card_pk == card_pk) s.card_refs.stored)
