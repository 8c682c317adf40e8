-- ===== src/Spine/Cards.antt =====
-- dao/cards.py: `CardDAO`. `json.dumps` and `sha256` are parameters.
pub mod Reads
pub mod Laws
use nexcraft.Base.{
  ℕ, suc, ◌+◌, String, ◌<>◌, Bool, true, false, Option, none, some, List, [], ◌∷◌, any, not, ◌==◌,
  ◌&&◌, ◌||◌, str_eq, if◌then◌else◌, Result, ok, err, value_error, keep, take, sort_by,
}
use Prim.Native.String.{compare}
use text.Mathlib.Text.{is_le, is_lt}
use nexcraft.Base.Exec.{Exec}
use nexcraft.Spine.Table
use nexcraft.Spine.Table.{Table}
use nexcraft.Spine.Models.{Session}
use nexcraft.Spine.Models.Derived.{Card, CardRef}
use nexcraft.Spine.Inferences.{or_else, audit}

-- KNOWN_CARD_KINDS
abbrev pub known_card_kinds : List String
known_card_kinds =
    "object_type" ∷ "interface" ∷ "causal_node" ∷ "derived_state" ∷ "action" ∷ "metric" ∷ "event"
    ∷ "instruction" ∷ "key_area" ∷ []

-- The arguments of `upsert_card`.
pub record CardIn (J : Type 0) : Type 0 where
  pub org_id : String
  pub kind : String
  pub card_id : String
  pub body : String
  pub frontmatter : Option J
  pub layer : String
  pub title : Option String
  pub aliases : List String
  pub markings : List String
  pub origin : String
  pub source_path : Option String

pub data Outcome : Type 0 where
  inserted updated unchanged : Outcome

abbrev pub is_known : String → Bool
is_known kind = any (str_eq kind) known_card_kinds

abbrev pub card_uid : String → String → String → String
card_uid org_id kind card_id = "card:" <> org_id <> ":" <> kind <> ":" <> card_id

module _ {J : Type 0} where
  abbrev pub is_card : String → String → String → Card J → Bool
  is_card org_id kind card_id c =
      str_eq c.org_id org_id && str_eq c.kind kind && str_eq c.card_id card_id

  new_card : CardIn J → String → ℕ → ℕ → Card J
  new_card c content_hash pk now = record {
    card_pk = pk;
    org_id = c.org_id;
    kind = c.kind;
    card_id = c.card_id;
    layer = c.layer;
    title = c.title;
    body = c.body;
    frontmatter = c.frontmatter;
    aliases = c.aliases;
    markings = c.markings;
    origin = c.origin;
    deprecated = false;
    deprecated_at = none;
    source_path = c.source_path;
    content_hash = content_hash;
    updated_at = now;
  }

  refresh_card : CardIn J → String → ℕ → Card J → Card J
  refresh_card c content_hash now existing = record existing {
    layer = c.layer;
    title = c.title;
    body = c.body;
    frontmatter = c.frontmatter;
    aliases = c.aliases;
    markings = c.markings;
    origin = c.origin;
    source_path = c.source_path;
    content_hash = content_hash;
    updated_at = now;
  }

-- `json.dumps` of the mapping of a front matter and a body, with `{}` for none, and the hex digest of
-- `sha256`.
pub record Hashing (J : Type 0) : Type 0 where
  pub dumps : Option J → String → String
  pub sha256 : String → String

abbrev pub compute_content_hash : {J : Type 0} → Hashing J → Option J → String → String
compute_content_hash hashing frontmatter body = hashing.sha256 (hashing.dumps frontmatter body)

module _ {J : Type 0} (actor : String) (hashing : Hashing J) where
  unfoldable pub put_card : CardIn J → ℕ → Option (Card J) → Session J → Outcome × Session J
  unfolding new_card refresh_card audit
  put_card c now none s = (
    inserted,
    audit actor "create" "card" (card_uid c.org_id c.kind c.card_id) (record s {
      cards =
          Table.add (new_card c (compute_content_hash hashing c.frontmatter c.body) s.next_pk now)
            s.cards;
      next_pk = suc s.next_pk;
    }),
  )
  put_card c now (some existing) s =
      let content_hash = compute_content_hash hashing c.frontmatter c.body in
      if str_eq existing.content_hash content_hash then (unchanged, s) else (
        updated,
        audit actor "update" "card" (card_uid c.org_id c.kind c.card_id) (record s {
          cards =
              Table.update (is_card c.org_id c.kind c.card_id) (refresh_card c content_hash now)
                s.cards;
        }),
      )

  unfoldable pub upsert_card : CardIn J → ℕ → Exec (Session J) Outcome
  unfolding put_card
  upsert_card c now s =
      let (outcome, s') =
        put_card c now (Table.find (is_card c.org_id c.kind c.card_id) s.cards) s in
      if is_known c.kind then (ok outcome, s') else (err value_error, s)

module _ {J : Type 0} where
  abbrev is_ref : CardRef J → CardRef J → Bool
  is_ref new r =
      (r.from_card_pk == new.from_card_pk)
      && str_eq r.to_kind new.to_kind
      && str_eq r.to_card_id new.to_card_id
      && str_eq r.relation new.relation

  -- `differs` compares a new value with the old one, an empty mapping for none.
  put_ref :
      (J → Option J → Bool)
      → CardRef J
      → Option J
      → Option (CardRef J)
      → Session J
      → Outcome × Session J
  put_ref differs new extra none s = (inserted, record s { card_refs = Table.add new s.card_refs })
  put_ref differs new none (some existing) s = (unchanged, s)
  put_ref differs new (some extra) (some existing) s =
      if differs extra existing.extra
      then (
        updated,
        record s {
          card_refs = Table.update (is_ref new) (λ r. record r { extra = some extra }) s.card_refs;
        },
      )
      else (unchanged, s)

  unfoldable pub upsert_card_ref :
      (J → Option J → Bool) → CardRef J → Session J → Outcome × Session J
  unfolding put_ref
  upsert_card_ref differs new s =
      put_ref differs new new.extra (Table.find (is_ref new) s.card_refs) s

  abbrev deprecate : ℕ → Option ℕ → ℕ → Card J → Card J
  deprecate card_pk at_time now c = record c {
    deprecated = true;
    deprecated_at = or_else at_time (some now);
    updated_at = now;
  }

  mark_found : String → ℕ → Option ℕ → ℕ → Option (Card J) → Session J → Bool × Session J
  unfolding audit
  mark_found actor card_pk at_time now none s = (false, s)
  mark_found actor card_pk at_time now (some row) s = (
    true,
    audit actor "update" "card" (card_uid row.org_id row.kind row.card_id) (record s {
      cards = Table.update (λ c. c.card_pk == card_pk) (deprecate card_pk at_time now) s.cards;
    }),
  )

  -- Whether there was a row, for the row that the source returns.
  unfoldable pub mark_deprecated : String → ℕ → Option ℕ → ℕ → Session J → Bool × Session J
  unfolding mark_found
  mark_deprecated actor card_pk at_time now s =
      mark_found actor card_pk at_time now (Table.find (λ c. c.card_pk == card_pk) s.cards) s

  unfoldable pub get_card : String → String → String → Session J → Option (Card J)
  get_card org_id kind card_id s = Table.find (is_card org_id kind card_id) s.cards
