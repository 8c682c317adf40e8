-- ===== src/Spine/Hierarchy/Documents/Clusters.antt =====
-- The unique constraint on `source.cluster_rk` of db/models.py, under `upsert_mdl_document`.
use nexcraft.Base.{
  ℕ, ◌≡◌, refl, ◌∙◌, ap, sym, subst, String, Bool, false, Option, none, some, List, [], ◌∷◌, ◌++◌,
  append-nil, any, str_eq, eq_iff, arith, Bool-cases, Option-cases, inl, inr, ◌⊎◌,
}
use nexcraft.Base.Dict.{Dict}
use nexcraft.Spine.Table
use nexcraft.Spine.Table.{Table, change, flush}
use nexcraft.Spine.Table.Unique.{IsUnique}
use nexcraft.Spine.Models.{Session, Source, LineageEdge, flush_all, enqueue_task}
use nexcraft.Spine.Hierarchy.{is_source}
use nexcraft.Spine.Hierarchy.Places.{cluster_rk_of}
use nexcraft.Spine.Hierarchy.Rows.{Texts, text_or}
use nexcraft.Spine.Hierarchy.Models.{upsert_table_ext, put_edge}
use nexcraft.Spine.Hierarchy.Invariants.{IsWritable, upsert_mdl_document-keeps}
use nexcraft.Spine.Hierarchy.Documents.{MdlDocument, link_source, upsert_mdl_document}

abbrev same_rk : Option String → Option String → Bool
same_rk (some a) (some b) = str_eq a b
same_rk _ _ = false

same_rk_comm : (a b : Option String) → same_rk a b ≡ same_rk b a
same_rk_comm (some a) (some b) = ground (arith, eq_iff a b, eq_iff b a)
same_rk_comm none none = refl
same_rk_comm none (some b) = refl
same_rk_comm (some a) none = refl

module _ {J : Type 0} where
  abbrev pub has_cluster : String → Source J → Bool
  has_cluster rk x = same_rk (some rk) x.cluster_rk

  -- NULL clashes with nothing.
  abbrev pub same_cluster : Source J → Source J → Bool
  same_cluster x y = same_rk x.cluster_rk y.cluster_rk

  -- The sources are stored, and no two have one cluster.
  abbrev pub AreApart : Table (Source J) → Type 0
  AreApart t = (t.added ≡ []) × IsUnique same_cluster t.stored

  abbrev set_cluster : String → Source J → Source J
  set_cluster rk x = record x { cluster_rk = some rk }

  any-change_cluster :
      (p : Source J → Bool) (rk : String) (o : Option String) (xs : List (Source J))
      → same_rk o (some rk) ≡ false
      → any (λ y. same_rk o y.cluster_rk) xs ≡ false
      → any (λ y. same_rk o y.cluster_rk) (change p (set_cluster rk) xs) ≡ false
  any-change_cluster p rk o [] apart h = refl
  any-change_cluster p rk o (x ∷ xs) apart h = elim (Bool-cases (p x)) [
    | inl hit ↦ rw hit (ground (arith, h, apart))
    | inr miss ↦ rw miss (let rest = any-change_cluster p rk o xs apart in ground (arith, h, rest))
  ]

  -- A cluster that no source has is given to one.
  change-IsUnique_fresh :
      (p : Source J → Bool) (rk : String) (xs : List (Source J))
      → any (has_cluster rk) xs ≡ false
      → IsUnique same_cluster xs
      → IsUnique same_cluster (change p (set_cluster rk) xs)
  change-IsUnique_fresh p rk [] fresh u = tt
  change-IsUnique_fresh p rk (x ∷ xs) fresh u = elim (Bool-cases (has_cluster rk x)) [
    | inl here ↦ cc (rw here at fresh)
    | inr apart ↦ elim (Bool-cases (p x)) [
      | inl hit ↦ rw hit (rw apart at fresh, u.1)
      | inr miss ↦ rw miss (
        any-change_cluster p rk x.cluster_rk xs (same_rk_comm x.cluster_rk (some rk) ∙ apart) u.0,
        change-IsUnique_fresh p rk xs (rw apart at fresh) u.1,
      )
    ]
  ]

  change_again :
      (sid rk : String) (xs : List (Source J))
      → change (is_source sid) (set_cluster rk) (change (is_source sid) (set_cluster rk) xs)
        ≡ change (is_source sid) (set_cluster rk) xs
  change_again sid rk [] = refl
  change_again sid rk (x ∷ xs) = elim (Bool-cases (is_source sid x)) [
    | inl hit ↦ rw hit (rw hit refl)
    | inr miss ↦ rw miss (rw miss (ap (λ l. x ∷ l) (change_again sid rk xs)))
  ]

  -- What `link_source` makes of the sources.
  abbrev linked_sources : Source J → String → Table (Source J) → Table (Source J)
  linked_sources source rk t = Table.update (is_source source.source_id) (set_cluster rk) t

  flush-settled : (t : Table (Source J)) → t.added ≡ [] → flush t ≡ t
  flush-settled t e =
      let kept : t.stored ++ t.added ≡ t.stored = ap (λ l. t.stored ++ l) e ∙ append-nil t.stored in
      λ i. record { stored = kept i; added = sym e i }

  module _ (source : Source J) (rk : String) (before : Table (Source J))
      (settled : before.added ≡ []) where
    -- The sources are as before, or with the cluster set.
    abbrev AreLinked : Table (Source J) → Type 0
    AreLinked t =
        (t ≡ before) ⊎ ((source.cluster_rk ≡ none) × (t ≡ linked_sources source rk before))

    flush-AreLinked : (t : Table (Source J)) → AreLinked t → AreLinked (flush t)
    flush-AreLinked t (inl e) = inl (flush-settled t (ap (λ x. x.added) e ∙ settled) ∙ e)
    flush-AreLinked t (inr (free, e)) =
        inr (free, flush-settled t (ap (λ x. x.added) e ∙ settled) ∙ e)

    link-AreLinked :
        (t : Session J) → AreLinked t.sources → AreLinked (link_source source rk t).sources
    unfolding link_source
    link-AreLinked t h = elim (Option-cases source.cluster_rk) [
      | inr (c, e) ↦ rw e (rw e at h)
      | inl e ↦ rw e (elim h [
        | inl same ↦ inr (refl, ap (linked_sources source rk) same)
        | inr (free, done) ↦ inr (
          refl,
          ap (linked_sources source rk) done
              ∙ ap (λ l. record before { stored = l })
                  (change_again source.source_id rk before.stored),
        )
      ])
    ]

    put_edge-AreLinked :
        (from_rk to_rk edge_kind evidence_kind : String) (confidence : Option ℕ)
        (evidence_ref : Option String) (o : Option LineageEdge) (s : Session J)
        → AreLinked s.sources
        → AreLinked
            (put_edge from_rk to_rk edge_kind evidence_kind confidence evidence_ref o s).sources
    unfolding put_edge flush_all
    put_edge-AreLinked from_rk to_rk edge_kind evidence_kind confidence evidence_ref none s h =
        flush-AreLinked s.sources h
    put_edge-AreLinked from_rk to_rk edge_kind evidence_kind confidence evidence_ref (some edge) s
          h =
        h

    AreLinked-writable : IsWritable {J = J} (λ t. AreLinked t.sources)
    unfolding flush_all enqueue_task upsert_table_ext
    AreLinked-writable = record {
      placeable = record {
        framed = λ {s} {t} e same h. subst AreLinked same h;
        flushed = λ {s} h. flush-AreLinked s.sources h;
      };
      queued = λ kind payload now {s} h. flush-AreLinked s.sources h;
      table_put = λ model schema_rk {s} t e same h.
          flush-AreLinked t.sources (subst AreLinked (sym same) h);
      table_ext_put = λ texts model inline now {s} e h. h;
      column_put = λ col table_rk {s} h. flush-AreLinked s.sources h;
      column_ext_put = λ col now {s} e h. h;
      edge_put = λ from_rk to_rk edge_kind evidence_kind confidence evidence_ref o {s} found h.
          put_edge-AreLinked from_rk to_rk edge_kind evidence_kind confidence evidence_ref o s h;
    }

module _ {J : Type 0} (actor : String) (texts : Texts) (defaults : Dict J) where
  -- No two stored sources have one cluster after a document, whatever it holds and whether it raises,
  -- if none had before and no source waits for a flush, and if the cluster that the document names is
  -- free, which is only asked when the document's own source has no cluster yet. The source is stored.
  pub upsert_mdl_document-AreApart :
      (doc : MdlDocument) (source_id : Option String) (inline : Bool) (now : ℕ) (s : Session J)
      {source : Source J}
      → Table.find (is_source (text_or source_id doc.source_id)) s.sources ≡ some source
      → AreApart s.sources
      → (source.cluster_rk ≡ none
          → any
              (has_cluster
                (cluster_rk_of (text_or source_id doc.source_id) source.kind doc.catalog))
              s.sources.stored
            ≡ false)
      → AreApart (upsert_mdl_document actor texts defaults doc source_id inline now s).1.sources
  upsert_mdl_document-AreApart doc source_id inline now s {source} found (settled, unique) fresh =
      let sid = text_or source_id doc.source_id in
      let rk = cluster_rk_of sid source.kind doc.catalog in
      elim (upsert_mdl_document-keeps (λ t. AreLinked source rk s.sources settled t.sources)
        (AreLinked-writable source rk s.sources settled) actor texts defaults doc source_id inline
        now s
        (λ other found_other.
          subst
            (λ x.
              (t : Session J)
              → AreLinked source rk s.sources settled t.sources
              → AreLinked source rk s.sources settled
                  (link_source x (cluster_rk_of sid x.kind doc.catalog) t).sources)
            (cc (sym found ∙ found_other)) (link-AreLinked source rk s.sources settled))
        (inl refl)) [
          | inl same ↦ subst AreApart (sym same) (settled, unique)
          | inr (free, done) ↦ subst AreApart (sym done) (
            settled,
            change-IsUnique_fresh (is_source source.source_id) rk s.sources.stored (fresh free)
                unique,
          )
        ]
