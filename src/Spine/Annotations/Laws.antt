-- ===== src/Spine/Annotations/Laws.antt =====
-- What a trusted source wrote stays.
use nexcraft.Base.{
  ℕ, ◌<◌, ◌≡◌, refl, ◌∙◌, ap, String, Bool, false, Option, none, some, List, [], ◌∷◌, str_eq,
  eq_iff, arith, Bool-cases, inl, inr, ◌||◌, All,
}
use nexcraft.Spine.Table
use nexcraft.Spine.Table.{first-change, first-append, first-holds}
use nexcraft.Spine.Models.{
  TableExt, AssetAnnotationProvenance, Session, flush_all, enqueue_task, enqueue_asset_reindex,
}
use nexcraft.Spine.Annotations.{
  AnnotationField, concepts, key_areas, causal_relations, field_of, set_field, AssetAnnotations,
  trust, newest, is_about, is_more_trusted, latest_provenance, provenance_of, write_value,
  write_field, write_fields, write_to, write, is_applied, apply_field, audit_field,
}
use nexcraft.Spine.Annotations.Fields.{
  newest-append, newest-snoc, same_field, field_of-set_field, table_rk-set_field,
}

-- A write that is about another asset, or comes from a source of lower trust.
abbrev pub IsLower : String → AssetAnnotationProvenance → AssetAnnotations → Type 0
IsLower rk prior anno = anno.asset_rk ≡ rk → trust anno.source < trust prior.source

module _ {J : Type 0} (actor : String) where
  -- Writes one after another, each at its time; one that raises changes nothing.
  unfoldable pub write_all : List (AssetAnnotations × ℕ) → Session J → Session J
  write_all [] s = s
  write_all ((anno, now) ∷ writes) s = write_all writes (write actor anno now s).1

module _ {J : Type 0} (actor rk : String) (f : AnnotationField) (value : List String)
    (prior : AssetAnnotationProvenance) where
  -- The field has the value, and `prior` is its newest provenance, stored and not waiting.
  pub record Stands (s : Session J) : Type 0 where
    pub row : TableExt
    pub found : Table.find (λ r. str_eq r.table_rk rk) s.table_exts ≡ some row
    pub holds : field_of f row ≡ value
    pub newest_stored : newest (is_about rk f) s.provenances.stored ≡ some prior
    pub none_added : newest (is_about rk f) s.provenances.added ≡ none

  apply_field-Stands :
      (anno : AssetAnnotations) (g : AnnotationField) (new : List String) (now : ℕ) (s : Session J)
      → is_about rk f (provenance_of actor anno g) ≡ false
      → Stands s
      → Stands (apply_field actor anno g new now s)
  apply_field-Stands anno g new now s other h =
      let q : TableExt → Bool = λ r. str_eq r.table_rk rk in
      let p : TableExt → Bool = λ r. str_eq r.table_rk anno.asset_rk in
      let quiet =
        newest-snoc (is_about rk f) s.provenances.added (provenance_of actor anno g) other
          h.none_added in
      elim (first-change q p (set_field g new now) s.table_exts.stored
        (λ r. ap (λ k. str_eq k rk) (table_rk-set_field g new now r)) h.found) [
          | inl kept ↦ record {
            row = h.row;
            found = kept;
            holds = h.holds;
            newest_stored = h.newest_stored;
            none_added = quiet;
          }
          | inr (about, set) ↦ record {
            row = set_field g new now h.row;
            found = set;
            holds =
                field_of-set_field f g new now h.row (
                  ground (
                    arith,
                    other,
                    about,
                    first-holds q s.table_exts.stored h.found,
                    eq_iff h.row.table_rk rk,
                    eq_iff h.row.table_rk anno.asset_rk,
                    eq_iff anno.asset_rk rk,
                  ))
                ∙ h.holds;
            newest_stored = h.newest_stored;
            none_added = quiet;
          }
        ]

  carry-Stands :
      (s t : Session J)
      → t.table_exts ≡ s.table_exts
      → t.provenances ≡ s.provenances
      → Stands s
      → Stands t
  carry-Stands s t exts provs h = record {
    row = h.row;
    found = rw exts h.found;
    holds = h.holds;
    newest_stored = rw provs h.newest_stored;
    none_added = rw provs h.none_added;
  }

  flush-Stands : (s : Session J) → Stands s → Stands (flush_all s)
  unfolding flush_all
  flush-Stands s h = record {
    row = h.row;
    found = first-append (λ r. str_eq r.table_rk rk) s.table_exts.stored s.table_exts.added h.found;
    holds = h.holds;
    newest_stored =
        newest-append (is_about rk f) s.provenances.stored s.provenances.added h.none_added
        ∙ h.newest_stored;
    none_added = refl;
  }

  -- A provenance for the field, of lower trust, is not written.
  not_about :
      (anno : AssetAnnotations) (g : AnnotationField) (s : Session J)
      → IsLower rk prior anno
      → is_more_trusted (latest_provenance actor anno.asset_rk g s) anno.source ≡ false
      → Stands s
      → is_about rk f (provenance_of actor anno g) ≡ false
  unfolding latest_provenance
  not_about anno g s lower untrusted h =
      elim (Bool-cases (is_about rk f (provenance_of actor anno g))) [
        | inr other ↦ other
        | inl same ↦
            let asset : anno.asset_rk ≡ rk = ground (arith, same, eq_iff anno.asset_rk rk) in
            let field : g ≡ f = same_field f g (ground (arith, same)) in
            let found : newest (is_about anno.asset_rk g) s.provenances.stored ≡ some prior =
              rw (asset, field) h.newest_stored in
            absurd (ground (arith, lower asset, rw found at untrusted))
      ]

  write_value-Stands :
      (anno : AssetAnnotations) (g : AnnotationField) (now : ℕ) (s : Session J) (new : List String)
      → IsLower rk prior anno
      → Stands s
      → Stands (write_value actor anno g now s new).1
  write_value-Stands anno g now s [] lower h = h
  write_value-Stands anno g now s (v ∷ new) lower h =
      elim (Bool-cases (is_more_trusted (latest_provenance actor anno.asset_rk g s) anno.source)) [
        | inl skip ↦
            rw skip (carry-Stands s (audit_field actor "sync_skipped_clobber" anno g s) refl refl h)
        | inr go ↦
            rw go (apply_field-Stands anno g (v ∷ new) now s (not_about anno g s lower go h) h)
      ]

  write_fields-Stands :
      (anno : AssetAnnotations) (now : ℕ) (s : Session J)
      → IsLower rk prior anno
      → Stands s
      → Stands (write_fields actor anno now s).1
  unfolding write_fields write_field flush_all enqueue_task
  write_fields-Stands anno now s lower h =
      let s₁ = write_field actor anno concepts now s in
      let s₂ = write_field actor anno key_areas now s₁.1 in
      let s₃ = write_field actor anno causal_relations now s₂.1 in
      let h₁ = write_value-Stands anno concepts now s anno.concepts lower h in
      let h₂ = write_value-Stands anno key_areas now s₁.1 anno.key_areas lower h₁ in
      let h₃ = write_value-Stands anno causal_relations now s₂.1 anno.causal_relations lower h₂ in
      elim (Bool-cases (is_applied s₁.0 || is_applied s₂.0 || is_applied s₃.0)) [
        | inl some_applied ↦ rw some_applied (
            carry-Stands (flush_all s₃.1) (enqueue_asset_reindex anno.asset_rk "table" now s₃.1)
              refl refl (flush-Stands s₃.1 h₃))
        | inr none_applied ↦ rw none_applied h₃
      ]

  write_to-Stands :
      (anno : AssetAnnotations) (now : ℕ) (target : Option TableExt) (s : Session J)
      → IsLower rk prior anno
      → Stands s
      → Stands (write_to actor anno now target s).1
  unfolding write_to
  write_to-Stands anno now none s lower h = h
  write_to-Stands anno now (some target) s lower h = write_fields-Stands anno now s lower h

  -- The writes of a session, one after the other, each at its time; one that raises changes nothing.
  -- While the newest provenance of a field is stored, no writes from sources of lower trust change
  -- the field or what its newest provenance is, however many they are and whatever assets and fields
  -- they are about.
  pub write_all-Stands :
      (writes : List (AssetAnnotations × ℕ)) (s : Session J)
      → All (λ w. IsLower rk prior w.0) writes
      → Stands s
      → Stands (write_all actor writes s)
  unfolding write write_all
  write_all-Stands [] s lower h = h
  write_all-Stands ((anno, now) ∷ writes) s lower h =
      write_all-Stands writes (write actor anno now s).1 lower.1 (
        write_to-Stands anno now (Table.find (λ r. str_eq r.table_rk anno.asset_rk) s.table_exts) s
          lower.0 h)
