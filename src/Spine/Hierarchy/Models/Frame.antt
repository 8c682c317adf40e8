-- ===== src/Spine/Hierarchy/Models/Frame.antt =====
-- What the writing of a description leaves alone.
use nexcraft.Base.{◌≡◌, refl, String, Option, str_eq, Bool-cases, inl, inr}
use nexcraft.Reindex.Queue.{Queue}
use nexcraft.Spine.Table.{Table}
use nexcraft.Spine.Models.{
  Payload, TableMetadata, TableExt, ColumnMetadata, ColumnExt, LineageEdge, Session,
}
use nexcraft.Spine.Inferences.{text_of}
use nexcraft.Spine.Hierarchy.Rows.{text_or}
use nexcraft.Spine.Hierarchy.Models.{
  Target, table_target, column_target, upsert_description, describe,
}

module _ {J : Type 0} where
  -- The rows of a document and the queue.
  abbrev pub frame :
      Session J
      → Queue Payload
        × Table TableMetadata
        × Table TableExt
        × Table ColumnMetadata
        × Table ColumnExt
        × Table LineageEdge
  frame s = (s.queue, s.tables, s.table_exts, s.columns, s.column_exts, s.lineage)

  upsert_description-frame :
      (target : Target) (rk description source : String) (s : Session J)
      → frame (upsert_description target rk description source s) ≡ frame s
  unfolding upsert_description
  upsert_description-frame table_target rk description source s =
      elim (Bool-cases (str_eq source "user")) [
        | inl user ↦ rw user refl
        | inr other ↦ rw other refl
      ]
  upsert_description-frame column_target rk description source s =
      elim (Bool-cases (str_eq source "user")) [
        | inl user ↦ rw user refl
        | inr other ↦ rw other refl
      ]

  pub describe-frame :
      (target : Target) (rk : String) (description provenance : Option String) (s : Session J)
      → frame (describe target rk description provenance s) ≡ frame s
  unfolding describe
  describe-frame target rk description provenance s =
      elim (Bool-cases (str_eq (text_of description) "")) [
        | inl empty ↦ rw empty refl
        | inr given ↦
            rw given (
              upsert_description-frame target rk (text_of description) (text_or provenance "user")
                s)
      ]

  upsert_description-sources :
      (target : Target) (rk description source : String) (s : Session J)
      → (upsert_description target rk description source s).sources ≡ s.sources
  unfolding upsert_description
  upsert_description-sources table_target rk description source s =
      elim (Bool-cases (str_eq source "user")) [
        | inl user ↦ rw user refl
        | inr other ↦ rw other refl
      ]
  upsert_description-sources column_target rk description source s =
      elim (Bool-cases (str_eq source "user")) [
        | inl user ↦ rw user refl
        | inr other ↦ rw other refl
      ]

  pub describe-sources :
      (target : Target) (rk : String) (description provenance : Option String) (s : Session J)
      → (describe target rk description provenance s).sources ≡ s.sources
  unfolding describe
  describe-sources target rk description provenance s =
      elim (Bool-cases (str_eq (text_of description) "")) [
        | inl empty ↦ rw empty refl
        | inr given ↦ rw given (
            upsert_description-sources target rk (text_of description) (text_or provenance "user")
              s)
      ]
