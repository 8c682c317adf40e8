-- ===== src/Spine/Inferences/Hints.antt =====
-- dao/inferences.py: the hints on data protection of `InferenceDAO`.
use nexcraft.Base.{ℕ, String, ◌<>◌, Bool, Option, none, some, List, ◌&&◌, str_eq}
use nexcraft.Spine.Table
use nexcraft.Spine.Table.{Table}
use nexcraft.Spine.Models.{Session}
use nexcraft.Spine.Models.Derived.{DataProtectionHint}
use nexcraft.Spine.Inferences.{or_text, or_else, audit}

module _ {J : Type 0} (actor : String) where
  same_hint : String → String → DataProtectionHint J → Bool
  same_hint asset_rk provenance h = str_eq h.asset_rk asset_rk && str_eq h.provenance provenance

  put_hint :
      String
      → List String
      → List String
      → String
      → String
      → Option J
      → ℕ
      → Option (DataProtectionHint J)
      → Session J
      → Session J
  unfolding audit same_hint
  put_hint asset_rk rls_predicates cls_columns rationale provenance extra now none s =
      audit actor "create" "data_protection_hint" ("data_protection:" <> asset_rk) (record s {
        hints =
            Table.add
              (record {
                asset_rk = asset_rk;
                rls_predicates = rls_predicates;
                cls_columns = cls_columns;
                rationale = or_text rationale none;
                provenance = provenance;
                status = "proposed";
                extra = extra;
                updated_at = now;
              })
              s.hints;
      })
  put_hint asset_rk rls_predicates cls_columns rationale provenance extra now (some existing) s =
      record s {
        hints =
            Table.update (same_hint asset_rk provenance)
              (λ h. record h {
                rls_predicates = rls_predicates;
                cls_columns = cls_columns;
                rationale = or_text rationale h.rationale;
                extra = or_else extra h.extra;
                updated_at = now;
              })
              s.hints;
      }

  unfoldable pub upsert_data_protection_hint :
      String → List String → List String → String → String → Option J → ℕ → Session J → Session J
  unfolding put_hint same_hint
  upsert_data_protection_hint asset_rk rls_predicates cls_columns rationale provenance extra now s =
      put_hint asset_rk rls_predicates cls_columns rationale provenance extra now
        (Table.find (same_hint asset_rk provenance) s.hints) s
