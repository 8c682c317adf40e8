-- ===== src/Spine/Annotations/Fields.antt =====
-- The fields of a table, and the newest provenance of one.
use nexcraft.Base.{
  ℕ, ◌≡◌, refl, ◌∙◌, ap, String, Bool, true, false, none, List, [], ◌∷◌, ◌++◌, str_eq,
  if◌then◌else◌,
}
use nexcraft.Spine.Models.{TableExt, AssetAnnotationProvenance}
use nexcraft.Spine.Annotations.{
  AnnotationField, concepts, key_areas, causal_relations, field_name, field_of, set_field, later,
  newest,
}

pub newest-append :
    (p : AssetAnnotationProvenance → Bool) (xs ys : List AssetAnnotationProvenance)
    → newest p ys ≡ none
    → newest p (xs ++ ys) ≡ newest p xs
newest-append p [] ys h = h
newest-append p (x ∷ xs) ys h = ap (λ o. if p x then later x o else o) (newest-append p xs ys h)

pub newest-snoc :
    (p : AssetAnnotationProvenance → Bool) (xs : List AssetAnnotationProvenance)
    (r : AssetAnnotationProvenance)
    → p r ≡ false
    → newest p xs ≡ none
    → newest p (xs ++ r ∷ []) ≡ none
newest-snoc p xs r other h = newest-append p xs (r ∷ []) (rw other refl) ∙ h

pub same_field : (f g : AnnotationField) → str_eq (field_name g) (field_name f) ≡ true → g ≡ f
same_field concepts concepts h = refl
same_field concepts key_areas h = cc
same_field concepts causal_relations h = cc
same_field key_areas concepts h = cc
same_field key_areas key_areas h = refl
same_field key_areas causal_relations h = cc
same_field causal_relations concepts h = cc
same_field causal_relations key_areas h = cc
same_field causal_relations causal_relations h = refl

pub field_of-set_field :
    (f g : AnnotationField) (value : List String) (now : ℕ) (e : TableExt)
    → str_eq (field_name g) (field_name f) ≡ false
    → field_of f (set_field g value now e) ≡ field_of f e
field_of-set_field concepts concepts value now e h = cc
field_of-set_field concepts key_areas value now e h = refl
field_of-set_field concepts causal_relations value now e h = refl
field_of-set_field key_areas concepts value now e h = refl
field_of-set_field key_areas key_areas value now e h = cc
field_of-set_field key_areas causal_relations value now e h = refl
field_of-set_field causal_relations concepts value now e h = refl
field_of-set_field causal_relations key_areas value now e h = refl
field_of-set_field causal_relations causal_relations value now e h = cc

pub table_rk-set_field :
    (g : AnnotationField) (value : List String) (now : ℕ) (e : TableExt)
    → (set_field g value now e).table_rk ≡ e.table_rk
table_rk-set_field concepts value now e = refl
table_rk-set_field key_areas value now e = refl
table_rk-set_field causal_relations value now e = refl
