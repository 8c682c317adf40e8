-- ===== src/Spine/Hierarchy/Documents/Annotations.antt =====
-- The annotations of the tables that a document writes.
use nexcraft.Base.{◌≡◌, refl, ap, String, List, [], ◌∷◌, ◌++◌, map}
use nexcraft.Base.Dict.{Dict}
use nexcraft.Spine.Table
use nexcraft.Spine.Table.{Table, rows}
use nexcraft.Spine.Models.{TableExt}

-- The annotations of a table, with the table.
abbrev pub annotations : TableExt → String × List String × List String × List String
annotations ext = (ext.table_rk, ext.concepts, ext.key_areas, ext.causal_relations)

pub map-append :
    {A B : Type 0} (f : A → B) (xs ys : List A) → map f (xs ++ ys) ≡ map f xs ++ map f ys
map-append f [] ys = refl
map-append f (x ∷ xs) ys = ap (λ zs. f x ∷ zs) (map-append f xs ys)

abbrev pub all_annotations :
    Table TableExt → List (String × List String × List String × List String)
all_annotations t = map annotations (rows t)

-- The annotations are those of before, in their order, and perhaps others after them.
abbrev pub Extends :
    List (String × List String × List String × List String) → Table TableExt → Type 0
Extends before t =
    (more : List (String × List String × List String × List String)) × (all_annotations t
      ≡ before ++ more)
