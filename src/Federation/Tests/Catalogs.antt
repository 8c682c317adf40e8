-- ===== src/Federation/Tests/Catalogs.antt =====
-- The theorem about YAML catalogs at a document of one source.
use nexcraft.Base.{
  String, true, Option, ◌≡◌, refl, none, some, List, [], ◌∷◌, map, ok, err, foreign_error,
}
use nexcraft.Base.Dict
use nexcraft.Base.Dict.{Dict, IsUnique}
use nexcraft.Federation.Core.{SourceDescriptor}
use nexcraft.Federation.Catalog.Yaml.{Yaml, document_items, from_string}
use nexcraft.Federation.Catalog.Yaml.Laws.{read_all, entry, from_string-eq-ok}

data Node : Type 0 where
  root items item id_text kind_text name_text tenant_text : Node

abbrev dict_at : Node → Option (Dict Node)
dict_at root = some (("sources", items) ∷ [])
dict_at item = some (
    ("source_id", id_text)
    ∷ ("kind", kind_text)
    ∷ ("display_name", name_text)
    ∷ ("tenant_id", tenant_text)
    ∷ [])
dict_at _ = none

abbrev list_at : Node → Option (List Node)
list_at items = some (item ∷ [])
list_at _ = none

abbrev text_at : Node → String
text_at id_text = "a"
text_at kind_text = "postgres"
text_at name_text = "A"
text_at _ = "acme"

abbrev yaml : Yaml Node
yaml = record {
  safe_load = λ text. ok root;
  is_truthy = λ x. true;
  as_dict = dict_at;
  as_list = list_at;
  str = text_at;
  dict = λ x. err (foreign_error "TypeError");
}

abbrev loaded : Dict (SourceDescriptor Node)
loaded =
    (
      "a",
      record {
        source_id = "a";
        kind = "postgres";
        display_name = "A";
        tenant_id = "acme";
        config = [];
        tags = [];
      },
    )
    ∷ []

from_string_example :
    (nodes : List Node) × (descs : List (SourceDescriptor Node)) × (document_items yaml "doc"
      ≡ ok nodes)
    × (read_all yaml nodes ≡ ok descs)
    × (loaded ≡ map (entry yaml) descs)
    × IsUnique loaded
unfolding from_string Dict.get Dict.set Dict.contains
from_string_example = from_string-eq-ok yaml "doc" {loaded = loaded} refl
