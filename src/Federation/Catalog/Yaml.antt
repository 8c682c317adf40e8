-- ===== src/Federation/Catalog/Yaml.antt =====
-- packages/nexcraft/nexcraft/catalog/yaml_catalog.py: the catalog in memory, read from a YAML
-- document.
pub mod Laws
use nexcraft.Base.{
  String, Bool, not, Option, none, some, List, [], ◌∷◌, if◌then◌else◌, any, Result, ok, err,
  configuration_error, ◌>>=◌,
}
use nexcraft.Base.Dict
use nexcraft.Base.Dict.{Dict}
use nexcraft.Federation.Core.{SourceDescriptor}

-- What the loader takes from PyYAML and from Python's values: the parse of a text, and the views and
-- conversions of a value that the code uses. The keys of a mapping are texts.
pub record Yaml (V : Type 0) : Type 0 where
  pub safe_load : String → Result V
  -- `x or {}` and `x or []` take the other side for a false value
  pub is_truthy : V → Bool
  -- `isinstance(x, dict)` with its entries, `isinstance(x, list)` with its items
  pub as_dict : V → Option (Dict V)
  pub as_list : V → Option (List V)
  -- `str(x)` and `dict(x)`
  pub str : V → String
  pub dict : V → Result (Dict V)

module _ {V : Type 0} (yaml : Yaml V) where
  open yaml use {is_truthy, as_dict, as_list, str}

  -- The `isinstance(x, dict)` checks.
  pub as_mapping : V → Result (Dict V)
  as_mapping x = elim (as_dict x) [ some d ↦ ok d | none ↦ err configuration_error ]

  -- `dict(d.get(key) or {})`
  dict_field : Option V → Result (Dict V)
  dict_field none = ok []
  dict_field (some x) = if is_truthy x then yaml.dict x else ok []

  -- `doc.get(key) or []`, and the check that it is a list
  list_field : Option V → Result (List V)
  list_field none = ok []
  list_field (some x) =
      if is_truthy x
      then elim (as_list x) [ some xs ↦ ok xs | none ↦ err configuration_error ]
      else ok []

  require : Option V → Result V
  require none = err configuration_error
  require (some x) = ok x

  -- `_descriptor_from_dict`. The four fields are all looked up before the first is read.
  unfoldable pub descriptor_from_dict : Dict V → Result (SourceDescriptor V)
  unfolding dict_field require
  descriptor_from_dict d =
      let required = "source_id" ∷ "kind" ∷ "display_name" ∷ "tenant_id" ∷ [] in
      if any (λ k. not (Dict.contains k d)) required then err configuration_error else do
        source_id ← require (Dict.get "source_id" d)
        kind ← require (Dict.get "kind" d)
        display_name ← require (Dict.get "display_name" d)
        tenant_id ← require (Dict.get "tenant_id" d)
        config ← dict_field (Dict.get "config" d)
        tags ← dict_field (Dict.get "tags" d)
        ok (record {
          source_id = str source_id;
          kind = str kind;
          display_name = str display_name;
          tenant_id = str tenant_id;
          config = config;
          tags = tags;
        })

  -- One round of the loop of `from_string`.
  pub add_source : Dict (SourceDescriptor V) → V → Result (Dict (SourceDescriptor V))
  unfolding as_mapping descriptor_from_dict
  add_source sources item = do
    d ← as_mapping item
    desc ← descriptor_from_dict d
    if Dict.contains desc.source_id sources
        then err configuration_error
        else ok (Dict.set desc.source_id desc sources)

  pub load : Dict (SourceDescriptor V) → List V → Result (Dict (SourceDescriptor V))
  load sources [] = ok sources
  load sources (item ∷ items) = add_source sources item >>= λ more. load more items

  -- The items under `sources`, with the checks before the loop.
  pub document_items : String → Result (List V)
  unfolding as_mapping list_field
  document_items text = do
    doc ← yaml.safe_load text
    fields ← if is_truthy doc then as_mapping doc else ok []
    list_field (Dict.get "sources" fields)

  -- `YAMLCatalog.from_string`, up to the constructor, which copies the dict.
  unfoldable pub from_string : String → Result (Dict (SourceDescriptor V))
  unfolding document_items load add_source
  from_string text = do items ← document_items text; load [] items
