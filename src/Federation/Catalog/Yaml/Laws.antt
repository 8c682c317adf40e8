-- ===== src/Federation/Catalog/Yaml/Laws.antt =====
-- The loop over the entries of a document against a reading of them one by one.
use nexcraft.Base.{
  String, ◌≡◌, refl, sym, ◌∙◌, ap, false, List, [], ◌∷◌, ◌++◌, map, inl, inr, arith, append-nil,
  append_assoc, subst, Result, ok, Bool-cases, ◌>>=◌, >>=-ok,
}
use nexcraft.Base.Dict
use nexcraft.Base.Dict.{Dict, IsUnique, set_absent, set-IsUnique}
use nexcraft.Federation.Core.{SourceDescriptor}
use nexcraft.Federation.Catalog.Yaml.{
  Yaml, as_mapping, descriptor_from_dict, add_source, load, document_items, from_string,
}

module _ {V : Type 0} (yaml : Yaml V) where
  -- The descriptors of the items, each read on its own.
  pub read_all : List V → Result (List (SourceDescriptor V))
  read_all [] = ok []
  read_all (item ∷ items) = do
    d ← as_mapping yaml item
    desc ← descriptor_from_dict yaml d
    descs ← read_all items
    ok (desc ∷ descs)

  abbrev pub entry : SourceDescriptor V → String × SourceDescriptor V
  entry desc = (desc.source_id, desc)

  -- What a round that succeeds has done.
  add_source-eq-ok :
      (sources : Dict (SourceDescriptor V)) (item : V) {more : Dict (SourceDescriptor V)}
      → add_source yaml sources item ≡ ok more
      → (d : Dict V) × (desc : SourceDescriptor V) × (as_mapping yaml item ≡ ok d)
        × (descriptor_from_dict yaml d ≡ ok desc)
        × (Dict.contains desc.source_id sources ≡ false)
        × (more ≡ Dict.set desc.source_id desc sources)
  unfolding add_source
  add_source-eq-ok sources item h =
      let (d, h', mapped) = >>=-ok (as_mapping yaml item) _ (sym h) in
      let (desc, h'', described) = >>=-ok (descriptor_from_dict yaml d) _ (sym h') in
      elim (Bool-cases (Dict.contains desc.source_id sources)) [
        | inl taken ↦ absurd (ground arith)
        | inr free ↦ (d, desc, mapped, described, free, ground arith)
      ]

  -- A load that succeeds read every item, in order, and no source id stands twice in it.
  load_lem :
      (sources : Dict (SourceDescriptor V)) (items : List V) {loaded : Dict (SourceDescriptor V)}
      → IsUnique sources
      → load yaml sources items ≡ ok loaded
      → (descs : List (SourceDescriptor V)) × (read_all items ≡ ok descs)
        × (loaded ≡ sources ++ map entry descs)
        × IsUnique loaded
  unfolding load read_all
  load_lem sources [] {loaded} u h = (
    [],
    refl,
    ground arith ∙ sym (append-nil sources),
    subst (λ l. IsUnique l) (let e : sources ≡ loaded = ground arith in e) u,
  )
  load_lem sources (item ∷ items) u h =
      let (more, h', added) = >>=-ok (add_source yaml sources item) _ (sym h) in
      let (d, desc, mapped, described, free, is_more) = add_source-eq-ok sources item added in
      let (descs, all, shape, unique) =
        load_lem more items
          (subst (λ l. IsUnique l) (sym is_more) (set-IsUnique desc.source_id desc sources u)) h' in
      (
        desc ∷ descs,
        rw (mapped, described, all),
        shape
            ∙ ap (λ l. l ++ map entry descs) (is_more ∙ set_absent desc.source_id desc sources free)
            ∙ append_assoc sources (entry desc ∷ []) (map entry descs),
        unique,
      )

  -- Every text that loads is a document whose `sources` items were all read, one by one: the catalog
  -- holds their descriptors in the order of the document, each under its own source id, and no
  -- source id twice.
  pub from_string-eq-ok :
      (text : String) {loaded : Dict (SourceDescriptor V)}
      → from_string yaml text ≡ ok loaded
      → (items : List V) × (descs : List (SourceDescriptor V)) × (document_items yaml text
          ≡ ok items)
        × (read_all items ≡ ok descs)
        × (loaded ≡ map entry descs)
        × IsUnique loaded
  unfolding from_string
  from_string-eq-ok text h =
      let (items, h', listed) = >>=-ok (document_items yaml text) _ (sym h) in
      let (descs, all, shape, unique) = load_lem [] items tt h' in
      (items, descs, listed, all, shape, unique)
