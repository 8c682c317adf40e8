-- ===== src/Federation/Store/Laws.antt =====
-- The reference store against a description of it: which lists of rows it accepts, and what it
-- then holds.
use nexcraft.Base.{
  String, ◌≡◌, refl, ◌∙◌, ap, Bool, false, ◌||◌, Option, none, some, List, [], ◌∷◌, ◌++◌, map, inl,
  inr, arith, eq_iff, str_eq, if◌then◌else◌, any, any-or, any-false, append-nil, append_assoc,
  fun_ext, ok, err, configuration_error, Bool-cases,
}
use nexcraft.Base.Dict
use nexcraft.Base.Dict.{Dict, set_absent, contains-set}
use nexcraft.Federation.Core.{ConnectionDetails}
use nexcraft.Federation.Store.{index_rows, new_store, get_connection_details, found}

module _ {V : Type 0} where
  abbrev pub entry : ConnectionDetails V → String × ConnectionDetails V
  entry row = (row.source_id, row)

  abbrev is_named : String → ConnectionDetails V → Bool
  is_named source_id row = str_eq source_id row.source_id

  -- Two rows of the list have one source id.
  abbrev pub has_duplicate : List (ConnectionDetails V) → Bool
  has_duplicate [] = false
  has_duplicate (row ∷ rows) = any (is_named row.source_id) rows || has_duplicate rows

  abbrev is_taken : Dict (ConnectionDetails V) → ConnectionDetails V → Bool
  is_taken by_id row = Dict.contains row.source_id by_id

  any-taken-set :
      (by_id : Dict (ConnectionDetails V)) (row : ConnectionDetails V)
      (rows : List (ConnectionDetails V))
      → any (is_taken (Dict.set row.source_id row by_id)) rows
        ≡ (any (is_named row.source_id) rows || any (is_taken by_id) rows)
  any-taken-set by_id row rows =
      ap (λ p. any p rows) (fun_ext (λ r. contains-set row.source_id r.source_id row by_id))
      ∙ any-or (is_named row.source_id) (is_taken by_id) rows

  index_rows_lem :
      (by_id : Dict (ConnectionDetails V)) (rows : List (ConnectionDetails V))
      → index_rows by_id rows ≡ (
          if any (is_taken by_id) rows || has_duplicate rows
          then err configuration_error
          else ok (by_id ++ map entry rows))
  unfolding index_rows
  index_rows_lem by_id [] = rw append-nil
  index_rows_lem by_id (row ∷ rows) = elim (Bool-cases (is_taken by_id row)) [
    | inl taken ↦ rw taken
    | inr free ↦
        rw
          (
            free,
            index_rows_lem (Dict.set row.source_id row by_id) rows,
            any-taken-set by_id row rows,
          )
          (rw (set_absent row.source_id row by_id free, append_assoc) (ground arith))
  ]

  -- The constructor refuses exactly the lists in which a source id stands twice, with a
  -- configuration error, and else holds every row under its source id, in the order given.
  pub new_store-eq :
      (rows : List (ConnectionDetails V))
      → new_store rows
        ≡ (if has_duplicate rows then err configuration_error else ok (map entry rows))
  unfolding new_store
  new_store-eq rows =
      rw (index_rows_lem, any-false (is_taken []) rows (λ row. unfold Dict.contains in refl))

  abbrev pub find_row : String → List (ConnectionDetails V) → Option (ConnectionDetails V)
  find_row source_id [] = none
  find_row source_id (row ∷ rows) =
      if is_named source_id row then some row else find_row source_id rows

  get-entries :
      (source_id : String) (rows : List (ConnectionDetails V))
      → Dict.get source_id (map entry rows) ≡ find_row source_id rows
  unfolding Dict.get
  get-entries source_id [] = refl
  get-entries source_id (row ∷ rows) = ground (
    arith,
    eq_iff row.source_id source_id,
    eq_iff source_id row.source_id,
    get-entries source_id rows,
  )

  -- A store that was built answers a source id with the row of that id, and an id that no row has
  -- with a configuration error.
  pub get_connection_details-new_store :
      (rows : List (ConnectionDetails V)) (source_id : String) {by_id : Dict (ConnectionDetails V)}
      → new_store rows ≡ ok by_id
      → get_connection_details by_id source_id ≡ found (find_row source_id rows)
  unfolding get_connection_details
  get_connection_details-new_store rows source_id h =
      ground (arith, new_store-eq rows, get-entries source_id rows)
