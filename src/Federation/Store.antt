-- ===== src/Federation/Store.antt =====
-- packages/nexcraft/nexcraft/connection/management.py: the store of connection rows, as an interface
-- over the world outside, and the reference store in memory.
pub mod Laws
use nexcraft.Base.{
  String, Option, none, some, List, [], ◌∷◌, str_eq, if◌then◌else◌, keep, Result, ok, err,
  configuration_error,
}
use nexcraft.Base.Dict
use nexcraft.Base.Dict.{Dict}
use nexcraft.Base.Exec.{Exec}
use nexcraft.Federation.Core.{ConnectionDetails}

-- The protocol `ManagementStore`, over a world `W`.
pub record ManagementStore (V W : Type 0) : Type 0 where
  pub get_connection_details : String → Exec W (ConnectionDetails V)
  pub list_connection_details : Option String → Exec W (List (ConnectionDetails V))

module _ {V : Type 0} where
  -- The loop of `InMemoryManagementStore.__init__` over the rows left.
  index_rows :
      Dict (ConnectionDetails V) → List (ConnectionDetails V) → Result (Dict (ConnectionDetails V))
  index_rows by_id [] = ok by_id
  index_rows by_id (row ∷ rows) =
      let rest = index_rows (Dict.set row.source_id row by_id) rows in
      if Dict.contains row.source_id by_id then err configuration_error else rest

  unfoldable pub new_store : List (ConnectionDetails V) → Result (Dict (ConnectionDetails V))
  unfolding index_rows
  new_store rows = index_rows [] rows

  pub found : Option (ConnectionDetails V) → Result (ConnectionDetails V)
  found none = err configuration_error
  found (some row) = ok row

  unfoldable pub get_connection_details :
      Dict (ConnectionDetails V) → String → Result (ConnectionDetails V)
  unfolding found
  get_connection_details by_id source_id = found (Dict.get source_id by_id)

  unfoldable pub list_connection_details :
      Dict (ConnectionDetails V) → Option String → List (ConnectionDetails V)
  list_connection_details by_id none = Dict.values by_id
  list_connection_details by_id (some tenant_id) =
      keep (λ row. str_eq row.tenant_id tenant_id) (Dict.values by_id)
