-- ===== src/Federation/Tests.antt =====
-- Tests of the engine on small inputs, and the theorems about it at such inputs.
mod Pools
mod Streams
mod Catalogs
mod Connections
use nexcraft.Base.{
  ℕ, ◌+◌, ◌-◌, String, ◌≡◌, refl, none, some, List, [], ◌∷◌, arith, eq_iff, ok, err,
  authentication_error, connection_error, configuration_error, if◌then◌else◌, map,
}
use nexcraft.Base.Dict
use nexcraft.Base.Dict.{Dict}
use nexcraft.Federation.Core.{context, ConnectionDetails}
use nexcraft.Federation.Store
use nexcraft.Federation.Store.{ManagementStore, new_store}
use nexcraft.Federation.Store.Laws.{
  has_duplicate, entry, new_store-eq, find_row, get_connection_details-new_store,
}
use nexcraft.Federation.Sizing.{fallback}
use nexcraft.Federation.Secrets.{null_resolver}
use nexcraft.Federation.Provider.{DriverPool, Settings, State}
use nexcraft.Federation.Router
use nexcraft.Federation.Router.{SourceExecutor, Stream, Router, failed}
use nexcraft.Federation.Router.Tenancy.{federation, router_other_tenant}

-- A row of tenant "acme" and one of tenant "globex".
abbrev row : String → String → ConnectionDetails ℕ
row source_id tenant_id = record {
  source_id = source_id;
  tenant_id = tenant_id;
  kind = "postgres";
  display_name = source_id;
  config = [];
  secret_ref = none;
  tags = [];
}

abbrev rows : List (ConnectionDetails ℕ)
rows = row "a" "acme" ∷ row "g" "globex" ∷ []

abbrev by_id : Dict (ConnectionDetails ℕ)
by_id = ("a", row "a" "acme") ∷ ("g", row "g" "globex") ∷ []

new_store-rows : new_store rows ≡ ok by_id
unfolding new_store Dict.set Dict.contains
new_store-rows = refl

new_store_example : new_store (row "a" "acme" ∷ row "a" "globex" ∷ []) ≡ (
    if has_duplicate (row "a" "acme" ∷ row "a" "globex" ∷ [])
    then err configuration_error
    else ok (map entry (row "a" "acme" ∷ row "a" "globex" ∷ [])))
new_store_example = new_store-eq (row "a" "acme" ∷ row "a" "globex" ∷ [])

-- The world counts the connections that are out.
abbrev pool : DriverPool ℕ
pool = record {
  kind = "postgres";
  acquire = λ ctx w. (
    ok (record {
      source_id = "a";
      kind = "postgres";
      pooled = some (record { raw = w; pool_id = "a" });
    }),
    w + 1,
  );
  release = λ handle w. (ok tt, w - 1);
  close = λ w. (err connection_error, w);
}

abbrev store : ManagementStore ℕ ℕ
store = record {
  get_connection_details = λ source_id w. (Store.get_connection_details by_id source_id, w);
  list_connection_details = λ tenant_id w. (ok (Store.list_connection_details by_id tenant_id), w);
}

abbrev settings : Settings ℕ ℕ
settings = record {
  store = store;
  factories = ("postgres", record { create = λ details secrets sizing w. (ok pool, w) }) ∷ [];
  pool_config = λ kind source_id. fallback;
  secrets = null_resolver;
}

abbrev executor : SourceExecutor ℕ ℕ (State ℕ)
executor = record {
  kind = "postgres";
  describe = λ sql ctx handle s. (ok 7, s);
  execute = λ sql ctx handle s. (record { batches = 1 ∷ 2 ∷ []; failure = none }, s);
}

abbrev engine : Router ℕ ℕ ℕ (State ℕ)
engine = federation settings (("postgres", executor) ∷ [])

abbrev idle : State ℕ
idle = record { pools = []; world = 0 }

router_other_tenant_example :
    (Router.execute engine "g" "select 1" (context "acme" "q1") idle
      ≡ (failed authentication_error, idle))
    × (Router.describe engine "g" "select 1" (context "acme" "q1") idle
        ≡ (err authentication_error, idle))
unfolding Dict.get Store.get_connection_details
router_other_tenant_example =
    router_other_tenant settings (("postgres", executor) ∷ []) "g" "select 1" (context "acme" "q1")
      idle (row "g" "globex") (λ w. refl) (ground (arith, eq_iff "globex" "acme"))
