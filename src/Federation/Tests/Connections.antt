-- ===== src/Federation/Tests/Connections.antt =====
-- The theorem about connections that do not leak, at the router over the pooled provider, and at
-- one whose handles are shared and never given back.
use nexcraft.Base.{
  ℕ, ◌-◌, String, ◌≡◌, refl, subst, Option, none, some, List, [], ◌∷◌, arith, Result, ok, err,
  connection_error, str_eq, if◌then◌else◌, length, leb, ◌==◌, Bool, true, false, Bool-cases, inl,
  inr,
}
use nexcraft.Base.Dict
use nexcraft.Federation.Core.{context, ConnectionHandle}
use nexcraft.Federation.Sizing.{fallback}
use nexcraft.Federation.Secrets.{null_resolver}
use nexcraft.Federation.Store
use nexcraft.Federation.Store.{ManagementStore}
use nexcraft.Federation.Catalog.{db_catalog}
use nexcraft.Federation.Provider
use nexcraft.Federation.Provider.{DriverPool, DriverPoolFactory, Settings, State}
use nexcraft.Federation.Provider.Counted.{IsPool, ledger, Lends, Built, IsQuiet}
use nexcraft.Federation.Router
use nexcraft.Federation.Router.{ConnectionProvider, SourceExecutor, Router, Stream, safe_release}
use nexcraft.Federation.Router.Balance.{Ledger, Holds, HoldsFor, IsCounted, held_router}
use nexcraft.Federation.Router.Pooled.{federation-IsCounted}
use nexcraft.Federation.Router.Tenancy.{federation}
use nexcraft.Federation.Tests.{rows, by_id}

-- The connections that are in flight, the latest first.
abbrev World : Type 0
World = List ℕ

abbrev lent_by : String → ℕ → ConnectionHandle
lent_by key raw = record {
  source_id = key;
  kind = "postgres";
  pooled = some (record { raw = raw; pool_id = key });
}

abbrev take_out : String → World → (is_full : Bool) → Result ConnectionHandle × World
take_out key w true = (err connection_error, w)
take_out key w false = (ok (lent_by key (length w)), length w ∷ w)

abbrev take_back : Option ℕ → World → World
take_back none w = w
take_back (some raw) [] = []
take_back (some raw) (x ∷ w) = if raw == x then w else x ∷ w

abbrev raw_of : ConnectionHandle → Option ℕ
raw_of h = elim h.pooled [ none ↦ none | some slot ↦ some slot.raw ]

-- A pool of two connections whose `release` raises after it has taken the connection back, and does
-- nothing for a handle that is not in flight.
abbrev pool_for : String → DriverPool World
pool_for key = record {
  kind = "postgres";
  acquire = λ ctx w. take_out key w (leb 2 (length w));
  release = λ h w. (err connection_error, take_back (raw_of h) w);
  close = λ w. (ok tt, w);
}

abbrev factory : DriverPoolFactory ℕ World
factory = record { create = λ details secrets sizing w. (ok (pool_for details.source_id), w) }

abbrev two_connections : Settings ℕ World
two_connections = record {
  store = record {
    get_connection_details = λ source_id w. (Store.get_connection_details by_id source_id, w);
    list_connection_details = λ tenant_id w. (ok rows, w);
  };
  factories = ("postgres", factory) ∷ [];
  pool_config = λ kind source_id. fallback;
  secrets = null_resolver;
}

abbrev failing : {W : Type 0} → SourceExecutor ℕ ℕ W
failing = record {
  kind = "postgres";
  describe = λ sql ctx h w. (err connection_error, w);
  execute = λ sql ctx h w. (record { batches = 1 ∷ []; failure = some connection_error }, w);
}

abbrev executors : {W : Type 0} → Dict.Dict (SourceExecutor ℕ ℕ W)
executors = ("postgres", failing) ∷ []

abbrev InFlight : ConnectionHandle → World → Type 0
InFlight h w = (raw : ℕ) × (rest : World) × (raw_of h ≡ some raw) × (w ≡ raw ∷ rest)

abbrev counts : Ledger (State World)
counts = ledger length InFlight

take_out-Lends :
    (key : String) (w : World) (is_full : Bool)
    → Lends length InFlight key (take_out key w is_full).0 (length w) (take_out key w is_full).1
take_out-Lends key w true = refl
take_out-Lends key w false =
    (omega arith, (length w, w, refl, refl), record { raw = length w; pool_id = key }, refl, refl)

take_back-flying :
    (o : Option ℕ) (w rest : World) (raw : ℕ)
    → o ≡ some raw
    → w ≡ raw ∷ rest
    → length (take_back o w) ≡ length w - 1
take_back-flying o w rest raw is shape = rw (is, shape) (ground arith)

pool_for-IsPool : (key : String) → IsPool length InFlight key (pool_for key)
pool_for-IsPool key = record {
  acquire = λ ctx w. take_out-Lends key w (leb 2 (length w));
  release = λ h w flying. take_back-flying (raw_of h) w flying.1 flying.0 flying.2 flying.3;
}

only :
    {A : Type 0} (kind : String) (x y : A) → Dict.get kind (("postgres", x) ∷ []) ≡ some y → x ≡ y
unfolding Dict.get
only kind x y h = elim (Bool-cases (str_eq "postgres" kind)) [
  | inl same ↦ cc (rw same at h)
  | inr other ↦ cc (rw other at h)
]

two_connections-IsQuiet : IsQuiet length InFlight two_connections executors
two_connections-IsQuiet = record {
  store = λ k w. refl;
  secrets = λ ref source_id tenant_id w. refl;
  create = λ kind f details fields w known.
      subst
        (λ x.
          let made = x.create details fields fallback w in
          (length made.1 ≡ length w) × Built length InFlight details.source_id made.0 made.1)
        (only kind factory f known) (refl, pool_for-IsPool details.source_id);
  describe = λ kind e sql ctx h s known valid lent.
      subst (λ x. HoldsFor counts h (length s.world) (x.describe sql ctx h s).1)
        (only kind failing e known) (refl, valid, lent);
  execute = λ kind e sql ctx h s known valid lent.
      subst (λ x. HoldsFor counts h (length s.world) (x.execute sql ctx h s).1)
        (only kind failing e known) (refl, valid, lent);
}

abbrev engine : Router ℕ ℕ ℕ (State World)
engine = federation two_connections executors

-- One connection of another query is out.
abbrev busy : State World
busy = record { pools = []; world = 5 ∷ [] }

busy-IsValid : counts.IsValid busy
unfolding Dict.get
busy-IsValid k pool h = cc

held_router_example :
    Holds counts 1 (Router.describe engine "a" "select 1" (context "acme" "q1") busy).1
    × Holds counts 1 (Router.execute engine "a" "select 1" (context "acme" "q1") busy).1
held_router_example =
    held_router engine counts
      (federation-IsCounted length InFlight two_connections executors two_connections-IsQuiet) "a"
      "select 1" (context "acme" "q1") busy busy-IsValid

-- The batch was yielded before the failure.
engine_yields :
    (Router.execute engine "a" "select 1" (context "acme" "q1") busy).0
    ≡ record { batches = 1 ∷ []; failure = some connection_error }
unfolding Router.execute Provider.acquire Provider.get_or_build_pool db_catalog Dict.get Dict.set
    Store.get_connection_details
engine_yields = refl

-- A provider of one shared handle, without a `release`.
abbrev shared : Router ℕ ℕ ℕ ℕ
shared = record {
  catalog = record {
    get_source = λ source_id w. (err connection_error, w);
    list_sources = λ tenant_id w. (ok [], w);
  };
  provider = record {
    acquire = λ source_id ctx w.
        (ok (record { source_id = source_id; kind = "postgres"; pooled = none }), w);
    release = none;
  };
  executors = executors;
}

abbrev none_out : Ledger ℕ
none_out = record { held = λ w. 0; size = λ h. 0; IsValid = λ w. Unit; Lent = λ h w. Unit }

shared-IsCounted : IsCounted shared none_out
unfolding safe_release
shared-IsCounted = record {
  catalog = λ source_id w valid. (refl, tt);
  acquire = λ source_id ctx w valid. (refl, tt, tt);
  release = λ h w valid lent. (refl, tt);
  describe = λ kind e sql ctx h w known valid lent. (refl, tt, tt);
  execute = λ kind e sql ctx h w known valid lent. (refl, tt, tt);
}
