-- ===== src/Federation/Tests/Pools.antt =====
-- The theorems about the pooled provider at the engine of the tests.
use nexcraft.Base.{
  ℕ, Option, ◌≡◌, refl, none, some, List, [], ◌∷◌, arith, ok, err, All, any, true, ◌==◌,
  connection_error,
}
use nexcraft.Base.Dict
use nexcraft.Federation.Core.{context, ConnectionDetails, ConnectionHandle}
use nexcraft.Federation.Store
use nexcraft.Federation.Provider
use nexcraft.Federation.Provider.{DriverPool, State}
use nexcraft.Federation.Provider.Acquire.{acquire_tenant, get_or_build_pool_reuse}
use nexcraft.Federation.Provider.Close.{Closing, close-All}
use nexcraft.Federation.Provider.Builds.{returned, start, run}
use nexcraft.Federation.Provider.Builds.Once.{created-run}
use nexcraft.Federation.Tests.{row, pool, settings, by_id}

abbrev empty : State ℕ
empty = record { pools = []; world = 0 }

abbrev first_handle : ConnectionHandle
first_handle = record {
  source_id = "a";
  kind = "postgres";
  pooled = some (record { raw = 0; pool_id = "a" });
}

acquire_tenant_example :
    (details : ConnectionDetails ℕ) × (Store.get_connection_details by_id "a" ≡ ok details)
    × (details.tenant_id ≡ "acme")
unfolding Provider.acquire Provider.get_or_build_pool Store.get_connection_details Dict.get Dict.set
acquire_tenant_example =
    acquire_tenant settings "a" (context "acme" "q1") empty {handle = first_handle} refl

-- After the first call for "a".
abbrev warm : State ℕ
warm = (Provider.get_or_build_pool settings (row "a" "acme") empty).1

-- The row of "a" was since given to another tenant.
get_or_build_pool_example :
    Provider.get_or_build_pool settings (row "a" "globex") warm ≡ (ok pool, warm)
get_or_build_pool_example =
    get_or_build_pool_reuse settings (row "a" "acme") (row "a" "globex") empty warm
      (unfold Provider.get_or_build_pool Dict.get Dict.set in refl) refl refl

abbrev started : State ℕ
started = record { pools = ("a", pool) ∷ []; world = 0 }

-- A pool whose `close` writes its number into the world and raises.
abbrev numbered : ℕ → DriverPool (List ℕ)
numbered n = record {
  kind = "postgres";
  acquire = λ ctx w. (err connection_error, w);
  release = λ handle w. (ok tt, w);
  close = λ w. (err connection_error, n ∷ w);
}

abbrev IsNumbered : DriverPool (List ℕ) → Type 0
IsNumbered p = (n : ℕ) × (p ≡ numbered n)

abbrev IsWritten : DriverPool (List ℕ) → List ℕ → Type 0
IsWritten p w = (n : ℕ) × (p ≡ numbered n) × (any (λ x. x == n) w ≡ true)

IsNumbered-Closing : Closing IsNumbered IsWritten
IsNumbered-Closing = record {
  closes = λ p w made. (made.0, made.1, rw made.1 (ground arith));
  stays = λ p q w (m, made) (n, same, written). (n, same, rw made (ground (arith, written)));
}

abbrev two_pools : State (List ℕ)
two_pools = record { pools = ("a", numbered 1) ∷ ("g", numbered 2) ∷ []; world = [] }

close_example :
    ((Provider.close two_pools).pools ≡ [])
    × All (λ p. IsWritten p (Provider.close two_pools).world) (Dict.values two_pools.pools)
unfolding Dict.values
close_example =
    close-All IsNumbered IsWritten IsNumbered-Closing two_pools ((1, refl), ((2, refl), tt))

-- Two tasks ask for "a" at once, and the first factory call raises.
abbrev race : List (ℕ × Option ℕ)
race =
    (0, none)
    ∷ (1, none)
    ∷ (0, none)
    ∷ (1, none)
    ∷ (0, none)
    ∷ (1, none)
    ∷ (2, none)
    ∷ (1, some 7)
    ∷ (2, none)
    ∷ []

created-run_example :
    Dict.IsUnique (run (λ t. "a") start race).created
    × ((run (λ t. "a") start race).created ≡ (run (λ t. "a") start race).pools)
    × ((t n : ℕ)
        → (run (λ u. "a") start race).phase t ≡ returned n
        → Dict.get "a" (run (λ u. "a") start race).pools ≡ some n)
created-run_example = created-run (λ t. "a") race

race-run : (run (λ t. "a") start race).created ≡ ("a", 7) ∷ []
unfolding run Dict.get Dict.set
race-run = refl
