-- ===== src/Retrieval/Tests.antt =====
-- Tests of the cache with room for two entries, and the theorems about it there.
use nexcraft.Base.{ℕ, ◌≤◌, ◌≡◌, refl, false, none, some, List, [], ◌∷◌, length, arith, Option}
use nexcraft.Base.Dict
use nexcraft.Base.Dict.{IsUnique}
use nexcraft.Retrieval.Metrics.{recall_at_k}
use nexcraft.Retrieval.Cache.{Call, get_at, set_at, is_expired, get, set, after_all}
use nexcraft.Retrieval.Cache.Latest.{empty, all_remembered, after_all-IsUnique, get-after_all}
use nexcraft.Retrieval.Cache.Recent.{get-set_recent}

-- "a" is used before "c" comes, so "b" has to go.
abbrev calls : List (Call ℕ)
calls = set_at "a" 1 none 0 ∷ set_at "b" 2 (some 5) 1 ∷ get_at "a" 2 ∷ set_at "c" 3 (some 5) 3 ∷ []

keys-calls : (after_all (empty 2) calls).store ≡ ("a", (none, 1)) ∷ ("c", (some 8, 3)) ∷ []
unfolding after_all get set Dict.get Dict.set Dict.pop Dict.contains
keys-calls = refl

after_all_example :
    (length (after_all (empty 2) calls).store ≤ 2) × IsUnique (after_all (empty 2) calls).store
after_all_example = after_all-IsUnique 2 calls

hit_example :
    (expires : Option ℕ) × (all_remembered (λ j. none) calls "c" ≡ some (expires, 3))
    × (is_expired 8 expires ≡ false)
unfolding after_all get set Dict.get Dict.set Dict.pop Dict.contains
hit_example = get-after_all 2 calls "c" 8 refl

recent_example :
    (get "d" 9 (after_all (set "d" 4 (some 5) 4 (after_all (empty 2) calls)) (get_at "c" 5 ∷ []))).0
    ≡ some 4
unfolding after_all get set Dict.get Dict.set Dict.pop Dict.contains
recent_example =
    get-set_recent "d" 4 (some 5) 4 9 (after_all (empty 2) calls) (get_at "c" 5 ∷ []) (refl, tt)
      (omega arith) refl

-- A relevant item that is retrieved twice counts twice: a recall of two.
recall_of_repeated : recall_at_k ("a" ∷ "a" ∷ []) ("a" ∷ []) 2 ≡ record { num = 2; den = 1 }
unfolding recall_at_k
recall_of_repeated = refl
