-- ===== src/Base/Dict.antt =====
-- A Python dict with text keys, as the list of its entries in insertion order. `get` is
-- `d.get(k)`, `set` is `d[k] = v` (in place for a key that is there, else at the end), `pop` is
-- `d.pop(k, None)`.
use Prim.Native.Nat.{◌≤◌}
use Prim.Native.String.{String}
use mathlib.Core.Path.{◌≡◌, refl}
use mathlib.Core.Logic.{inl, inr}
use mathlib.Core.Bool.{Bool, true, false, not, ◌&&◌, ◌||◌}
use mathlib.Core.Option.{Option, none, some}
use mathlib.Core.List.{List, [], ◌∷◌, ◌++◌}
use native.Mathlib.Omega.{arith}
use text.Mathlib.TextEquality.{eq_iff}
use nexcraft.Base.Tests.{str_eq, Bool-cases, if◌then◌else◌}
use nexcraft.Base.Lists.{length}

abbrev pub Dict {ℓ} : Type ℓ → Type ℓ
Dict V = List (String × V)

module _ {ℓ} {V : Type ℓ} where
  unfoldable pub get : String → Dict V → Option V
  get k [] = none
  get k ((j, v) ∷ d) = if str_eq j k then some v else get k d

  unfoldable pub set : String → V → Dict V → Dict V
  set k v [] = (k, v) ∷ []
  set k v ((j, w) ∷ d) = if str_eq j k then (k, v) ∷ d else (j, w) ∷ set k v d

  unfoldable pub pop : String → Dict V → Dict V
  pop k [] = []
  pop k ((j, v) ∷ d) = let rest = pop k d in if str_eq j k then rest else (j, v) ∷ rest

  -- `k in d`
  unfoldable pub contains : String → Dict V → Bool
  contains k [] = false
  contains k ((j, v) ∷ d) = str_eq j k || contains k d

  unfoldable pub values : Dict V → List V
  values [] = []
  values ((j, v) ∷ d) = v ∷ values d

  -- A change of every value.
  unfoldable pub map_values : (V → V) → Dict V → Dict V
  map_values f [] = []
  map_values f ((j, v) ∷ d) = (j, f v) ∷ map_values f d

  -- No key stands twice.
  abbrev pub IsUnique : Dict V → Type 0
  IsUnique [] = Unit
  IsUnique ((j, v) ∷ d) = (contains j d ≡ false) × IsUnique d

  pub get-set :
      (k j : String) (v : V) (d : Dict V)
      → get j (set k v d) ≡ (if str_eq k j then some v else get j d)
  unfolding get set
  get-set k j v [] = refl
  get-set k j v ((i, w) ∷ d) = ground (arith, eq_iff k j, eq_iff i k, eq_iff i j, get-set k j v d)

  pub get-map_values :
      (k : String) (f : V → V) (d : Dict V)
      → get k (map_values f d) ≡ (elim (get k d) [ none ↦ none | some v ↦ some (f v) ])
  unfolding get map_values
  get-map_values k f [] = refl
  get-map_values k f ((j, v) ∷ d) = ground (arith, get-map_values k f d)

  pub get-pop :
      (k j : String) (d : Dict V) → get j (pop k d) ≡ (if str_eq k j then none else get j d)
  unfolding get pop
  get-pop k j [] = ground arith
  get-pop k j ((i, w) ∷ d) = ground (arith, eq_iff k j, eq_iff i k, eq_iff i j, get-pop k j d)

  pub contains-set :
      (k j : String) (v : V) (d : Dict V) → contains j (set k v d) ≡ (str_eq k j || contains j d)
  unfolding contains set
  contains-set k j v [] = refl
  contains-set k j v ((i, w) ∷ d) =
      ground (arith, eq_iff k j, eq_iff i k, eq_iff i j, contains-set k j v d)

  pub contains-pop :
      (k j : String) (d : Dict V) → contains j (pop k d) ≡ (not (str_eq k j) && contains j d)
  unfolding contains pop
  contains-pop k j [] = ground arith
  contains-pop k j ((i, w) ∷ d) =
      ground (arith, eq_iff k j, eq_iff i k, eq_iff i j, contains-pop k j d)

  pub get-contains : (k : String) (d : Dict V) → contains k d ≡ false → get k d ≡ none
  unfolding get contains
  get-contains k [] h = refl
  get-contains k ((i, w) ∷ d) h = ground (arith, get-contains k d)

  pub contains-get : (k : String) (d : Dict V) → get k d ≡ none → contains k d ≡ false
  unfolding get contains
  contains-get k [] h = refl
  contains-get k ((i, w) ∷ d) h = ground (arith, contains-get k d)

  pub contains_of_get : (k : String) (d : Dict V) (v : V) → get k d ≡ some v → contains k d ≡ true
  unfolding get contains
  contains_of_get k [] v h = cc
  contains_of_get k ((i, w) ∷ d) v h = ground (arith, contains_of_get k d v)

  pub set-IsUnique : (k : String) (v : V) (d : Dict V) → IsUnique d → IsUnique (set k v d)
  unfolding set
  set-IsUnique k v [] h = (unfold contains in refl, tt)
  set-IsUnique k v ((i, w) ∷ d) h = elim (Bool-cases (str_eq i k)) [
    | inl same ↦ rw same (rw (← (eq_iff i k).0 same) h)
    | inr other ↦
        rw other
          (ground (arith, eq_iff i k, eq_iff k i, contains-set k i v d), set-IsUnique k v d h.1)
  ]

  pub pop-IsUnique : (k : String) (d : Dict V) → IsUnique d → IsUnique (pop k d)
  unfolding pop
  pop-IsUnique k [] h = tt
  pop-IsUnique k ((i, w) ∷ d) h = elim (Bool-cases (str_eq i k)) [
    | inl same ↦ rw same (pop-IsUnique k d h.1)
    | inr other ↦ rw other (ground (arith, contains-pop k i d), pop-IsUnique k d h.1)
  ]

  pub length-pop-le : (k : String) (d : Dict V) → length (pop k d) ≤ length d
  unfolding pop
  length-pop-le k [] = omega arith
  length-pop-le k ((i, w) ∷ d) = ground (arith, length-pop-le k d)

  pub pop_absent : (k : String) (d : Dict V) → contains k d ≡ false → pop k d ≡ d
  unfolding pop contains
  pop_absent k [] h = refl
  pop_absent k ((i, w) ∷ d) h = ground (arith, pop_absent k d)

  pub set_absent :
      (k : String) (v : V) (d : Dict V) → contains k d ≡ false → set k v d ≡ d ++ (k, v) ∷ []
  unfolding set contains
  set_absent k v [] h = refl
  set_absent k v ((i, w) ∷ d) h = ground (arith, set_absent k v d)

  pub get-append : (k : String) (d e : Dict V) → contains k d ≡ false → get k (d ++ e) ≡ get k e
  unfolding get contains
  get-append k [] e h = refl
  get-append k ((i, w) ∷ d) e h = ground (arith, get-append k d e)
