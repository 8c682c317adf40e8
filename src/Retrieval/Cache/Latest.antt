-- ===== src/Retrieval/Cache/Latest.antt =====
-- The cache against a map that never forgets: a hit is the value that was set last and is not
-- expired, and the cache stays within its size.
use nexcraft.Base.{
  ℕ, suc, ◌≤◌, ◌≡◌, refl, sym, ◌∙◌, String, false, Option, none, some, List, [], ◌∷◌, length, ltb,
  str_eq, arith, eq_iff, if◌then◌else◌, Bool-cases, Option-cases, inl, inr,
}
use nexcraft.Base.Dict
use nexcraft.Base.Dict.{
  Dict, IsUnique, set-IsUnique, pop-IsUnique, get-set, get-pop, get-contains, length-pop-le,
}
use nexcraft.Retrieval.Cache.{
  Entry, LruCache, is_expired, expires_at, trim, move_found, move_to_end, get_found, get, without,
  set, delete, clear, Call, get_at, set_at, delete_at, clear_all, after, after_all,
}

length-trim {ℓ} : {A : Type ℓ} (n : ℕ) (xs : List A) → length (trim n xs) ≤ n
unfolding trim
length-trim n [] = omega arith
length-trim n (x ∷ xs) = ground (arith, length-trim n xs)

abbrev pub Map : Type 0 → Type 0
Map V = String → Option (Entry V)

module _ {V : Type 0} where
  -- The map after a call.
  pub remembered : Map V → Call V → Map V
  remembered m (get_at key now) j = m j
  remembered m (set_at key value ttl now) j =
      if str_eq key j then some (expires_at now ttl, value) else m j
  remembered m (delete_at key) j = if str_eq key j then none else m j
  remembered m clear_all j = none

  pub all_remembered : Map V → List (Call V) → Map V
  unfolding remembered
  all_remembered m [] = m
  all_remembered m (call ∷ calls) = all_remembered (remembered m call) calls

  pub record IsSound (m : Map V) (max : ℕ) (d : Dict (Entry V)) : Type 0 where
    pub unique : IsUnique d
    pub bounded : length d ≤ max
    pub agrees : (j : String) (item : Entry V) → Dict.get j d ≡ some item → m j ≡ some item

  trim-IsUnique : (n : ℕ) (d : Dict (Entry V)) → IsUnique d → IsUnique (trim n d)
  unfolding trim
  trim-IsUnique n [] u = tt
  trim-IsUnique n (x ∷ d) u = elim (Bool-cases (ltb n (length (x ∷ d)))) [
    | inl over ↦ rw over (trim-IsUnique n d u.1)
    | inr fits ↦ rw fits u
  ]

  get-trim :
      (n : ℕ) (d : Dict (Entry V)) (j : String) (item : Entry V)
      → IsUnique d
      → Dict.get j (trim n d) ≡ some item
      → Dict.get j d ≡ some item
  unfolding trim Dict.get
  get-trim n [] j item u h = h
  get-trim n ((k, w) ∷ d) j item u h = elim (Bool-cases (ltb n (length ((k, w) ∷ d)))) [
    | inl over ↦
        let rest = get-trim n d j item u.1 (rw over at h) in
        ground (arith, eq_iff k j, get-contains k d, rest)
    | inr fits ↦ rw fits at h
  ]

  get-move_to_end :
      (k j : String) (d : Dict (Entry V)) → Dict.get j (move_to_end k d) ≡ Dict.get j d
  unfolding move_to_end
  get-move_to_end k j d = elim (Option-cases (Dict.get k d)) [
    | inl absent ↦ rw absent (unfold move_found in refl)
    | inr (item, found) ↦ rw found (
        unfold move_found in
        ground (arith, eq_iff k j, get-set k j item (Dict.pop k d), get-pop k j d))
  ]

  move_to_end-IsUnique : (k : String) (d : Dict (Entry V)) → IsUnique d → IsUnique (move_to_end k d)
  unfolding move_to_end
  move_to_end-IsUnique k d u = elim (Option-cases (Dict.get k d)) [
    | inl absent ↦ rw absent (unfold move_found in u)
    | inr (item, found) ↦
        rw found (unfold move_found in set-IsUnique k item (Dict.pop k d) (pop-IsUnique k d u))
  ]

  length-set-le :
      (k : String) (item : Entry V) (d : Dict (Entry V))
      → length (Dict.set k item d) ≤ suc (length d)
  unfolding Dict.set
  length-set-le k item [] = omega arith
  length-set-le k item ((j, w) ∷ d) = ground (arith, length-set-le k item d)

  length-pop-lt :
      (k : String) (d : Dict (Entry V)) {item : Entry V}
      → Dict.get k d ≡ some item
      → suc (length (Dict.pop k d)) ≤ length d
  unfolding Dict.pop Dict.get
  length-pop-lt k [] h = cc
  length-pop-lt k ((j, w) ∷ d) h = elim (Bool-cases (str_eq j k)) [
    | inl same ↦ rw same (omega (arith, length-pop-le k d))
    | inr other ↦ rw other (omega (arith, length-pop-lt k d (rw other at h)))
  ]

  length-move_to_end : (k : String) (d : Dict (Entry V)) → length (move_to_end k d) ≤ length d
  unfolding move_to_end
  length-move_to_end k d = elim (Option-cases (Dict.get k d)) [
    | inl absent ↦ rw absent (unfold move_found in omega arith)
    | inr (item, found) ↦ rw found (
        unfold move_found in
        omega (arith, length-set-le k item (Dict.pop k d), length-pop-lt k d found))
  ]

  pop-IsSound :
      (m : Map V) (max : ℕ) (d : Dict (Entry V)) (k : String)
      → IsSound m max d
      → IsSound m max (Dict.pop k d)
  pop-IsSound m max d k h = record {
    unique = pop-IsUnique k d h.unique;
    bounded = omega (arith, h.bounded, length-pop-le k d);
    agrees = λ j item e. ground (arith, h.agrees j item, get-pop k j d);
  }

  move_to_end-IsSound :
      (m : Map V) (max : ℕ) (d : Dict (Entry V)) (k : String)
      → IsSound m max d
      → IsSound m max (move_to_end k d)
  move_to_end-IsSound m max d k h = record {
    unique = move_to_end-IsUnique k d h.unique;
    bounded = omega (arith, h.bounded, length-move_to_end k d);
    agrees = λ j item e. h.agrees j item (sym (get-move_to_end k j d) ∙ e);
  }

  get-IsSound :
      (m : Map V) (c : LruCache V) (key : String) (now : ℕ) (o : Option (Entry V))
      → IsSound m c.max c.store
      → (IsSound m c.max (get_found key now c o).1.store) × ((get_found key now c o).1.max ≡ c.max)
  unfolding get_found
  get-IsSound m c key now none h = (h, refl)
  get-IsSound m c key now (some (expires, value)) h = elim (Bool-cases (is_expired now expires)) [
    | inl old ↦ rw old (pop-IsSound m c.max c.store key h, refl)
    | inr fresh ↦ rw fresh (move_to_end-IsSound m c.max c.store key h, refl)
  ]

  without-IsUnique : (key : String) (d : Dict (Entry V)) → IsUnique d → IsUnique (without key d)
  unfolding without
  without-IsUnique key d u = elim (Bool-cases (Dict.contains key d)) [
    | inl there ↦ rw there (pop-IsUnique key d u)
    | inr absent ↦ rw absent u
  ]

  get-without :
      (key j : String) (d : Dict (Entry V))
      → str_eq key j ≡ false
      → Dict.get j (without key d) ≡ Dict.get j d
  unfolding without
  get-without key j d other = elim (Bool-cases (Dict.contains key d)) [
    | inl there ↦ rw there (get-pop key j d ∙ rw other refl)
    | inr absent ↦ rw absent refl
  ]

  set-IsSound :
      (m : Map V) (c : LruCache V) (key : String) (value : V) (ttl : Option ℕ) (now : ℕ)
      → IsSound m c.max c.store
      → IsSound (remembered m (set_at key value ttl now)) c.max (set key value ttl now c).store
  unfolding set remembered
  set-IsSound m c key value ttl now h =
      let d = Dict.set key (expires_at now ttl, value) (without key c.store) in
      let moved = move_to_end key d in
      let u =
        move_to_end-IsUnique key d (set-IsUnique key _ _ (without-IsUnique key c.store h.unique)) in
      record {
        unique = trim-IsUnique c.max moved u;
        bounded = length-trim c.max moved;
        agrees = λ j item e.
            let k = sym (get-move_to_end key j d) ∙ get-trim c.max moved j item u e in
            ground (
              arith,
              h.agrees j item,
              get-without key j c.store,
              get-set key j (expires_at now ttl, value) (without key c.store),
              k,
            );
      }

  no_entry : (m : Map V) (j : String) {item : Entry V} → Dict.get j [] ≡ some item → m j ≡ some item
  unfolding Dict.get
  no_entry m j e = cc

  after-IsSound :
      (m : Map V) (c : LruCache V) (call : Call V)
      → IsSound m c.max c.store
      → IsSound (remembered m call) (after c call).max (after c call).store
  unfolding after remembered get delete clear set
  after-IsSound m c (get_at key now) h =
      let (sound, same) = get-IsSound m c key now (Dict.get key c.store) h in rw same sound
  after-IsSound m c (set_at key value ttl now) h = set-IsSound m c key value ttl now h
  after-IsSound m c (delete_at key) h = record {
    unique = pop-IsUnique key c.store h.unique;
    bounded = omega (arith, h.bounded, length-pop-le key c.store);
    agrees = λ j item e. ground (arith, h.agrees j item, get-pop key j c.store);
  }
  after-IsSound m c clear_all h = record {
    unique = tt;
    bounded = omega arith;
    agrees = λ j item e. no_entry (λ k. none) j e;
  }

  after_all-IsSound :
      (m : Map V) (c : LruCache V) (calls : List (Call V))
      → IsSound m c.max c.store
      → IsSound (all_remembered m calls) (after_all c calls).max (after_all c calls).store
  unfolding after_all all_remembered
  after_all-IsSound m c [] h = h
  after_all-IsSound m c (call ∷ calls) h =
      after_all-IsSound (remembered m call) (after c call) calls (after-IsSound m c call h)

  max-get_found :
      (key : String) (now : ℕ) (c : LruCache V) (o : Option (Entry V))
      → (get_found key now c o).1.max ≡ c.max
  unfolding get_found
  max-get_found key now c none = refl
  max-get_found key now c (some (expires, value)) = ground arith

  pub max-after : (c : LruCache V) (call : Call V) → (after c call).max ≡ c.max
  unfolding after get set delete clear
  max-after c (get_at key now) = max-get_found key now c (Dict.get key c.store)
  max-after c (set_at key value ttl now) = refl
  max-after c (delete_at key) = refl
  max-after c clear_all = refl

  max-after_all : (c : LruCache V) (calls : List (Call V)) → (after_all c calls).max ≡ c.max
  unfolding after_all
  max-after_all c [] = refl
  max-after_all c (call ∷ calls) = max-after_all (after c call) calls ∙ max-after c call

  abbrev pub empty : ℕ → LruCache V
  empty max = record { max = max; store = [] }

  empty-IsSound : (max : ℕ) → IsSound (λ j. none) max []
  empty-IsSound max = record {
    unique = tt;
    bounded = omega arith;
    agrees = λ j item e. no_entry (λ k. none) j e;
  }

  -- After any calls on a new cache, it holds at most `max_entries` entries, and no key twice.
  pub after_all-IsUnique :
      (max : ℕ) (calls : List (Call V))
      → (length (after_all (empty max) calls).store ≤ max)
        × IsUnique (after_all (empty max) calls).store
  after_all-IsUnique max calls =
      let h = after_all-IsSound (λ j. none) (empty max) calls (empty-IsSound max) in
      (omega (arith, h.bounded, max-after_all (empty max) calls), h.unique)

  hit-get_found :
      (key : String) (now : ℕ) (c : LruCache V) (o : Option (Entry V)) {value : V}
      → (get_found key now c o).0 ≡ some value
      → (expires : Option ℕ) × (o ≡ some (expires, value)) × (is_expired now expires ≡ false)
  unfolding get_found
  hit-get_found key now c none h = cc
  hit-get_found key now c (some (expires, v)) h = elim (Bool-cases (is_expired now expires)) [
    | inl old ↦ absurd (ground arith)
    | inr fresh ↦ (expires, ground arith, fresh)
  ]

  -- After any calls on a new cache, a hit is the value of the last `set` of its key, with no `delete`
  -- of the key and no `clear` since, and its time is not over.
  pub get-after_all :
      (max : ℕ) (calls : List (Call V)) (key : String) (now : ℕ) {value : V}
      → (get key now (after_all (empty max) calls)).0 ≡ some value
      → (expires : Option ℕ) × (all_remembered (λ j. none) calls key ≡ some (expires, value))
        × (is_expired now expires ≡ false)
  unfolding get
  get-after_all max calls key now h =
      let c = after_all (empty max) calls in
      let sound = after_all-IsSound (λ j. none) (empty max) calls (empty-IsSound max) in
      let (expires, found, fresh) = hit-get_found key now c (Dict.get key c.store) h in
      (expires, sound.agrees key (expires, _) found, fresh)
