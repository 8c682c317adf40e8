-- ===== src/Retrieval/Cache/Recent.antt =====
-- What was used last is evicted last: an entry survives as long as fewer calls for other keys follow
-- than the cache has room for.
use nexcraft.Base.{
  ℕ, suc, ◌+◌, ◌≤◌, ◌<◌, ◌≡◌, refl, sym, ap, ◌∙◌, String, false, Option, none, some, List, [], ◌∷◌,
  ◌++◌, length, ltb, str_eq, arith, eq_iff, eq_refl, if◌then◌else◌, Bool-cases, inl, inr, All,
  length-append,
}
use nexcraft.Base.Dict
use nexcraft.Base.Dict.{
  Dict, IsUnique, get-set, get-pop, get-contains, contains-get, contains-pop, length-pop-le,
  pop_absent, set_absent, get-append,
}
use nexcraft.Retrieval.Cache.Latest.{max-after}
use nexcraft.Retrieval.Cache.{
  Entry, LruCache, is_expired, expires_at, trim, move_found, move_to_end, get_found, get, without,
  set, delete, Call, get_at, set_at, delete_at, clear_all, after, after_all,
}

module _ {V : Type 0} where
  -- How many entries are younger than the one of a key.
  behind : String → Dict (Entry V) → ℕ
  behind k [] = 0
  behind k ((j, item) ∷ d) = if str_eq j k then length d else behind k d

  behind-pop :
      (k j : String) (d : Dict (Entry V))
      → str_eq j k ≡ false
      → behind k (Dict.pop j d) ≤ behind k d
  unfolding behind Dict.pop
  behind-pop k j [] h = omega arith
  behind-pop k j ((i, w) ∷ d) h =
      ground (arith, behind-pop k j d h, length-pop-le j d, eq_iff i j, eq_iff i k, eq_iff j k)

  behind-append :
      (k j : String) (item : Entry V) (d : Dict (Entry V))
      → str_eq j k ≡ false
      → behind k (d ++ (j, item) ∷ []) ≤ suc (behind k d)
  unfolding behind
  behind-append k j item [] h = ground arith
  behind-append k j item ((i, w) ∷ d) h =
      ground (arith, behind-append k j item d h, length-append d ((j, item) ∷ []))

  behind_last :
      (k : String) (item : Entry V) (d : Dict (Entry V))
      → Dict.contains k d ≡ false
      → behind k (d ++ (k, item) ∷ []) ≡ 0
  unfolding behind Dict.contains
  behind_last k item [] h = ground (arith, eq_refl k)
  behind_last k item ((i, w) ∷ d) h = ground (arith, behind_last k item d)

  pop_last :
      (k : String) (item : Entry V) (d : Dict (Entry V))
      → Dict.contains k d ≡ false
      → Dict.pop k (d ++ (k, item) ∷ []) ≡ d
  unfolding Dict.pop Dict.contains
  pop_last k item [] h = ground (arith, eq_refl k)
  pop_last k item ((i, w) ∷ d) h = ground (arith, pop_last k item d)

  pop_gone : (k : String) (d : Dict (Entry V)) → Dict.contains k (Dict.pop k d) ≡ false
  pop_gone k d = ground (arith, contains-pop k k d, eq_refl k)

  get_last :
      (k : String) (item : Entry V) (d : Dict (Entry V))
      → Dict.contains k d ≡ false
      → Dict.get k (d ++ (k, item) ∷ []) ≡ some item
  get_last k item d h =
      get-append k d ((k, item) ∷ []) h ∙ (unfold Dict.get in ground (arith, eq_refl k))

  -- The entry goes to the end, where it is the youngest.
  move_to_end-eq :
      (k : String) (d : Dict (Entry V)) {item : Entry V}
      → Dict.get k d ≡ some item
      → move_to_end k d ≡ Dict.pop k d ++ (k, item) ∷ []
  unfolding move_to_end move_found
  move_to_end-eq k d {item} h = rw h (set_absent k item (Dict.pop k d) (pop_gone k d))

  without-eq : (k : String) (d : Dict (Entry V)) → without k d ≡ Dict.pop k d
  unfolding without
  without-eq k d = elim (Bool-cases (Dict.contains k d)) [
    | inl there ↦ rw there refl
    | inr absent ↦ rw absent (sym (pop_absent k d absent))
  ]

  set-eq :
      (k : String) (value : V) (ttl : Option ℕ) (now : ℕ) (c : LruCache V)
      → (set k value ttl now c).store
        ≡ trim c.max (Dict.pop k c.store ++ (k, (expires_at now ttl, value)) ∷ [])
  unfolding set
  set-eq k value ttl now c =
      let item : Entry V = (expires_at now ttl, value) in
      let d = Dict.pop k c.store in
      let gone = pop_gone k c.store in
      let stored : Dict.set k item (without k c.store) ≡ d ++ (k, item) ∷ [] =
        ap (Dict.set k item) (without-eq k c.store) ∙ set_absent k item d gone in
      ap (trim c.max) (
        ap (move_to_end k) stored
        ∙ move_to_end-eq k (d ++ (k, item) ∷ []) (get_last k item d gone)
        ∙ ap (λ e. e ++ (k, item) ∷ []) (pop_last k item d gone))

  -- An entry that has fewer younger ones than the size stays.
  trim-keeps :
      (n : ℕ) (k : String) (d : Dict (Entry V)) {item : Entry V}
      → Dict.get k d ≡ some item
      → behind k d < n
      → (Dict.get k (trim n d) ≡ some item) × (behind k (trim n d) ≤ behind k d)
  unfolding trim behind Dict.get
  trim-keeps n k [] h b = (h, omega arith)
  trim-keeps n k ((j, w) ∷ d) h b = elim (Bool-cases (ltb n (length ((j, w) ∷ d)))) [
    | inr fits ↦ rw fits (h, omega arith)
    | inl over ↦ elim (Bool-cases (str_eq j k)) [
      | inl same ↦ absurd (ground arith)
      | inr other ↦ rw (over, other) (trim-keeps n k d (rw other at h) (rw other at b))
    ]
  ]

  get-append_left :
      (k : String) (d e : Dict (Entry V)) {item : Entry V}
      → Dict.get k d ≡ some item
      → Dict.get k (d ++ e) ≡ some item
  unfolding Dict.get
  get-append_left k [] e h = cc
  get-append_left k ((j, w) ∷ d) e h = elim (Bool-cases (str_eq j k)) [
    | inl same ↦ rw same (rw same at h)
    | inr other ↦ rw other (get-append_left k d e (rw other at h))
  ]

  -- The entry of a key, with at most `n` younger ones.
  abbrev Stays : String → Entry V → ℕ → Dict (Entry V) → Type 0
  Stays k item n d = (Dict.get k d ≡ some item) × (behind k d ≤ n)

  pop-Stays :
      (k j : String) (item : Entry V) (n : ℕ) (d : Dict (Entry V))
      → str_eq j k ≡ false
      → Stays k item n d
      → Stays k item n (Dict.pop j d)
  pop-Stays k j item n d other h =
      (get-pop j k d ∙ rw other h.0, omega (arith, behind-pop k j d other, h.1))

  append-Stays :
      (k j : String) (item new : Entry V) (n : ℕ) (d : Dict (Entry V))
      → str_eq j k ≡ false
      → Stays k item n d
      → Stays k item (suc n) (Dict.pop j d ++ (j, new) ∷ [])
  append-Stays k j item new n d other h =
      let p = pop-Stays k j item n d other h in
      (
        get-append_left k (Dict.pop j d) ((j, new) ∷ []) p.0,
        omega (arith, behind-append k j new (Dict.pop j d) other, p.1),
      )

  later :
      (k : String) (item : Entry V) (n : ℕ) (d : Dict (Entry V))
      → Stays k item n d
      → Stays k item (suc n) d
  later k item n d h = (h.0, omega (arith, h.1))

  get-Stays :
      (k j : String) (item : Entry V) (n now : ℕ) (c : LruCache V) (o : Option (Entry V))
      → str_eq j k ≡ false
      → Dict.get j c.store ≡ o
      → Stays k item n c.store
      → Stays k item (suc n) (get_found j now c o).1.store
  unfolding get_found
  get-Stays k j item n now c none other e h = later k item n c.store h
  get-Stays k j item n now c (some (expires, value)) other e h =
      elim (Bool-cases (is_expired now expires)) [
        | inl old ↦
            rw old (later k item n (Dict.pop j c.store) (pop-Stays k j item n c.store other h))
        | inr fresh ↦
            rw (fresh, move_to_end-eq j c.store e)
              (append-Stays k j item (expires, value) n c.store other h)
      ]

  set-Stays :
      (k j : String) (item : Entry V) (n now : ℕ) (value : V) (ttl : Option ℕ) (c : LruCache V)
      → str_eq j k ≡ false
      → suc n < c.max
      → Stays k item n c.store
      → Stays k item (suc n) (set j value ttl now c).store
  set-Stays k j item n now value ttl c other room h =
      let stored = append-Stays k j item (expires_at now ttl, value) n c.store other h in
      let kept =
        trim-keeps c.max k (Dict.pop j c.store ++ (j, (expires_at now ttl, value)) ∷ []) stored.0
          (omega (arith, stored.1)) in
      rw (set-eq j value ttl now c) (kept.0, omega (arith, kept.1, stored.1))

  -- A call for another key.
  abbrev pub Leaves : String → Call V → Type 0
  Leaves k (get_at j now) = str_eq j k ≡ false
  Leaves k (set_at j value ttl now) = str_eq j k ≡ false
  Leaves k (delete_at j) = str_eq j k ≡ false
  Leaves k clear_all = ⊥

  after-Stays :
      (k : String) (item : Entry V) (n : ℕ) (c : LruCache V) (call : Call V)
      → Leaves k call
      → suc n < c.max
      → Stays k item n c.store
      → Stays k item (suc n) (after c call).store
  unfolding after get delete
  after-Stays k item n c (get_at j now) other room h =
      get-Stays k j item n now c (Dict.get j c.store) other refl h
  after-Stays k item n c (set_at j value ttl now) other room h =
      set-Stays k j item n now value ttl c other room h
  after-Stays k item n c (delete_at j) other room h =
      later k item n (Dict.pop j c.store) (pop-Stays k j item n c.store other h)
  after-Stays k item n c clear_all other room h = absurd other

  after_all-Stays :
      (k : String) (item : Entry V) (n : ℕ) (c : LruCache V) (calls : List (Call V))
      → All (Leaves k) calls
      → n + length calls < c.max
      → Stays k item n c.store
      → Dict.get k (after_all c calls).store ≡ some item
  unfolding after_all
  after_all-Stays k item n c [] leaves room h = h.0
  after_all-Stays k item n c (call ∷ calls) leaves room h =
      after_all-Stays k item (suc n) (after c call) calls leaves.1
        (omega (arith, room, max-after c call))
        (after-Stays k item n c call leaves.0 (omega arith) h)

  hit :
      (k : String) (now : ℕ) (c : LruCache V) (value : V) (expires : Option ℕ)
      → Dict.get k c.store ≡ some (expires, value)
      → is_expired now expires ≡ false
      → (get k now c).0 ≡ some value
  unfolding get get_found
  hit k now c value expires h fresh = rw (h, fresh) refl

  -- A value that is set is found again, if fewer calls come between than the cache has room for, all
  -- for other keys and none a `clear`, and if its time is not over.
  pub get-set_recent :
      (k : String) (value : V) (ttl : Option ℕ) (now later : ℕ) (c : LruCache V)
      (calls : List (Call V))
      → All (Leaves k) calls
      → length calls < c.max
      → is_expired later (expires_at now ttl) ≡ false
      → (get k later (after_all (set k value ttl now c) calls)).0 ≡ some value
  get-set_recent k value ttl now later c calls leaves room fresh =
      let item : Entry V = (expires_at now ttl, value) in
      let d = Dict.pop k c.store in
      let gone = pop_gone k c.store in
      let young = behind_last k item d gone in
      let kept =
        trim-keeps c.max k (d ++ (k, item) ∷ []) (get_last k item d gone) (omega (arith, young)) in
      let start : Stays k item 0 (set k value ttl now c).store =
        rw (set-eq k value ttl now c) (kept.0, omega (arith, kept.1, young)) in
      let s = set k value ttl now c in
      hit k later (after_all s calls) value (expires_at now ttl)
        (after_all-Stays k item 0 s calls leaves (unfold set in omega (arith, room)) start) fresh
