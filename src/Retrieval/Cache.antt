-- ===== src/Retrieval/Cache.antt =====
-- packages/ontology-retrieval/ontology_retrieval/pipeline/cache.py: `LRUCache`. The methods hold the
-- lock from their first line to their last, so each is one step. The ordered dict is its list of
-- entries, the least recently used first. Times are whole seconds.
pub mod Latest
pub mod Recent
use nexcraft.Base.{
  ℕ, zero, ◌+◌, String, Bool, false, Option, none, some, List, [], ◌∷◌, length, ltb, if◌then◌else◌,
  Result, ok, err, value_error,
}
use nexcraft.Base.Dict
use nexcraft.Base.Dict.{Dict}

-- A value with the time at which it expires, if it does.
abbrev pub Entry : Type 0 → Type 0
Entry V = Option ℕ × V

pub record LruCache (V : Type 0) : Type 0 where
  pub max : ℕ
  pub store : Dict (Entry V)

-- `expires_at is not None and time.monotonic() > expires_at`
abbrev pub is_expired : ℕ → Option ℕ → Bool
is_expired now none = false
is_expired now (some expires_at) = ltb expires_at now

abbrev pub expires_at : ℕ → Option ℕ → Option ℕ
expires_at now none = none
expires_at now (some ttl_seconds) = some (now + ttl_seconds)

-- `popitem(last=False)` while there are more than `max`.
pub trim {ℓ} : {A : Type ℓ} → ℕ → List A → List A
trim max [] = []
trim max (x ∷ xs) = let rest = trim max xs in if ltb max (length (x ∷ xs)) then rest else x ∷ xs

module _ {V : Type 0} where
  -- The constructor, for `max_entries`.
  unfoldable pub new_cache : ℕ → Result (LruCache V)
  new_cache zero = err value_error
  new_cache max = ok (record { max = max; store = [] })

  move_found : String → Option (Entry V) → Dict (Entry V) → Dict (Entry V)
  move_found key none d = d
  move_found key (some item) d = Dict.set key item (Dict.pop key d)

  pub move_to_end : String → Dict (Entry V) → Dict (Entry V)
  unfolding move_found
  move_to_end key d = move_found key (Dict.get key d) d

  get_found : String → ℕ → LruCache V → Option (Entry V) → Option V × LruCache V
  unfolding move_to_end
  get_found key now c none = (none, c)
  get_found key now c (some (expires, value)) =
      if is_expired now expires
      then (none, record c { store = Dict.pop key c.store })
      else (some value, record c { store = move_to_end key c.store })

  unfoldable pub get : String → ℕ → LruCache V → Option V × LruCache V
  unfolding get_found
  get key now c = get_found key now c (Dict.get key c.store)

  without : String → Dict (Entry V) → Dict (Entry V)
  without key d = if Dict.contains key d then Dict.pop key d else d

  unfoldable pub set : String → V → Option ℕ → ℕ → LruCache V → LruCache V
  unfolding without move_to_end trim
  set key value ttl_seconds now c =
      let stored = Dict.set key (expires_at now ttl_seconds, value) (without key c.store) in
      record c { store = trim c.max (move_to_end key stored) }

  unfoldable pub delete : String → LruCache V → LruCache V
  delete key c = record c { store = Dict.pop key c.store }

  unfoldable pub clear : LruCache V → LruCache V
  clear c = record c { store = [] }

-- A call of a method, with the time at which it runs.
pub data Call (V : Type 0) : Type 0 where
  get_at : String → ℕ → Call V
  set_at : String → V → Option ℕ → ℕ → Call V
  delete_at : String → Call V
  clear_all : Call V

module _ {V : Type 0} where
  pub after : LruCache V → Call V → LruCache V
  unfolding get set delete clear
  after c (get_at key now) = (get key now c).1
  after c (set_at key value ttl now) = set key value ttl now c
  after c (delete_at key) = delete key c
  after c clear_all = clear c

  unfoldable pub after_all : LruCache V → List (Call V) → LruCache V
  unfolding after
  after_all c [] = c
  after_all c (call ∷ calls) = after_all (after c call) calls
