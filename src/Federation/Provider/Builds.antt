-- ===== src/Federation/Provider/Builds.antt =====
-- `_get_or_build_pool` of connection/pooled.py by any number of tasks at once. Between two awaits a
-- task runs alone, so a schedule is a list of turns. A task waits for the guard and the lock of its
-- source as one, since nothing is awaited under the guard; the lock may go to any waiting task. A
-- pool is the number that identifies it.
pub mod Once
use nexcraft.Base.{
  ℕ, String, Option, none, some, List, [], ◌∷◌, ◌++◌, Bool, str_eq, ◌==◌, if◌then◌else◌,
}
use nexcraft.Base.Dict
use nexcraft.Base.Dict.{Dict}

-- Where a task stands: not started, waiting for the lock, in the factory, done.
pub data Phase : Type 0 where
  idle waiting building raised : Phase
  returned : ℕ → Phase

pub record Builds : Type 0 where
  pub pools : Dict ℕ
  -- the task that holds the lock of a source
  pub holder : String → Option ℕ
  pub phase : ℕ → Phase
  -- every pool that a factory made, in order
  pub created : Dict ℕ

abbrev pub start : Builds
start = record { pools = []; holder = λ k. none; phase = λ t. idle; created = [] }

abbrev pub enter : ℕ → Phase → (ℕ → Phase) → ℕ → Phase
enter t p f u = if u == t then p else f u

abbrev pub hold : String → Option ℕ → (String → Option ℕ) → String → Option ℕ
hold k o f j = if str_eq k j then o else f j

-- The check before the lock.
look : Builds → ℕ → Option ℕ → Builds
look s t (some pool) = record s { phase = enter t (returned pool) s.phase }
look s t none = record s { phase = enter t waiting s.phase }

-- The check under the lock. A task that finds the pool gives the lock back in the same turn.
look_again : Builds → ℕ → String → Option ℕ → Builds
look_again s t k (some pool) = record s { phase = enter t (returned pool) s.phase }
look_again s t k none = record s {
  phase = enter t building s.phase;
  holder = hold k (some t) s.holder;
}

lock : Builds → ℕ → String → Option ℕ → Builds
unfolding look_again
lock s t k (some other) = s
lock s t k none = look_again s t k (Dict.get k s.pools)

-- The resolver and the factory returned a pool, or one of them raised.
finish : Builds → ℕ → String → Option ℕ → Builds
finish s t k (some pool) = record {
  pools = Dict.set k pool s.pools;
  holder = hold k none s.holder;
  phase = enter t (returned pool) s.phase;
  created = s.created ++ (k, pool) ∷ [];
}
finish s t k none = record s { holder = hold k none s.holder; phase = enter t raised s.phase }

at_phase : Builds → ℕ → String → Option ℕ → Phase → Builds
unfolding look lock finish
at_phase s t k outcome idle = look s t (Dict.get k s.pools)
at_phase s t k outcome waiting = lock s t k (s.holder k)
at_phase s t k outcome building = finish s t k outcome
at_phase s t k outcome (returned pool) = s
at_phase s t k outcome raised = s

-- A turn of task `t`, which asks for the source `source t`; `outcome` is what the factory gives if
-- it is called in this turn.
pub turn : (ℕ → String) → Builds → ℕ → Option ℕ → Builds
unfolding at_phase
turn source s t outcome = at_phase s t (source t) outcome (s.phase t)

unfoldable pub run : (ℕ → String) → Builds → List (ℕ × Option ℕ) → Builds
unfolding turn
run source s [] = s
run source s ((t, outcome) ∷ rest) = run source (turn source s t outcome) rest
