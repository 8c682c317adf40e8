-- ===== src/Federation/Sizing.antt =====
-- packages/nexcraft/nexcraft/connection/pool_config.py: the sizing of pools. Times are whole
-- milliseconds. The reading of a YAML file is not modelled.
use nexcraft.Base.{ℕ, String, Option, none, some, []}
use nexcraft.Base.Dict
use nexcraft.Base.Dict.{Dict}

pub record PoolConfig (V : Type 0) : Type 0 where
  pub min_size : ℕ
  pub max_size : ℕ
  pub acquire_timeout : ℕ
  pub idle_timeout : Option ℕ
  pub max_lifetime : Option ℕ
  pub extras : Dict V

-- `PoolConfig()`
abbrev pub fallback : {V : Type 0} → PoolConfig V
fallback = record {
  min_size = 1;
  max_size = 5;
  acquire_timeout = 5000;
  idle_timeout = none;
  max_lifetime = none;
  extras = [];
}

pub record StaticPoolConfig (V : Type 0) : Type 0 where
  pub defaults : Dict (PoolConfig V)
  pub overrides : Dict (PoolConfig V)

module _ {V : Type 0} where
  or_default : Option (PoolConfig V) → Option (PoolConfig V) → PoolConfig V
  or_default (some c) d = c
  or_default none (some d) = d
  or_default none none = fallback

  -- `StaticPoolConfig.get`
  unfoldable pub sizing : StaticPoolConfig V → String → String → PoolConfig V
  unfolding or_default
  sizing c kind source_id = or_default (Dict.get source_id c.overrides) (Dict.get kind c.defaults)
