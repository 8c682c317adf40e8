-- ===== src/Spine/Stats.antt =====
-- dao/stats.py: `ColumnStatDAO`, the profile of a table and its columns. A mapping that is empty is
-- none; the counts of a batch are of the items before.
pub mod Samples
pub mod Laws
use nexcraft.Base.{
  ℕ, zero, suc, ◌+◌, String, ◌<>◌, Bool, true, false, Option, none, some, List, [], ◌∷◌, any, not,
  ◌==◌, ◌&&◌, ◌||◌, str_eq, if◌then◌else◌, Result, ok, err, value_error, keep, map, count, sort_by,
}
use Prim.Native.String.{compare}
use text.Mathlib.Text.{is_le}
use nexcraft.Base.Exec
use nexcraft.Base.Exec.{Exec}
use nexcraft.Spine.Table
use nexcraft.Spine.Table.{Table}
use nexcraft.Spine.Models.{ColumnMetadata, Session}
use nexcraft.Spine.Models.Derived.{TableStat, ColumnStat}
use nexcraft.Spine.Inferences.{or_else, or_given, text_of, audit}

-- CARDINALITY_TIERS
abbrev cardinality_tiers : List String
cardinality_tiers = "low" ∷ "medium" ∷ "high" ∷ "identifier" ∷ []

pub record ColumnAggregate (J : Type 0) : Type 0 where
  pub column_rk : String
  pub table_rk : String
  pub n_rows : ℕ
  pub null_rate : J
  pub distinct_count : Option ℕ
  pub mean : Option J
  pub std : Option J
  pub min_value : Option J
  pub max_value : Option J
  pub cardinality_tier : Option String
  pub declared_type : Option String
  pub role_hint : Option String
  pub stats_are_approximate : Bool

pub record TableSampleFacts (J : Type 0) : Type 0 where
  pub table_rk : String
  pub population_row_count : Option ℕ
  pub sample_row_count : Option ℕ
  pub source_system : Option String
  pub sample_description : Option String
  pub sample_rows : List J
  pub extra_metadata : Option J

-- The counters of `upsert_aggregates`.
pub record Counts : Type 0 where
  pub inserted : ℕ
  pub updated : ℕ
  pub skipped : ℕ

abbrev pub no_counts : Counts
no_counts = record { inserted = 0; updated = 0; skipped = 0 }

-- `x or y` for counts that may be None.
abbrev pub or_count : Option ℕ → Option ℕ → Option ℕ
or_count none y = y
or_count (some zero) y = y
or_count (some (suc n)) y = some (suc n)

abbrev is_tier : Option String → Bool
is_tier none = true
is_tier (some tier) = any (str_eq tier) cardinality_tiers

module _ {J : Type 0} where
  abbrev pub is_table : String → TableStat J → Bool
  is_table rk t = str_eq t.table_rk rk

  abbrev pub is_column : String → ColumnStat J → Bool
  is_column rk c = str_eq c.column_rk rk

  abbrev pub of_table : String → ColumnStat J → Bool
  of_table rk c = str_eq c.table_rk rk

  abbrev is_known : Session J → String → Bool
  is_known s rk = any (λ c. str_eq c.rk rk) s.columns.stored

  new_table_stat : String → Option ℕ → Option String → ℕ → TableStat J
  new_table_stat table_rk population_row_count source_system now = record {
    table_rk = table_rk;
    population_row_count = population_row_count;
    sample_row_count = none;
    source_system = source_system;
    sample_description = none;
    sample_rows = [];
    samples_persisted = false;
    extra_metadata = none;
    updated_at = now;
  }

  refresh_table_stat : Option ℕ → Option String → ℕ → TableStat J → TableStat J
  refresh_table_stat population_row_count source_system now t = record t {
    population_row_count = or_else population_row_count t.population_row_count;
    source_system = or_else source_system t.source_system;
    updated_at = now;
  }

  unfoldable pub put_table_stat :
      String → Option ℕ → Option String → ℕ → Option (TableStat J) → Session J → Session J
  unfolding new_table_stat refresh_table_stat
  put_table_stat table_rk population_row_count source_system now none s = record s {
    table_stats =
        Table.add (new_table_stat table_rk population_row_count source_system now) s.table_stats;
  }
  put_table_stat table_rk population_row_count source_system now (some existing) s = record s {
    table_stats =
        Table.update (is_table table_rk) (refresh_table_stat population_row_count source_system now)
          s.table_stats;
  }

  new_column_stat : ColumnAggregate J → ℕ → ColumnStat J
  new_column_stat agg now = record {
    column_rk = agg.column_rk;
    table_rk = agg.table_rk;
    n_rows = agg.n_rows;
    null_rate = agg.null_rate;
    distinct_count = agg.distinct_count;
    mean = agg.mean;
    std = agg.std;
    min_value = agg.min_value;
    max_value = agg.max_value;
    cardinality_tier = agg.cardinality_tier;
    top_frequencies = [];
    samples_persisted = false;
    declared_type = agg.declared_type;
    role_hint = agg.role_hint;
    stats_are_approximate = agg.stats_are_approximate;
    updated_at = now;
  }

  refresh_column_stat : ColumnAggregate J → ℕ → ColumnStat J → ColumnStat J
  refresh_column_stat agg now row = record row {
    table_rk = agg.table_rk;
    n_rows = agg.n_rows;
    null_rate = agg.null_rate;
    distinct_count = agg.distinct_count;
    mean = agg.mean;
    std = agg.std;
    min_value = agg.min_value;
    max_value = agg.max_value;
    cardinality_tier = agg.cardinality_tier;
    declared_type = agg.declared_type;
    role_hint = agg.role_hint;
    stats_are_approximate = agg.stats_are_approximate;
    updated_at = now;
  }

  put_column_stat :
      ColumnAggregate J → ℕ → Option (ColumnStat J) → Counts → Session J → Counts × Session J
  unfolding new_column_stat refresh_column_stat
  put_column_stat agg now none counts s = (
    record counts { inserted = suc counts.inserted },
    record s { column_stats = Table.add (new_column_stat agg now) s.column_stats },
  )
  put_column_stat agg now (some row) counts s = (
    record counts { updated = suc counts.updated },
    record s {
      column_stats =
          Table.update (is_column agg.column_rk) (refresh_column_stat agg now) s.column_stats;
    },
  )

  -- The loop over the aggregates; `known` is what the query before the loop found.
  put_column_stats :
      (String → Bool) → ℕ → List (ColumnAggregate J) → Counts → Exec (Session J) Counts
  unfolding put_column_stat
  put_column_stats known now [] counts s = (ok counts, s)
  put_column_stats known now (agg ∷ aggs) counts s =
      let (counts', s') =
        put_column_stat agg now (Table.find (is_column agg.column_rk) s.column_stats) counts s in
      let skip =
        put_column_stats known now aggs (record counts { skipped = suc counts.skipped }) s in
      let next = put_column_stats known now aggs counts' s' in
      if not (known agg.column_rk)
      then skip
      else (if is_tier agg.cardinality_tier then next else (err value_error, s))

module _ {J : Type 0} (actor : String) where
  unfoldable pub upsert_aggregates :
      String → List (ColumnAggregate J) → Option ℕ → Option String → ℕ → Exec (Session J) Counts
  unfolding put_table_stat put_column_stats audit
  upsert_aggregates table_rk aggregates population_row_count source_system now s =
      let s' =
        put_table_stat table_rk population_row_count source_system now
          (Table.find (is_table table_rk) s.table_stats) s in
      (Exec.◌>>=◌ (put_column_stats (is_known s') now aggregates no_counts) (λ counts t.
          (ok counts, audit actor "upsert_aggregates" "column_stat" ("table_stat:" <> table_rk) t)))
        s'
