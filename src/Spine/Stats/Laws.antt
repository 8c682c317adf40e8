-- ===== src/Spine/Stats/Laws.antt =====
-- The values that the profiles keep: held back until the gate has passed a column, and forgotten
-- when they are cleared.
use nexcraft.Base.{
  ℕ, ◌≡◌, refl, String, ◌<>◌, Bool, false, Option, none, some, List, [], ◌∷◌, All, All-append,
  Bool-cases, inl, inr, Result, ok, err,
}
use nexcraft.Base.Exec
use nexcraft.Spine.Table
use nexcraft.Spine.Table.{Table, All-change}
use nexcraft.Spine.Models.{Session}
use nexcraft.Spine.Models.Derived.{TableStat, ColumnStat}
use nexcraft.Spine.Inferences.{audit}
use nexcraft.Spine.Stats.{
  ColumnAggregate, Counts, no_counts, is_table, is_column, is_known, is_tier, new_table_stat,
  refresh_table_stat, put_table_stat, new_column_stat, refresh_column_stat, put_column_stat,
  put_column_stats, upsert_aggregates,
}

module _ {J : Type 0} where
  -- Values are there only when the row says so.
  abbrev pub HoldsRows : TableStat J → Type 0
  HoldsRows t = t.samples_persisted ≡ false → t.sample_rows ≡ []

  abbrev pub HoldsFrequencies : ColumnStat J → Type 0
  HoldsFrequencies c = c.samples_persisted ≡ false → c.top_frequencies ≡ []

  pub record HoldsBack (s : Session J) : Type 0 where
    pub stored_tables : All HoldsRows s.table_stats.stored
    pub added_tables : All HoldsRows s.table_stats.added
    pub stored_columns : All HoldsFrequencies s.column_stats.stored
    pub added_columns : All HoldsFrequencies s.column_stats.added

  put_table_stat-HoldsBack :
      (table_rk : String) (n : Option ℕ) (system : Option String) (now : ℕ)
      (o : Option (TableStat J)) (s : Session J)
      → HoldsBack s
      → HoldsBack (put_table_stat table_rk n system now o s)
  unfolding put_table_stat new_table_stat refresh_table_stat
  put_table_stat-HoldsBack table_rk n system now none s h = record {
    stored_tables = h.stored_tables;
    added_tables =
        All-append HoldsRows s.table_stats.added (_ ∷ []) h.added_tables ((λ e. refl), tt);
    stored_columns = h.stored_columns;
    added_columns = h.added_columns;
  }
  put_table_stat-HoldsBack table_rk n system now (some existing) s h = record {
    stored_tables =
        All-change (is_table table_rk) _ s.table_stats.stored (λ r p. p) h.stored_tables;
    added_tables = h.added_tables;
    stored_columns = h.stored_columns;
    added_columns = h.added_columns;
  }

  put_column_stat-HoldsBack :
      (agg : ColumnAggregate J) (now : ℕ) (o : Option (ColumnStat J)) (counts : Counts)
      (s : Session J)
      → HoldsBack s
      → HoldsBack (put_column_stat agg now o counts s).1
  unfolding put_column_stat new_column_stat refresh_column_stat
  put_column_stat-HoldsBack agg now none counts s h = record {
    stored_tables = h.stored_tables;
    added_tables = h.added_tables;
    stored_columns = h.stored_columns;
    added_columns =
        All-append HoldsFrequencies s.column_stats.added (_ ∷ []) h.added_columns ((λ e. refl), tt);
  }
  put_column_stat-HoldsBack agg now (some row) counts s h = record {
    stored_tables = h.stored_tables;
    added_tables = h.added_tables;
    stored_columns =
        All-change (is_column agg.column_rk) _ s.column_stats.stored (λ r p. p) h.stored_columns;
    added_columns = h.added_columns;
  }

  put_column_stats-HoldsBack :
      (known : String → Bool) (now : ℕ) (aggs : List (ColumnAggregate J)) (counts : Counts)
      (s : Session J)
      → HoldsBack s
      → HoldsBack (put_column_stats known now aggs counts s).1
  unfolding put_column_stats
  put_column_stats-HoldsBack known now [] counts s h = h
  put_column_stats-HoldsBack known now (agg ∷ aggs) counts s h =
      let put =
        put_column_stat agg now (Table.find (is_column agg.column_rk) s.column_stats) counts s in
      elim (Bool-cases (known agg.column_rk)) [
        | inr unknown ↦ rw unknown (put_column_stats-HoldsBack known now aggs _ s h)
        | inl found ↦ elim (Bool-cases (is_tier agg.cardinality_tier)) [
          | inl tier ↦
              rw (found, tier)
                (put_column_stats-HoldsBack known now aggs put.0 put.1
                  (put_column_stat-HoldsBack agg now _ counts s h))
          | inr wrong ↦ rw (found, wrong) h
        ]
      ]

  pub upsert_aggregates-HoldsBack :
      (actor table_rk : String) (aggs : List (ColumnAggregate J)) (n : Option ℕ)
      (system : Option String) (now : ℕ) (s : Session J)
      → HoldsBack s
      → HoldsBack (upsert_aggregates actor table_rk aggs n system now s).1
  unfolding upsert_aggregates audit
  upsert_aggregates-HoldsBack actor table_rk aggs n system now s h =
      let put =
        put_table_stat table_rk n system now (Table.find (is_table table_rk) s.table_stats) s in
      audited (put_column_stats (is_known put) now aggs no_counts put).0 _ (
        put_column_stats-HoldsBack (is_known put) now aggs no_counts put
          (put_table_stat-HoldsBack table_rk n system now _ s h))
    where
      audited :
          (r : Result Counts) (t : Session J)
          → HoldsBack t
          → HoldsBack
              (Exec.resume r
                (λ counts t. (
                  ok counts,
                  audit actor "upsert_aggregates" "column_stat" ("table_stat:" <> table_rk) t,
                ))
                t).1
      audited (ok counts) t h = record {
        stored_tables = h.stored_tables;
        added_tables = h.added_tables;
        stored_columns = h.stored_columns;
        added_columns = h.added_columns;
      }
      audited (err e) t h = h
