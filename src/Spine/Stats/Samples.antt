-- ===== src/Spine/Stats/Samples.antt =====
-- dao/stats.py: the values of a table and its columns that `ColumnStatDAO` keeps when the gate lets
-- it, their removal, and what it reads.
pub mod Laws
pub mod Gate
use nexcraft.Base.{
  ℕ, zero, suc, ◌+◌, String, ◌<>◌, Bool, true, false, Option, none, some, List, [], ◌∷◌, ◌==◌,
  if◌then◌else◌, Result, ok, err, value_error, keep, map, count, sort_by,
}
use Prim.Native.String.{compare}
use text.Mathlib.Text.{is_le}
use nexcraft.Base.Exec.{Exec}
use nexcraft.Base.Dict.{Dict}
use nexcraft.Spine.Table
use nexcraft.Spine.Table.{Table}
use nexcraft.Spine.Models.{Session}
use nexcraft.Spine.Models.Derived.{TableStat, ColumnStat}
use nexcraft.Spine.Inferences.{or_given, audit}
use nexcraft.Spine.Stats.{TableSampleFacts, or_count, is_table, is_column, of_table}

-- What `attach_sampled_values` returns.
pub record Attached : Type 0 where
  pub columns_promoted : ℕ
  pub columns_blocked : ℕ
  pub row_sample_persisted : ℕ

module _ {J : Type 0} where
  pub sample_table : TableSampleFacts J → ℕ → TableStat J → TableStat J
  sample_table facts now t = record t {
    population_row_count = or_count facts.population_row_count t.population_row_count;
    sample_row_count = facts.sample_row_count;
    source_system = or_given facts.source_system t.source_system;
    sample_description = facts.sample_description;
    sample_rows = facts.sample_rows;
    extra_metadata = facts.extra_metadata;
    samples_persisted = true;
    updated_at = now;
  }

  unfoldable pub keep_frequencies : List J → ℕ → ColumnStat J → ColumnStat J
  keep_frequencies freqs now row = record row {
    top_frequencies = freqs;
    samples_persisted = true;
    updated_at = now;
  }

  unfoldable pub promote :
      String
      → List J
      → ℕ
      → Option (ColumnStat J)
      → ℕ
      → Table (ColumnStat J)
      → ℕ × Table (ColumnStat J)
  unfolding keep_frequencies
  promote col_rk freqs now none promoted t = (promoted, t)
  promote col_rk freqs now (some row) promoted t =
      (suc promoted, Table.update (is_column col_rk) (keep_frequencies freqs now) t)

  -- The loop over `column_top_frequencies`, with the columns promoted and blocked before.
  unfoldable pub promote_all :
      (String → Bool)
      → ℕ
      → Dict (List J)
      → ℕ × ℕ
      → Table (ColumnStat J)
      → (ℕ × ℕ) × Table (ColumnStat J)
  unfolding promote
  promote_all gate now [] counts t = (counts, t)
  promote_all gate now ((col_rk, freqs) ∷ rest) (promoted, blocked) t =
      let (promoted', t') = promote col_rk freqs now (Table.find (is_column col_rk) t) promoted t in
      let pass = promote_all gate now rest (promoted', blocked) t' in
      let stop = promote_all gate now rest (promoted, suc blocked) t in
      if gate col_rk then pass else stop

  abbrev has_rows : List J → ℕ
  has_rows [] = 0
  has_rows (r ∷ rows) = 1

  unfoldable pub forget_values : ℕ → ColumnStat J → ColumnStat J
  forget_values now row = record row {
    top_frequencies = [];
    samples_persisted = false;
    updated_at = now;
  }

  unfoldable pub forget_rows : ℕ → TableStat J → TableStat J
  forget_rows now t = record t { sample_rows = []; samples_persisted = false; updated_at = now }

  -- Whether the row of the table was there.
  unfoldable pub clear_table : String → ℕ → Option (TableStat J) → Session J → ℕ × Session J
  unfolding forget_rows
  clear_table table_rk now none s = (0, s)
  clear_table table_rk now (some t) s = (
    1,
    record s { table_stats = Table.update (is_table table_rk) (forget_rows now) s.table_stats },
  )

  unfoldable pub clear_column : String → ℕ → ColumnStat J → ColumnStat J
  unfolding forget_values
  clear_column table_rk now row = if of_table table_rk row then forget_values now row else row

  unfoldable pub get_table_stat : String → Session J → Option (TableStat J)
  get_table_stat table_rk s = Table.find (is_table table_rk) s.table_stats

  unfoldable pub get_column_stat : String → Session J → Option (ColumnStat J)
  get_column_stat column_rk s = Table.find (is_column column_rk) s.column_stats

  unfoldable pub list_column_stats : String → Session J → List (ColumnStat J)
  list_column_stats table_rk s =
      sort_by (λ a b. is_le (compare a.column_rk b.column_rk))
        (keep (of_table table_rk) s.column_stats.stored)

module _ {J : Type 0} (actor : String) where
  unfoldable pub attach_to :
      TableSampleFacts J
      → Dict (List J)
      → (String → Bool)
      → ℕ
      → Option (TableStat J)
      → Exec (Session J) Attached
  unfolding sample_table promote_all audit
  attach_to facts frequencies gate now none s = (err value_error, s)
  attach_to facts frequencies gate now (some existing) s =
      let ((promoted, blocked), column_stats) =
        promote_all gate now frequencies (0, 0) s.column_stats in
      let persisted = has_rows facts.sample_rows in
      (
        ok (record {
          columns_promoted = promoted;
          columns_blocked = blocked;
          row_sample_persisted = persisted;
        }),
        audit actor "attach_sampled_values" "column_stat" ("table_stat:" <> facts.table_rk)
            (record s {
              table_stats =
                  Table.update (is_table facts.table_rk) (sample_table facts now) s.table_stats;
              column_stats = column_stats;
            }),
      )

  unfoldable pub attach_sampled_values :
      TableSampleFacts J → Dict (List J) → (String → Bool) → ℕ → Exec (Session J) Attached
  unfolding attach_to
  attach_sampled_values facts frequencies gate now s =
      attach_to facts frequencies gate now (Table.find (is_table facts.table_rk) s.table_stats) s

  unfoldable pub audit_cleared : ℕ → String → Session J → Session J
  unfolding audit
  audit_cleared zero table_rk s = s
  audit_cleared (suc n) table_rk s =
      audit actor "clear_sampled_values" "column_stat" ("table_stat:" <> table_rk) s

  unfoldable pub clear_sampled_values : String → ℕ → Session J → ℕ × Session J
  unfolding clear_table clear_column audit_cleared
  clear_sampled_values table_rk now s =
      let (n, s') = clear_table table_rk now (Table.find (is_table table_rk) s.table_stats) s in
      let stats = s'.column_stats in
      let cleared = n + count (of_table table_rk) stats.stored in
      (
        cleared,
        audit_cleared cleared table_rk (record s' {
          column_stats = record stats { stored = map (clear_column table_rk now) stats.stored };
        }),
      )
