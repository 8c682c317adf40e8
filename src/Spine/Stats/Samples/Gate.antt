-- ===== src/Spine/Stats/Samples/Gate.antt =====
-- The gate of `attach_sampled_values`, and what `clear_sampled_values` leaves.
use nexcraft.Base.{
  ℕ, suc, ◌≡◌, refl, ◌∙◌, ap, String, Bool, true, false, Option, none, some, List, [], ◌∷◌, not,
  eq_iff, map, keep, All, Bool-cases, Option-cases, inl, inr,
}
use nexcraft.Base.Dict.{Dict}
use nexcraft.Spine.Table
use nexcraft.Spine.Table.{Table, change, keep-change}
use nexcraft.Spine.Models.{Session}
use nexcraft.Spine.Models.Derived.{TableStat, ColumnStat}
use nexcraft.Spine.Inferences.{audit}
use nexcraft.Spine.Stats.{TableSampleFacts, is_table, is_column, of_table}
use nexcraft.Spine.Stats.Samples.{
  keep_frequencies, promote, promote_all, forget_values, clear_table, clear_column, attach_to,
  attach_sampled_values, clear_sampled_values,
}
use nexcraft.Spine.Stats.Samples.Laws.{audit_cleared-stats}

module _ {J : Type 0} where
  abbrev pub is_blocked : (String → Bool) → ColumnStat J → Bool
  is_blocked gate c = not (gate c.column_rk)

  promote_all-blocked :
      (gate : String → Bool) (now : ℕ) (fs : Dict (List J)) (counts : ℕ × ℕ)
      (t : Table (ColumnStat J))
      → keep (is_blocked gate) (promote_all gate now fs counts t).1.stored
        ≡ keep (is_blocked gate) t.stored
  unfolding promote_all promote keep_frequencies
  promote_all-blocked gate now [] counts t = refl
  promote_all-blocked gate now ((rk, fs) ∷ rest) (n, m) t = elim (Bool-cases (gate rk)) [
    | inr stop ↦ rw stop (promote_all-blocked gate now rest (n, suc m) t)
    | inl pass ↦ elim (Option-cases (Table.find (is_column rk) t)) [
      | inl absent ↦ rw (pass, absent) (promote_all-blocked gate now rest (n, m) t)
      | inr (row, found) ↦
          rw (pass, found)
            (promote_all-blocked gate now rest (suc n, m) _
              ∙ keep-change (is_blocked gate) (is_column rk) (keep_frequencies fs now) t.stored
                  (λ c here. rw ((eq_iff c.column_rk rk).0 here, pass) (refl, refl)))
    ]
  ]

module _ {J : Type 0} (actor : String) where
  -- The stored profiles of the columns that the gate rejects are the same before and after, with their
  -- order: their frequencies, their flag and all else, whatever frequencies are offered for them.
  pub attach_sampled_values-gate :
      (facts : TableSampleFacts J) (fs : Dict (List J)) (gate : String → Bool) (now : ℕ)
      (s : Session J)
      → keep
          (is_blocked gate)
          (attach_sampled_values actor facts fs gate now s).1.column_stats.stored
        ≡ keep (is_blocked gate) s.column_stats.stored
  unfolding attach_sampled_values attach_to audit
  attach_sampled_values-gate facts fs gate now s =
      elim (Option-cases (Table.find (is_table facts.table_rk) s.table_stats)) [
        | inl absent ↦ rw absent refl
        | inr (t, found) ↦ rw found (promote_all-blocked gate now fs (0, 0) s.column_stats)
      ]

  -- What the profiler has found of the shape of a column.
  abbrev pub aggregates :
      ColumnStat J
      → String × ℕ × J × Option ℕ × Option J × Option J × Option J × Option J × Option String
  aggregates c = (
    c.column_rk, c.n_rows, c.null_rate, c.distinct_count, c.mean, c.std, c.min_value, c.max_value,
    c.cardinality_tier,
  )

  abbrev pub Forgotten : String → ColumnStat J → Type 0
  Forgotten table_rk c =
      of_table table_rk c ≡ true → (c.top_frequencies ≡ []) × (c.samples_persisted ≡ false)

  clear_column-Forgotten :
      (table_rk : String) (now : ℕ) (xs : List (ColumnStat J))
      → All (Forgotten table_rk) (map (clear_column table_rk now) xs)
        × (map aggregates (map (clear_column table_rk now) xs) ≡ map aggregates xs)
  unfolding clear_column forget_values
  clear_column-Forgotten table_rk now [] = (tt, refl)
  clear_column-Forgotten table_rk now (x ∷ xs) =
      let (rest, same) = clear_column-Forgotten table_rk now xs in
      elim (Bool-cases (of_table table_rk x)) [
        | inl own ↦ rw own (((λ h. (refl, refl)), rest), ap (λ ys. aggregates x ∷ ys) same)
        | inr other ↦ rw other (((λ h. cc), rest), ap (λ ys. aggregates x ∷ ys) same)
      ]

  clear_table-columns :
      (table_rk : String) (now : ℕ) (o : Option (TableStat J)) (s : Session J)
      → (clear_table table_rk now o s).1.column_stats ≡ s.column_stats
  unfolding clear_table
  clear_table-columns table_rk now none s = refl
  clear_table-columns table_rk now (some t) s = refl

  -- After the values of a table are cleared, no stored column of it has frequencies or the flag, and
  -- every stored column keeps its aggregates.
  pub clear_sampled_values-Forgotten :
      (table_rk : String) (now : ℕ) (s : Session J)
      → All (Forgotten table_rk) (clear_sampled_values actor table_rk now s).1.column_stats.stored
        × (map aggregates (clear_sampled_values actor table_rk now s).1.column_stats.stored
            ≡ map aggregates s.column_stats.stored)
  unfolding clear_sampled_values
  clear_sampled_values-Forgotten table_rk now s = rw ((audit_cleared-stats actor _ table_rk _).1) (
      rw (clear_table-columns table_rk now (Table.find (is_table table_rk) s.table_stats) s)
        (clear_column-Forgotten table_rk now s.column_stats.stored))
