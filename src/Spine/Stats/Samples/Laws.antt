-- ===== src/Spine/Stats/Samples/Laws.antt =====
-- The values of the profiles, gated and forgotten.
use nexcraft.Base.{
  ℕ, zero, suc, ◌≡◌, refl, sym, subst, String, Bool, Option, none, some, List, [], ◌∷◌, map, All,
  All-append, Bool-cases, Option-cases, inl, inr,
}
use nexcraft.Base.Dict.{Dict}
use nexcraft.Spine.Table
use nexcraft.Spine.Table.{Table, All-change}
use nexcraft.Spine.Models.{Session, flush_all}
use nexcraft.Spine.Models.Derived.{TableStat, ColumnStat}
use nexcraft.Spine.Inferences.{audit}
use nexcraft.Spine.Stats.{
  ColumnAggregate, TableSampleFacts, is_table, is_column, of_table, upsert_aggregates,
}
use nexcraft.Spine.Stats.Samples.{
  sample_table, keep_frequencies, promote, promote_all, forget_values, forget_rows, clear_table,
  clear_column, attach_to, attach_sampled_values, audit_cleared, clear_sampled_values,
}
use nexcraft.Spine.Stats.Laws.{HoldsRows, HoldsFrequencies, HoldsBack, upsert_aggregates-HoldsBack}

module _ {J : Type 0} where
  promote_all-HoldsFrequencies :
      (gate : String → Bool) (now : ℕ) (fs : Dict (List J)) (counts : ℕ × ℕ)
      (t : Table (ColumnStat J))
      → All HoldsFrequencies t.stored
      → All HoldsFrequencies (promote_all gate now fs counts t).1.stored
  unfolding promote_all promote keep_frequencies
  promote_all-HoldsFrequencies gate now [] counts t h = h
  promote_all-HoldsFrequencies gate now ((rk, fs) ∷ rest) (n, m) t h = elim (Bool-cases (gate rk)) [
    | inr stop ↦ rw stop (promote_all-HoldsFrequencies gate now rest (n, suc m) t h)
    | inl pass ↦ elim (Option-cases (Table.find (is_column rk) t)) [
      | inl absent ↦ rw (pass, absent) (promote_all-HoldsFrequencies gate now rest (n, m) t h)
      | inr (row, found) ↦
          rw (pass, found)
            (promote_all-HoldsFrequencies gate now rest (suc n, m) _
              (All-change (is_column rk) _ t.stored (λ r p e. cc) h))
    ]
  ]

  promote_all-added :
      (gate : String → Bool) (now : ℕ) (fs : Dict (List J)) (counts : ℕ × ℕ)
      (t : Table (ColumnStat J))
      → (promote_all gate now fs counts t).1.added ≡ t.added
  unfolding promote_all promote
  promote_all-added gate now [] counts t = refl
  promote_all-added gate now ((rk, fs) ∷ rest) (n, m) t = elim (Bool-cases (gate rk)) [
    | inr stop ↦ rw stop (promote_all-added gate now rest (n, suc m) t)
    | inl pass ↦ elim (Option-cases (Table.find (is_column rk) t)) [
      | inl absent ↦ rw (pass, absent) (promote_all-added gate now rest (n, m) t)
      | inr (row, found) ↦ rw (pass, found) (promote_all-added gate now rest (suc n, m) _)
    ]
  ]

  attach_to-HoldsBack :
      (actor : String) (facts : TableSampleFacts J) (fs : Dict (List J)) (gate : String → Bool)
      (now : ℕ) (o : Option (TableStat J)) (s : Session J)
      → HoldsBack s
      → HoldsBack (attach_to actor facts fs gate now o s).1
  unfolding attach_to sample_table audit
  attach_to-HoldsBack actor facts fs gate now none s h = h
  attach_to-HoldsBack actor facts fs gate now (some existing) s h = record {
    stored_tables =
        All-change (is_table facts.table_rk) _ s.table_stats.stored (λ r p e. cc) h.stored_tables;
    added_tables = h.added_tables;
    stored_columns =
        promote_all-HoldsFrequencies gate now fs (0, 0) s.column_stats h.stored_columns;
    added_columns =
        subst (All HoldsFrequencies) (sym (promote_all-added gate now fs (0, 0) s.column_stats))
          h.added_columns;
  }

  clear_column-HoldsFrequencies :
      (table_rk : String) (now : ℕ) (xs : List (ColumnStat J))
      → All HoldsFrequencies xs
      → All HoldsFrequencies (map (clear_column table_rk now) xs)
  unfolding clear_column forget_values
  clear_column-HoldsFrequencies table_rk now [] h = tt
  clear_column-HoldsFrequencies table_rk now (x ∷ xs) h = (
    elim (Bool-cases (of_table table_rk x)) [
      | inl own ↦ rw own (λ e. refl)
      | inr other ↦ rw other h.0
    ],
    clear_column-HoldsFrequencies table_rk now xs h.1,
  )

  clear_table-HoldsBack :
      (table_rk : String) (now : ℕ) (o : Option (TableStat J)) (s : Session J)
      → HoldsBack s
      → HoldsBack (clear_table table_rk now o s).1
  unfolding clear_table forget_rows
  clear_table-HoldsBack table_rk now none s h = h
  clear_table-HoldsBack table_rk now (some t) s h = record {
    stored_tables =
        All-change (is_table table_rk) _ s.table_stats.stored (λ r p e. refl) h.stored_tables;
    added_tables = h.added_tables;
    stored_columns = h.stored_columns;
    added_columns = h.added_columns;
  }

  pub audit_cleared-stats :
      (actor : String) (n : ℕ) (table_rk : String) (s : Session J)
      → ((audit_cleared actor n table_rk s).table_stats ≡ s.table_stats)
        × ((audit_cleared actor n table_rk s).column_stats ≡ s.column_stats)
  unfolding audit_cleared audit
  audit_cleared-stats actor zero table_rk s = (refl, refl)
  audit_cleared-stats actor (suc n) table_rk s = (refl, refl)

  clear_sampled_values-HoldsBack :
      (actor table_rk : String) (now : ℕ) (s : Session J)
      → HoldsBack s
      → HoldsBack (clear_sampled_values actor table_rk now s).1
  unfolding clear_sampled_values
  clear_sampled_values-HoldsBack actor table_rk now s h =
      let h' =
        clear_table-HoldsBack table_rk now (Table.find (is_table table_rk) s.table_stats) s h in
      record {
        stored_tables =
            subst (λ t. All HoldsRows t.stored) (sym ((audit_cleared-stats actor _ table_rk _).0))
              h'.stored_tables;
        added_tables =
            subst (λ t. All HoldsRows t.added) (sym ((audit_cleared-stats actor _ table_rk _).0))
              h'.added_tables;
        stored_columns =
            subst (λ t. All HoldsFrequencies t.stored)
              (sym ((audit_cleared-stats actor _ table_rk _).1))
              (clear_column-HoldsFrequencies table_rk now _ h'.stored_columns);
        added_columns =
            subst (λ t. All HoldsFrequencies t.added)
              (sym ((audit_cleared-stats actor _ table_rk _).1)) h'.added_columns;
      }

module _ {J : Type 0} (actor : String) where
  -- The operations of `ColumnStatDAO` that write, and the flush between them.
  pub data Step : Session J → Session J → Type 0 where
    upserted :
        (table_rk : String) (aggs : List (ColumnAggregate J)) (n : Option ℕ)
        (system : Option String) (now : ℕ) (s : Session J)
        → Step s (upsert_aggregates actor table_rk aggs n system now s).1
    attached :
        (facts : TableSampleFacts J) (fs : Dict (List J)) (gate : String → Bool) (now : ℕ)
        (s : Session J)
        → Step s (attach_sampled_values actor facts fs gate now s).1
    cleared :
        (table_rk : String) (now : ℕ) (s : Session J)
        → Step s (clear_sampled_values actor table_rk now s).1
    flushed : (s : Session J) → Step s (flush_all s)

  pub data Steps : Session J → Session J → Type 0 where
    none_left : (s : Session J) → Steps s s
    next : {s t u : Session J} → Step s t → Steps t u → Steps s u

  Step-HoldsBack : {s t : Session J} → Step s t → HoldsBack s → HoldsBack t
  unfolding attach_sampled_values flush_all
  Step-HoldsBack (upserted table_rk aggs n system now s) h =
      upsert_aggregates-HoldsBack actor table_rk aggs n system now s h
  Step-HoldsBack (attached facts fs gate now s) h =
      attach_to-HoldsBack actor facts fs gate now
        (Table.find (is_table facts.table_rk) s.table_stats) s h
  Step-HoldsBack (cleared table_rk now s) h = clear_sampled_values-HoldsBack actor table_rk now s h
  Step-HoldsBack (flushed s) h = record {
    stored_tables =
        All-append HoldsRows s.table_stats.stored s.table_stats.added h.stored_tables
          h.added_tables;
    added_tables = tt;
    stored_columns =
        All-append HoldsFrequencies s.column_stats.stored s.column_stats.added h.stored_columns
          h.added_columns;
    added_columns = tt;
  }

  -- However the profiles of a session are written, attached, cleared and flushed, and whichever calls
  -- raise: a row without `samples_persisted` holds no sampled rows and no frequencies, when that is so
  -- at the start.
  pub Steps-HoldsBack : {s t : Session J} → Steps s t → HoldsBack s → HoldsBack t
  Steps-HoldsBack (none_left s) h = h
  Steps-HoldsBack (next step steps) h = Steps-HoldsBack steps (Step-HoldsBack step h)
