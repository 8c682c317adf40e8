-- ===== src/Spine/Hierarchy/Rows/Keys.antt =====
-- That the rows of a model are written without a second row of one key.
use nexcraft.Base.{
  str_eq_comm, ℕ, ◌≡◌, refl, ◌∙◌, ap, sym, subst, String, Bool, none, [], ◌++◌, append-nil, str_eq,
  Option-cases, inl, inr,
}
use nexcraft.Spine.Table
use nexcraft.Spine.Table.{Table, rows, change}
use nexcraft.Spine.Table.Unique.{IsUnique, append-IsUnique, change-IsUnique, first-none-any}
use nexcraft.Spine.Models.{TableMetadata, TableExt, ColumnMetadata, ColumnExt}
use nexcraft.Spine.Hierarchy.Rows.{
  MdlColumn, MdlModel, Texts, is_table_rk, is_table_ext, is_column_rk, is_column_ext, set_model,
  new_table_ext, put_table, put_table_ext, put_column, put_column_ext,
}

module _ {R : Type 0} (key : R → String) where
  abbrev pub same_key : R → R → Bool
  same_key a b = str_eq (key b) (key a)

  -- No two rows of a table have the same key, those that wait for the next flush included.
  abbrev pub HasUniqueKeys : Table R → Type 0
  HasUniqueKeys t = IsUnique same_key (rows t)

  pub flush-HasUniqueKeys : (t : Table R) → HasUniqueKeys t → HasUniqueKeys (Table.flush t)
  flush-HasUniqueKeys t u = subst (IsUnique same_key) (sym (append-nil (rows t))) u

  -- A row is added to a table that is flushed, and only where a query has found none with its key.
  pub add-HasUniqueKeys :
      (r : R) (t : Table R)
      → t.added ≡ []
      → Table.find (λ x. str_eq (key x) (key r)) t ≡ none
      → HasUniqueKeys t
      → HasUniqueKeys (Table.add r t)
  add-HasUniqueKeys r t flushed absent u = rw flushed (
      append-IsUnique same_key t.stored r (λ a b. str_eq_comm (key b) (key a))
        (first-none-any (λ x. str_eq (key x) (key r)) t.stored absent)
        (subst (IsUnique same_key) (ap (λ xs. t.stored ++ xs) flushed ∙ append-nil t.stored) u))

  pub update-HasUniqueKeys :
      (p : R → Bool) (f : R → R) (t : Table R)
      → ((r : R) → key (f r) ≡ key r)
      → t.added ≡ []
      → HasUniqueKeys t
      → HasUniqueKeys (Table.update p f t)
  update-HasUniqueKeys p f t keeps flushed u =
      subst (IsUnique same_key) (sym (ap (λ xs. change p f t.stored ++ xs) flushed ∙ append-nil _))
        (change-IsUnique same_key p f t.stored (λ a b. ap (str_eq (key b)) (keeps a))
          (λ a b. ap (λ k. str_eq k (key a)) (keeps b))
          (subst (IsUnique same_key) (ap (λ xs. t.stored ++ xs) flushed ∙ append-nil t.stored) u))

pub put_table-HasUniqueKeys :
    (model : MdlModel) (schema_rk : String) (t : Table TableMetadata)
    → t.added ≡ []
    → HasUniqueKeys TableMetadata.rk t
    → HasUniqueKeys TableMetadata.rk
        (put_table model schema_rk (Table.find (is_table_rk model.rk) t) t)
unfolding put_table
put_table-HasUniqueKeys model schema_rk t flushed u =
    elim (Option-cases (Table.find (is_table_rk model.rk) t)) [
      | inl absent ↦ rw absent (add-HasUniqueKeys TableMetadata.rk _ t flushed absent u)
      | inr (r, found) ↦
          rw found
            (update-HasUniqueKeys TableMetadata.rk (is_table_rk model.rk) _ t (λ x. refl) flushed u)
    ]

pub put_column-HasUniqueKeys :
    (col : MdlColumn) (table_rk : String) (t : Table ColumnMetadata)
    → t.added ≡ []
    → HasUniqueKeys ColumnMetadata.rk t
    → HasUniqueKeys ColumnMetadata.rk
        (put_column col table_rk (Table.find (is_column_rk col.rk) t) t)
unfolding put_column
put_column-HasUniqueKeys col table_rk t flushed u =
    elim (Option-cases (Table.find (is_column_rk col.rk) t)) [
      | inl absent ↦ rw absent (add-HasUniqueKeys ColumnMetadata.rk _ t flushed absent u)
      | inr (r, found) ↦
          rw found
            (update-HasUniqueKeys ColumnMetadata.rk (is_column_rk col.rk) _ t (λ x. refl) flushed u)
    ]

pub put_column_ext-HasUniqueKeys :
    (col : MdlColumn) (now : ℕ) (t : Table ColumnExt)
    → t.added ≡ []
    → HasUniqueKeys ColumnExt.column_rk t
    → HasUniqueKeys ColumnExt.column_rk
        (put_column_ext col now (Table.find (is_column_ext col.rk) t) t)
unfolding put_column_ext
put_column_ext-HasUniqueKeys col now t flushed u =
    elim (Option-cases (Table.find (is_column_ext col.rk) t)) [
      | inl absent ↦ rw absent (add-HasUniqueKeys ColumnExt.column_rk _ t flushed absent u)
      | inr (r, found) ↦ rw found (
          update-HasUniqueKeys ColumnExt.column_rk (is_column_ext col.rk) _ t (λ x. refl) flushed u)
    ]

pub put_table_ext-HasUniqueKeys :
    (texts : Texts) (model : MdlModel) (inline : Bool) (now : ℕ) (t : Table TableExt)
    → t.added ≡ []
    → HasUniqueKeys TableExt.table_rk t
    → HasUniqueKeys TableExt.table_rk
        (put_table_ext texts model inline now (Table.find (is_table_ext model.rk) t) t)
unfolding put_table_ext new_table_ext set_model
put_table_ext-HasUniqueKeys texts model inline now t flushed u =
    elim (Option-cases (Table.find (is_table_ext model.rk) t)) [
      | inl absent ↦ rw absent (add-HasUniqueKeys TableExt.table_rk _ t flushed absent u)
      | inr (r, found) ↦
          rw found (
            update-HasUniqueKeys TableExt.table_rk (is_table_ext model.rk) _ t (λ x. refl) flushed
              u)
    ]
