-- ===== src/Federation/Stream/Budget.antt =====
-- The budgets of a query bound what its stream delivers.
use nexcraft.Base.{
  ℕ, ◌+◌, ◌≤◌, ◌≡◌, false, Option, none, some, List, [], ◌∷◌, arith, inl, inr, Error, Bool-cases,
}
use nexcraft.Federation.Core.{QueryContext}
use nexcraft.Federation.Stream.{
  Batch, Moment, Seen, nothing_seen, exceeds, should_stop, budget_violated, count_batch, pump,
  batches, total_rows, total_bytes,
}

-- A bound that is set.
abbrev pub Within : ℕ → Option ℕ → Type 0
Within n none = Unit
Within n (some limit) = n ≤ limit

Within-add : (n a b : ℕ) (l : Option ℕ) → Within ((n + a) + b) l → Within (n + (a + b)) l
Within-add n a b none h = tt
Within-add n a b (some limit) h = omega arith

Within-zero : (n : ℕ) (l : Option ℕ) → Within n l → Within (n + 0) l
Within-zero n none h = tt
Within-zero n (some limit) h = omega arith

Within-of_not_exceeds : (n : ℕ) (l : Option ℕ) → exceeds n l ≡ false → Within n l
Within-of_not_exceeds n none h = tt
Within-of_not_exceeds n (some limit) h = ground arith

Within-of_zero-add : (n : ℕ) (l : Option ℕ) → Within (0 + n) l → Within n l
Within-of_zero-add n none h = tt
Within-of_zero-add n (some limit) h = omega arith

Within-zero_self : (l : Option ℕ) → Within 0 l
Within-zero_self none = tt
Within-zero_self (some limit) = omega arith

module _ (ctx : QueryContext) where
  -- The rows and bytes that are counted fit the budgets.
  abbrev pub Fits : ℕ → ℕ → Type 0
  Fits rows bytes = Within rows ctx.max_rows × Within bytes ctx.max_bytes

  Fits-zero : (rows bytes : ℕ) → Fits rows bytes → Fits (rows + 0) (bytes + 0)
  Fits-zero rows bytes h = (Within-zero rows ctx.max_rows h.0, Within-zero bytes ctx.max_bytes h.1)

module _ {H : Type 0} (ctx : QueryContext) where
  Fits-of_budget : (s : Seen H) → budget_violated ctx s ≡ false → Fits ctx s.rows s.bytes
  unfolding budget_violated
  Fits-of_budget s h = (
    Within-of_not_exceeds s.rows ctx.max_rows (ground arith),
    Within-of_not_exceeds s.bytes ctx.max_bytes (ground arith),
  )

module _ {H C : Type 0} (ctx : QueryContext) where
  pump-Fits :
      (s : Seen H) (source : List (Batch H C × Moment)) (failure : Option Error)
      → Fits ctx s.rows s.bytes
      → Fits ctx
          (s.rows + total_rows (batches (pump ctx s source failure)))
          (s.bytes + total_bytes (batches (pump ctx s source failure)))
  unfolding pump count_batch
  pump-Fits s [] none h = Fits-zero ctx s.rows s.bytes h
  pump-Fits s [] (some e) h = Fits-zero ctx s.rows s.bytes h
  pump-Fits s ((b, m) ∷ rest) failure h = elim (Bool-cases (should_stop ctx m)) [
    | inl stop ↦ rw stop (Fits-zero ctx s.rows s.bytes h)
    | inr go ↦ elim (Bool-cases (budget_violated ctx (count_batch s b))) [
      | inl over ↦ rw (go, over) (Fits-zero ctx s.rows s.bytes h)
      | inr fits ↦
          let k =
            pump-Fits (count_batch s b) rest failure (Fits-of_budget ctx (count_batch s b) fits) in
          rw (go, fits)
            (
              Within-add s.rows b.num_rows _ ctx.max_rows k.0,
              Within-add s.bytes b.nbytes _ ctx.max_bytes k.1,
            )
    ]
  ]

  -- The batches that reach the queue have no more rows than `max_rows` and no more bytes than
  -- `max_bytes`, where these are set.
  pub total-pump :
      (source : List (Batch H C × Moment)) (failure : Option Error)
      → Within (total_rows (batches (pump ctx nothing_seen source failure))) ctx.max_rows
        × Within (total_bytes (batches (pump ctx nothing_seen source failure))) ctx.max_bytes
  total-pump source failure =
      let h =
        pump-Fits nothing_seen source failure
          (Within-zero_self ctx.max_rows, Within-zero_self ctx.max_bytes) in
      (Within-of_zero-add _ ctx.max_rows h.0, Within-of_zero-add _ ctx.max_bytes h.1)
