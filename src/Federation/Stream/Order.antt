-- ===== src/Federation/Stream/Order.antt =====
-- Which batches the pump lets through, and how it ends.
use nexcraft.Base.{
  ℕ, suc, ◌+◌, ◌≡◌, refl, ap, false, Option, none, some, List, [], ◌∷◌, ◌++◌, map, arith, inl, inr,
  Error, Bool-cases, All, take,
}
use nexcraft.Federation.Core.{QueryContext}
use nexcraft.Federation.Stream.{
  Batch, Moment, Item, batch, done, exception, Seen, exceeds, should_stop, stop_reason,
  budget_violated, budget_error, count_batch, ending, pump, total_rows, total_bytes,
}
use nexcraft.Federation.Stream.Budget.{Within}

not_exceeds : (n : ℕ) (l : Option ℕ) → Within n l → exceeds n l ≡ false
not_exceeds n none h = refl
not_exceeds n (some limit) h = ground arith

Within-of_add : (n a b : ℕ) (l : Option ℕ) → Within (n + (a + b)) l → Within (n + a) l
Within-of_add n a b none h = tt
Within-of_add n a b (some limit) h = omega arith

Within-regroup : (n a b : ℕ) (l : Option ℕ) → Within (n + (a + b)) l → Within ((n + a) + b) l
Within-regroup n a b none h = tt
Within-regroup n a b (some limit) h = omega arith

module _ {H C : Type 0} where
  abbrev pub passed : Batch H C × Moment → Item H C
  passed x = batch x.0

  -- The batches of a source.
  abbrev pub sources : List (Batch H C × Moment) → List (Batch H C)
  sources = map (λ x. x.0)

  -- What ends a stream: the sentinel or an exception.
  abbrev pub IsEnd : Item H C → Type 0
  IsEnd (batch b) = ⊥
  IsEnd done = Unit
  IsEnd (exception e) = Unit

ending-IsEnd : (H C : Type 0) (failure : Option Error) → IsEnd (ending {H = H} {C = C} failure)
unfolding ending
ending-IsEnd H C none = tt
ending-IsEnd H C (some e) = tt

module _ {H C : Type 0} where
  ending-done : (failure : Option Error) → ending {H = H} {C = C} failure ≡ done → failure ≡ none
  unfolding ending
  ending-done none e = refl
  ending-done (some x) e = cc

module _ {H C : Type 0} (ctx : QueryContext) where
  abbrev pub Goes : Batch H C × Moment → Type 0
  Goes x = should_stop ctx x.1 ≡ false

  -- What the pump puts is the batches of a prefix of the source, in order, each of which arrived
  -- before a cancellation and before the deadline, and then exactly one ending. It is the
  -- sentinel only after the whole source, and only if the producer ended without an exception.
  pub pump_prefix :
      (s : Seen H) (source : List (Batch H C × Moment)) (failure : Option Error)
      → (n : ℕ) × (last : Item H C) × (pump ctx s source failure
          ≡ map passed (take n source) ++ last ∷ [])
        × IsEnd last
        × All Goes (take n source)
        × (last ≡ done → (take n source ≡ source) × (failure ≡ none))
  unfolding pump
  pump_prefix s [] failure =
      (0, ending failure, refl, ending-IsEnd H C failure, tt, λ e. (refl, ending-done failure e))
  pump_prefix s ((b, m) ∷ rest) failure = elim (Bool-cases (should_stop ctx m)) [
    | inl stop ↦ (0, exception (stop_reason m), rw stop, tt, tt, λ e. cc)
    | inr go ↦ elim (Bool-cases (budget_violated ctx (count_batch s b))) [
      | inl over ↦
          (0, exception (budget_error ctx (count_batch s b)), rw (go, over), tt, tt, λ e. cc)
      | inr fits ↦
          let (n, last, shape, ends, goes, full) = pump_prefix (count_batch s b) rest failure in
          (
            suc n,
            last,
            rw (go, fits) (ap (λ items. batch b ∷ items) shape),
            ends,
            (go, goes),
            λ e. (ap (λ l. (b, m) ∷ l) (full e).0, (full e).1),
          )
    ]
  ]

  -- If no batch arrives after a cancellation or the deadline, and what was seen and the source
  -- together fit the budgets, then the pump puts every batch and ends as the producer does.
  pub pump-All :
      (s : Seen H) (source : List (Batch H C × Moment)) (failure : Option Error)
      → All Goes source
      → Within (s.rows + total_rows (sources source)) ctx.max_rows
      → Within (s.bytes + total_bytes (sources source)) ctx.max_bytes
      → pump ctx s source failure ≡ map passed source ++ ending failure ∷ []
  unfolding pump
  pump-All s [] failure goes hr hb = refl
  pump-All s ((b, m) ∷ rest) failure goes hr hb =
      let fits : budget_violated ctx (count_batch s b) ≡ false =
        unfold budget_violated count_batch in
        ground (
          arith,
          not_exceeds (s.rows + b.num_rows) ctx.max_rows
              (Within-of_add s.rows b.num_rows _ ctx.max_rows hr),
          not_exceeds (s.bytes + b.nbytes) ctx.max_bytes
              (Within-of_add s.bytes b.nbytes _ ctx.max_bytes hb),
        ) in
      rw (goes.0, fits)
        (ap (λ items. batch b ∷ items)
          (pump-All (count_batch s b) rest failure goes.1
            (unfold count_batch in Within-regroup s.rows b.num_rows _ ctx.max_rows hr)
            (unfold count_batch in Within-regroup s.bytes b.nbytes _ ctx.max_bytes hb)))
