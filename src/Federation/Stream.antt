-- ===== src/Federation/Stream.antt =====
-- packages/nexcraft/nexcraft/streaming/cancellable_stream.py: what the pump of a stream puts into
-- the queue. A record batch is its two sizes, its schema and its content, of which nothing is
-- known. `Moment` is what the pump sees of the clock and of the cancel event when a batch arrives.
pub mod Budget
pub mod Order
pub mod Channel
use nexcraft.Base.{
  ℕ, ◌+◌, Bool, true, false, Option, none, some, List, [], ◌∷◌, ltb, leb, ◌||◌, if◌then◌else◌,
  Error, Result, ok, err, cancelled_error, timeout_error, budget_exceeded_error, internal_error,
  foreign_error,
}
use nexcraft.Federation.Core.{QueryContext}

pub record Batch (H C : Type 0) : Type 0 where
  pub num_rows : ℕ
  pub nbytes : ℕ
  pub schema : H
  pub content : C

pub record Moment : Type 0 where
  pub cancelled : Bool
  pub now : ℕ

-- What the queue holds: a batch, `_SENTINEL_DONE`, or an exception.
pub data Item (H C : Type 0) : Type 0 where
  batch : Batch H C → Item H C
  done : Item H C
  exception : Error → Item H C

-- `_rows_seen`, `_bytes_seen` and `_schema`.
pub record Seen (H : Type 0) : Type 0 where
  pub rows : ℕ
  pub bytes : ℕ
  pub schema : Option H

abbrev pub nothing_seen : {H : Type 0} → Seen H
nothing_seen = record { rows = 0; bytes = 0; schema = none }

-- `limit is not None and seen > limit`
abbrev pub exceeds : ℕ → Option ℕ → Bool
exceeds seen none = false
exceeds seen (some limit) = ltb limit seen

abbrev pub is_reached : ℕ → Option ℕ → Bool
is_reached now none = false
is_reached now (some deadline) = leb deadline now

unfoldable pub should_stop : QueryContext → Moment → Bool
should_stop ctx m = m.cancelled || is_reached m.now ctx.deadline

unfoldable pub stop_reason : Moment → Error
stop_reason m = if m.cancelled then cancelled_error else timeout_error

limit_of : Option ℕ → ℕ
limit_of none = 0
limit_of (some limit) = limit

module _ {H : Type 0} where
  unfoldable pub budget_violated : QueryContext → Seen H → Bool
  budget_violated ctx s = exceeds s.rows ctx.max_rows || exceeds s.bytes ctx.max_bytes

  unfoldable pub budget_error : QueryContext → Seen H → Error
  unfolding limit_of
  budget_error ctx s =
      if exceeds s.rows ctx.max_rows
      then budget_exceeded_error "rows" (limit_of ctx.max_rows) s.rows
      else budget_exceeded_error "bytes" (limit_of ctx.max_bytes) s.bytes

  first_schema : Option H → H → Option H
  first_schema none h = some h
  first_schema (some old) h = some old

  -- The property `schema`, before the first batch a RuntimeError.
  pub schema : Seen H → Result H
  schema s = elim s.schema [ none ↦ err (foreign_error "RuntimeError") | some h ↦ ok h ]

module _ {H C : Type 0} where
  unfoldable pub count_batch : Seen H → Batch H C → Seen H
  unfolding first_schema
  count_batch s b = record {
    rows = s.rows + b.num_rows;
    bytes = s.bytes + b.nbytes;
    schema = first_schema s.schema b.schema;
  }

  pub ending : Option Error → Item H C
  ending none = done
  ending (some e) = exception e

  -- `_pump`: the items that it puts, in order. `failure` is the exception by which the producer ends.
  unfoldable pub pump :
      QueryContext → Seen H → List (Batch H C × Moment) → Option Error → List (Item H C)
  unfolding ending
  pump ctx s [] failure = ending failure ∷ []
  pump ctx s ((b, m) ∷ rest) failure =
      let s' = count_batch s b in
      let more = pump ctx s' rest failure in
      if should_stop ctx m
      then exception (stop_reason m) ∷ []
      else if budget_violated ctx s'
      then exception (budget_error ctx s') ∷ []
      else batch b ∷ more

  abbrev pub batches : List (Item H C) → List (Batch H C)
  batches [] = []
  batches (batch b ∷ items) = b ∷ batches items
  batches (done ∷ items) = batches items
  batches (exception e ∷ items) = batches items

  abbrev pub total_rows : List (Batch H C) → ℕ
  total_rows [] = 0
  total_rows (b ∷ bs) = b.num_rows + total_rows bs

  abbrev pub total_bytes : List (Batch H C) → ℕ
  total_bytes [] = 0
  total_bytes (b ∷ bs) = b.nbytes + total_bytes bs
