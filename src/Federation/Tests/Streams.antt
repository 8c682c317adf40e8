-- ===== src/Federation/Tests/Streams.antt =====
-- The theorems about streams at a source of three batches.
use nexcraft.Base.{
  ℕ, suc, ◌≤◌, ◌<◌, Option, Error, ◌≡◌, ◌≢◌, refl, false, none, some, List, [], ◌∷◌, ◌++◌, map,
  arith, All, take, length,
}
use nexcraft.Federation.Core.{QueryContext, context}
use nexcraft.Federation.Stream.{
  Batch, Moment, Item, done, nothing_seen, pump, batches, total_rows, total_bytes, ending,
  should_stop, budget_violated, count_batch,
}
use nexcraft.Federation.Stream.Budget.{Within}
use nexcraft.Federation.Stream.Order.{IsEnd, passed, sources, Goes, pump_prefix, pump-All}
use nexcraft.Federation.Stream.Channel.{Outcome, hanging, Turn, put, expire, turns}
use nexcraft.Federation.Stream.Channel.Reader.{
  stream, rounds, stream_budget, stream-finished, stream_ends,
}

-- A batch of three rows and its moment.
abbrev three : ℕ → Batch ℕ ℕ × Moment
three n = (
  record { num_rows = 3; nbytes = 24; schema = 1; content = n },
  record { cancelled = false; now = n },
)

abbrev source : List (Batch ℕ ℕ × Moment)
source = three 10 ∷ three 20 ∷ three 30 ∷ []

abbrev ctx : QueryContext
ctx = record (context "acme" "q1") { max_rows = some 9; deadline = some 40 }

abbrev no_failure : Option Error
no_failure = none

-- Only two batches fit.
abbrev tight : QueryContext
tight = record ctx { max_rows = some 8 }

stream_budget_example :
    Within (total_rows (stream tight 1 source none (rounds 5)).yielded) (some 8)
    × Within (total_bytes (stream tight 1 source none (rounds 5)).yielded) none
    × (0 < 1 → length (stream tight 1 source none (rounds 5)).queue ≤ 1)
stream_budget_example = stream_budget tight 1 source none (rounds 5)

total_rows-stream : total_rows (stream tight 1 source none (rounds 5)).yielded ≡ 6
unfolding turns pump should_stop budget_violated count_batch
total_rows-stream = refl

stream-finished_example :
    ((stream ctx 1 source none (rounds 4)).yielded ≡ sources source) × (no_failure ≡ none)
unfolding turns pump should_stop budget_violated count_batch
stream-finished_example = stream-finished ctx 1 source none (rounds 4) refl

abbrev to_the_end : List Turn
to_the_end = rounds (suc (length (batches (pump tight nothing_seen source none))))

stream_ends_example :
    (e : Outcome) × (e ≢ hanging)
    × ((stream tight 1 source none to_the_end).outcome ≡ some e)
    × ((stream tight 1 source none to_the_end).yielded
        ≡ batches (pump tight nothing_seen source none))
stream_ends_example = stream_ends tight 1 source none

-- The deadline passes while the reader is away and the queue is full.
slow_reader : (stream ctx 1 source none (put ∷ expire ∷ [])).outcome ≡ some hanging
unfolding turns pump should_stop budget_violated count_batch
slow_reader = refl

pump_prefix_example :
    (n : ℕ) × (last : Item ℕ ℕ) × (pump tight nothing_seen source none
      ≡ map passed (take n source) ++ last ∷ [])
    × IsEnd last
    × All (Goes tight) (take n source)
    × (last ≡ done → (take n source ≡ source) × (no_failure ≡ none))
pump_prefix_example = pump_prefix tight nothing_seen source none

pump-All_example : pump ctx nothing_seen source none ≡ map passed source ++ ending none ∷ []
unfolding should_stop
pump-All_example = pump-All ctx nothing_seen source none (refl, (refl, (refl, tt))) (omega arith) tt
