-- ===== src/Federation/Stream/Channel.antt =====
-- packages/nexcraft/nexcraft/streaming/cancellable_stream.py: the bounded queue between the pump and
-- the reader, as turns of the two tasks and of the clock. The pump looks at the clock and at the
-- event only when a batch arrives, so the items that it will put are given from the start.
pub mod Delivery
pub mod Reader
use nexcraft.Base.{
  ℕ, zero, suc, ◌+◌, Bool, true, false, Option, none, some, List, [], ◌∷◌, ◌++◌, leb, ltb, ◌&&◌,
  not, ◌==◌, if◌then◌else◌, length, Error, timeout_error, Result, ok, err,
}
use nexcraft.Federation.Stream.{Batch, Item, batch, done, exception}

-- How a stream ended for its reader, or that the reader waits for ever in `_cleanup`.
pub data Outcome : Type 0 where
  finished : Outcome
  failed : Error → Outcome
  hanging : Outcome

pub record Channel (H C : Type 0) : Type 0 where
  pub to_put : List (Item H C)
  pub queue : List (Item H C)
  pub yielded : List (Batch H C)
  pub outcome : Option Outcome

-- The pump's turn, the reader's turn, and the end of the reader's wait by the deadline.
pub data Turn : Type 0 where
  put get expire : Turn

-- `asyncio.Queue(maxsize)` is unbounded for a maxsize of 0.
is_full : ℕ → ℕ → Bool
is_full queue_size n = ltb 0 queue_size && leb queue_size n

module _ {H C : Type 0} where
  abbrev pub opened : List (Item H C) → Channel H C
  opened items = record { to_put = items; queue = []; yielded = []; outcome = none }

  -- A put into a full queue waits.
  put_next : ℕ → Channel H C → List (Item H C) → Channel H C
  unfolding is_full
  put_next queue_size c [] = c
  put_next queue_size c (item ∷ items) =
      if is_full queue_size (length c.queue)
      then c
      else record c { to_put = items; queue = c.queue ++ item ∷ [] }

  -- The body of the loop of `_gen`, with the item that `_next_item` took off the queue.
  receive : Channel H C → List (Item H C) → Item H C → Channel H C
  receive c rest (batch b) = record c { queue = rest; yielded = c.yielded ++ b ∷ [] }
  receive c rest done = record c { queue = rest; outcome = some finished }
  receive c rest (exception e) = record c { queue = rest; outcome = some (failed e) }

  get_next : Channel H C → List (Item H C) → Channel H C
  unfolding receive
  get_next c [] = c
  get_next c (item ∷ rest) = receive c rest item

  -- The deadline ended the reader's wait, and `_cleanup` cancels a pump that is not done and awaits
  -- it. The pump catches the cancellation and puts it into the queue, which nobody reads any more.
  give_up : ℕ → Channel H C → List (Item H C) → Channel H C
  unfolding is_full
  give_up queue_size c [] = record c { outcome = some (failed timeout_error) }
  give_up queue_size c (item ∷ items) = record c {
    outcome = some (if is_full queue_size (length c.queue) then hanging else failed timeout_error);
  }

  -- After its end nothing moves. A pump that put a sentinel or an exception is done.
  take_turn : ℕ → Channel H C → Option Outcome → Turn → Channel H C
  unfolding put_next get_next give_up
  take_turn queue_size c (some end) t = c
  take_turn queue_size c none put = put_next queue_size c c.to_put
  take_turn queue_size c none get = get_next c c.queue
  take_turn queue_size c none expire = give_up queue_size c c.to_put

  pub turn : ℕ → Channel H C → Turn → Channel H C
  unfolding take_turn
  turn queue_size c t = take_turn queue_size c c.outcome t

  unfoldable pub turns : ℕ → Channel H C → List Turn → Channel H C
  unfolding turn
  turns queue_size c [] = c
  turns queue_size c (t ∷ ts) = turns queue_size (turn queue_size c t) ts

  -- client.py, `execute_to_table`: the batches of a stream that finished.
  pub to_table : Channel H C → Option Outcome → Option (Result (List (Batch H C)))
  to_table c none = none
  to_table c (some hanging) = none
  to_table c (some finished) = some (ok c.yielded)
  to_table c (some (failed e)) = some (err e)
