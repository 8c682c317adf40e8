-- ===== src/Federation/Stream/Channel/Reader.antt =====
-- The promises of a stream to its reader: the queue stays bounded, budgets hold at every moment, a
-- stream that finishes was complete, and a reader that keeps reading comes to the end.
use nexcraft.Base.{
  ℕ, zero, suc, ◌≤◌, ◌<◌, ◌≡◌, ◌≢◌, refl, sym, ap, ◌∙◌, false, Option, none, some, List, [], ◌∷◌,
  ◌++◌, map, append_assoc, append-nil, arith, subst, take, length, length-append, Error,
}
use nexcraft.Federation.Core.{QueryContext}
use nexcraft.Federation.Stream.{
  Batch, Moment, Item, batch, done, exception, nothing_seen, pump, batches, total_rows, total_bytes,
}
use nexcraft.Federation.Stream.Budget.{Within, total-pump}
use nexcraft.Federation.Stream.Order.{IsEnd, passed, sources, pump_prefix}
use nexcraft.Federation.Stream.Channel.Delivery.{Ordered, turns-Ordered}
use nexcraft.Federation.Stream.Channel.{
  Outcome, finished, failed, hanging, Channel, Turn, put, get, expire, is_full, opened, put_next,
  receive, get_next, give_up, take_turn, turn, turns,
}

Within-le : (m n : ℕ) (l : Option ℕ) → m ≤ n → Within n l → Within m l
Within-le m n none h w = tt
Within-le m n (some limit) h w = omega arith

not_full : (queue_size : ℕ) → is_full queue_size 0 ≡ false
unfolding is_full
not_full queue_size = ground arith

module _ {H C : Type 0} where
  -- The queue never holds more items than its size, if it has one.
  abbrev pub IsBounded : ℕ → Channel H C → Type 0
  IsBounded queue_size c = 0 < queue_size → length c.queue ≤ queue_size

  take_turn-IsBounded :
      (queue_size : ℕ) (c : Channel H C) (o : Option Outcome) (t : Turn)
      → IsBounded queue_size c
      → IsBounded queue_size (take_turn queue_size c o t)
  unfolding take_turn
  take_turn-IsBounded queue_size c (some end) t h = h
  take_turn-IsBounded queue_size c none put h = go c.to_put
    where
      go : (l : List (Item H C)) → IsBounded queue_size (put_next queue_size c l)
      go [] = h
      go (x ∷ xs) = λ pos. ground (arith, h pos, length-append c.queue (x ∷ []))
  take_turn-IsBounded queue_size c none get h = go c.queue refl
    where
      go : (q : List (Item H C)) → c.queue ≡ q → IsBounded queue_size (get_next c q)
      go [] e = h
      go (batch b ∷ rest) e = λ pos. omega (arith, h pos, ap length e)
      go (done ∷ rest) e = λ pos. omega (arith, h pos, ap length e)
      go (exception x ∷ rest) e = λ pos. omega (arith, h pos, ap length e)
  take_turn-IsBounded queue_size c none expire h = go c.to_put
    where
      go : (l : List (Item H C)) → IsBounded queue_size (give_up queue_size c l)
      go [] = h
      go (x ∷ xs) = h

  turns-IsBounded :
      (queue_size : ℕ) (c : Channel H C) (ts : List Turn)
      → IsBounded queue_size c
      → IsBounded queue_size (turns queue_size c ts)
  unfolding turns turn
  turns-IsBounded queue_size c [] h = h
  turns-IsBounded queue_size c (t ∷ ts) h =
      turns-IsBounded queue_size (turn queue_size c t) ts
        (take_turn-IsBounded queue_size c c.outcome t h)

  -- Items that begin with batches hold at least those.
  abbrev TotalWithin : List (Batch H C) → List (Item H C) → Type 0
  TotalWithin bs items =
      (total_rows bs ≤ total_rows (batches items)) × (total_bytes bs ≤ total_bytes (batches items))

  total_prefix :
      (bs : List (Batch H C)) (rest : List (Item H C)) → TotalWithin bs (map batch bs ++ rest)
  total_prefix [] rest = (omega arith, omega arith)
  total_prefix (b ∷ bs) rest =
      let h = total_prefix bs rest in (omega (arith, h.0), omega (arith, h.1))

  yielded-prefix :
      (items : List (Item H C)) (c : Channel H C) (o : Option Outcome)
      → Ordered items c o
      → (rest : List (Item H C)) × (map batch c.yielded ++ rest ≡ items)
  yielded-prefix items c none h = (c.queue ++ c.to_put, h)
  yielded-prefix items c (some finished) h = (done ∷ h.0, h.1)
  yielded-prefix items c (some (failed e)) h = h
  yielded-prefix items c (some hanging) h = h

  map-passed : (xs : List (Batch H C × Moment)) → map passed xs ≡ map batch (sources xs)
  map-passed [] = refl
  map-passed (x ∷ xs) = ap (λ l. batch x.0 ∷ l) (map-passed xs)

  batches-map :
      (bs : List (Batch H C)) (last : Item H C)
      → IsEnd last
      → batches (map batch bs ++ last ∷ []) ≡ bs
  batches-map [] (batch b) ends = elim ends [ ]
  batches-map [] done ends = refl
  batches-map [] (exception e) ends = refl
  batches-map (b ∷ bs) last ends = ap (λ l. b ∷ l) (batches-map bs last ends)

  -- The batches before the first ending are determined.
  before_end :
      (xs ys : List (Batch H C)) (a b : Item H C) (r q : List (Item H C))
      → IsEnd a
      → IsEnd b
      → map batch xs ++ a ∷ r ≡ map batch ys ++ b ∷ q
      → (xs ≡ ys) × (a ≡ b)
  before_end [] [] a b r q ha hb h = (refl, cc)
  before_end [] (y ∷ ys) (batch x) b r q ha hb h = elim ha [ ]
  before_end [] (y ∷ ys) done b r q ha hb h = cc
  before_end [] (y ∷ ys) (exception e) b r q ha hb h = cc
  before_end (x ∷ xs) [] a (batch y) r q ha hb h = elim hb [ ]
  before_end (x ∷ xs) [] a done r q ha hb h = cc
  before_end (x ∷ xs) [] a (exception e) r q ha hb h = cc
  before_end (x ∷ xs) (y ∷ ys) a b r q ha hb h =
      let k = before_end xs ys a b r q ha hb (cc) in (cc (k.0, h), k.1)

-- The turns of a reader and a pump that take turns one by one.
abbrev pub rounds : ℕ → List Turn
rounds zero = []
rounds (suc n) = put ∷ get ∷ rounds n

module _ {H C : Type 0} where
  -- How an ending looks to the reader.
  abbrev pub seen_as : Item H C → Outcome
  seen_as (batch b) = finished
  seen_as done = finished
  seen_as (exception e) = failed e

  not_hanging : (item : Item H C) → seen_as item ≢ hanging
  not_hanging (batch b) e = cc
  not_hanging done e = cc
  not_hanging (exception x) e = cc

  abbrev idle_with : List (Item H C) → List (Batch H C) → Option Outcome → Channel H C
  idle_with items y o = record { to_put = items; queue = []; yielded = y; outcome = o }

  -- The pump puts an item, and the reader takes it.
  one_round :
      (queue_size : ℕ) (x : Item H C) (items : List (Item H C)) (y : List (Batch H C))
      → turn queue_size (turn queue_size (idle_with (x ∷ items) y none) put) get
        ≡ receive (idle_with items y none) [] x
  unfolding turn
  one_round queue_size x items y = rw (not_full queue_size)

  drain :
      (queue_size : ℕ) (y bs : List (Batch H C)) (last : Item H C)
      → IsEnd last
      → turns queue_size (idle_with (map batch bs ++ last ∷ []) y none) (rounds (suc (length bs)))
        ≡ idle_with [] (y ++ bs) (some (seen_as last))
  unfolding turns receive
  drain queue_size y [] (batch b) ends = elim ends [ ]
  drain queue_size y [] done ends = one_round queue_size done [] y ∙ rw append-nil
  drain queue_size y [] (exception e) ends = one_round queue_size (exception e) [] y ∙ rw append-nil
  drain queue_size y (b ∷ bs) last ends =
      ap (λ c. turns queue_size c (rounds (suc (length bs))))
        (one_round queue_size (batch b) (map batch bs ++ last ∷ []) y)
      ∙ drain queue_size (y ++ b ∷ []) bs last ends
      ∙ rw append_assoc

module _ {H C : Type 0} (ctx : QueryContext) (queue_size : ℕ) (source : List (Batch H C × Moment))
    (failure : Option Error) where
  abbrev items : List (Item H C)
  items = pump ctx nothing_seen source failure

  -- The stream after some turns of pump, reader and clock.
  abbrev pub stream : List Turn → Channel H C
  stream ts = turns queue_size (opened items) ts

  -- At every moment the batches that the reader has are within the budgets of rows and bytes, and
  -- the queue within its size.
  pub stream_budget :
      (ts : List Turn)
      → Within (total_rows (stream ts).yielded) ctx.max_rows
        × Within (total_bytes (stream ts).yielded) ctx.max_bytes
        × (0 < queue_size → length (stream ts).queue ≤ queue_size)
  stream_budget ts =
      let (rest, e) =
        yielded-prefix items (stream ts) (stream ts).outcome
          (turns-Ordered queue_size items (opened items) ts refl) in
      let k =
        subst (λ l. TotalWithin (stream ts).yielded l) e (total_prefix (stream ts).yielded rest) in
      let w = total-pump ctx source failure in
      (
        Within-le _ _ ctx.max_rows k.0 w.0,
        Within-le _ _ ctx.max_bytes k.1 w.1,
        turns-IsBounded queue_size (opened items) ts (λ pos. omega arith),
      )

  -- A stream that finishes has delivered every batch of its source, in order, and the source ended
  -- without an exception: nothing is cut off in silence.
  pub stream-finished :
      (ts : List Turn)
      → (stream ts).outcome ≡ some finished
      → ((stream ts).yielded ≡ sources source) × (failure ≡ none)
  stream-finished ts h =
      let (n, last, shape, ends, goes, full) = pump_prefix ctx nothing_seen source failure in
      let (rest, e) =
        subst (Ordered items (stream ts)) h
          (turns-Ordered queue_size items (opened items) ts refl) in
      let (same, at_end) =
        before_end (stream ts).yielded (sources (take n source)) done last rest [] tt ends
          (e ∙ shape ∙ ap (λ l. l ++ last ∷ []) (map-passed (take n source))) in
      let (whole, normal) = full (sym at_end) in (same ∙ ap sources whole, normal)

  -- If pump and reader take turns and the deadline ends no wait, then after one turn of each for
  -- every batch that the pump let through and one more, the reader has those batches, and the stream
  -- has finished or failed: it does not hang.
  pub stream_ends :
      (e : Outcome) × (e ≢ hanging)
      × ((stream (rounds (suc (length (batches items))))).outcome ≡ some e)
      × ((stream (rounds (suc (length (batches items))))).yielded ≡ batches items)
  stream_ends =
      let (n, last, shape, ends, goes, full) = pump_prefix ctx nothing_seen source failure in
      let bs = sources (take n source) in
      let e = shape ∙ ap (λ l. l ++ last ∷ []) (map-passed (take n source)) in
      let run =
        ap (λ l. turns queue_size (opened l) (rounds (suc (length bs)))) e
        ∙ drain queue_size [] bs last ends in
      let same : batches items ≡ bs = ap batches e ∙ batches-map bs last ends in
      let end = ap (λ l. stream (rounds (suc (length l)))) same ∙ run in
      (seen_as last, not_hanging last, ap (λ c. c.outcome) end, ap (λ c. c.yielded) end ∙ sym same)
