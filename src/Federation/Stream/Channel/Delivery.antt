-- ===== src/Federation/Stream/Channel/Delivery.antt =====
-- What the reader of a stream gets, however the turns of pump, reader and clock fall.
use nexcraft.Base.{
  ℕ, ◌≡◌, refl, sym, ap, ◌∙◌, Option, none, some, List, [], ◌∷◌, ◌++◌, map, append_assoc, inl, inr,
  Bool-cases, length,
}
use nexcraft.Federation.Stream.{Batch, Item, batch, done, exception}
use nexcraft.Federation.Stream.Channel.{
  Outcome, finished, failed, hanging, Channel, Turn, put, get, expire, is_full, put_next, receive,
  get_next, give_up, take_turn, turn, turns,
}

module _ {H C : Type 0} where
  -- What was yielded and what is still on its way make up the items of the pump.
  abbrev pub Ordered : List (Item H C) → Channel H C → Option Outcome → Type 0
  Ordered items c none = map batch c.yielded ++ (c.queue ++ c.to_put) ≡ items
  Ordered items c (some finished) =
      (rest : List (Item H C)) × (map batch c.yielded ++ done ∷ rest ≡ items)
  Ordered items c (some (failed e)) =
      (rest : List (Item H C)) × (map batch c.yielded ++ rest ≡ items)
  Ordered items c (some hanging) = (rest : List (Item H C)) × (map batch c.yielded ++ rest ≡ items)

  map-batch_snoc :
      (bs : List (Batch H C)) (b : Batch H C) (rest : List (Item H C))
      → map batch (bs ++ b ∷ []) ++ rest ≡ map batch bs ++ batch b ∷ rest
  map-batch_snoc [] b rest = refl
  map-batch_snoc (x ∷ bs) b rest = ap (λ l. batch x ∷ l) (map-batch_snoc bs b rest)

  receive-Ordered :
      (items : List (Item H C)) (c : Channel H C) (rest : List (Item H C)) (item : Item H C)
      → c.outcome ≡ none
      → map batch c.yielded ++ item ∷ (rest ++ c.to_put) ≡ items
      → Ordered items (receive c rest item) (receive c rest item).outcome
  unfolding receive
  receive-Ordered items c rest (batch b) e h =
      rw e (map-batch_snoc c.yielded b (rest ++ c.to_put) ∙ h)
  receive-Ordered items c rest done e h = (rest ++ c.to_put, h)
  receive-Ordered items c rest (exception x) e h = (exception x ∷ (rest ++ c.to_put), h)

  put_next-Ordered :
      (queue_size : ℕ) (items : List (Item H C)) (c : Channel H C) (l : List (Item H C))
      → c.outcome ≡ none
      → c.to_put ≡ l
      → map batch c.yielded ++ (c.queue ++ c.to_put) ≡ items
      → Ordered items (put_next queue_size c l) (put_next queue_size c l).outcome
  unfolding put_next
  put_next-Ordered queue_size items c [] e l h = rw e h
  put_next-Ordered queue_size items c (x ∷ xs) e l h =
      elim (Bool-cases (is_full queue_size (length c.queue))) [
        | inl full ↦ rw (full, e) h
        | inr room ↦
            rw (room, e)
              (ap (λ r. map batch c.yielded ++ r) (append_assoc c.queue (x ∷ []) xs) ∙ rw l at h)
      ]

  give_up-Ordered :
      (queue_size : ℕ) (items : List (Item H C)) (c : Channel H C) (l : List (Item H C))
      → map batch c.yielded ++ (c.queue ++ c.to_put) ≡ items
      → Ordered items (give_up queue_size c l) (give_up queue_size c l).outcome
  unfolding give_up
  give_up-Ordered queue_size items c [] h = (c.queue ++ c.to_put, h)
  give_up-Ordered queue_size items c (x ∷ xs) h =
      elim (Bool-cases (is_full queue_size (length c.queue))) [
        | inl full ↦ rw full (c.queue ++ c.to_put, h)
        | inr room ↦ rw room (c.queue ++ c.to_put, h)
      ]

  turn-Ordered :
      (queue_size : ℕ) (items : List (Item H C)) (c : Channel H C) (t : Turn) (o : Option Outcome)
      → c.outcome ≡ o
      → Ordered items c o
      → Ordered items (take_turn queue_size c o t) (take_turn queue_size c o t).outcome
  unfolding take_turn
  turn-Ordered queue_size items c t (some end) e h = rw e h
  turn-Ordered queue_size items c put none e h =
      put_next-Ordered queue_size items c c.to_put e refl h
  turn-Ordered queue_size items c get none e h = go c.queue refl
    where
      go : (q : List (Item H C)) → c.queue ≡ q → Ordered items (get_next c q) (get_next c q).outcome
      go [] empty = rw e h
      go (item ∷ rest) shape =
          receive-Ordered items c rest item e
            (ap (λ q. map batch c.yielded ++ (q ++ c.to_put)) (sym shape) ∙ h)
  turn-Ordered queue_size items c expire none e h = give_up-Ordered queue_size items c c.to_put h

  pub turns-Ordered :
      (queue_size : ℕ) (items : List (Item H C)) (c : Channel H C) (ts : List Turn)
      → Ordered items c c.outcome
      → Ordered items (turns queue_size c ts) (turns queue_size c ts).outcome
  unfolding turns turn
  turns-Ordered queue_size items c [] h = h
  turns-Ordered queue_size items c (t ∷ ts) h =
      turns-Ordered queue_size items (turn queue_size c t) ts
        (turn-Ordered queue_size items c t c.outcome refl h)
