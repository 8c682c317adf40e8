-- ===== src/Federation/Provider/Close.antt =====
-- `close` of connection/pooled.py drains every pool.
use nexcraft.Base.{◌≡◌, refl, List, [], ◌∷◌, All}
use nexcraft.Base.Dict
use nexcraft.Base.Exec.{ignore}
use nexcraft.Federation.Provider.{DriverPool, State, close_all, close}

-- `Made p`: a factory makes the pool `p`. `Closed p w`: it is closed in the world `w`. What the code
-- relies on: the call of `close` closes the pool, whether or not it raises, and a closed pool stays
-- closed while others close.
pub record Closing {W : Type 0} (Made : DriverPool W → Type 0) (Closed : DriverPool W → W → Type 0)
    : Type 0 where
  pub closes : (p : DriverPool W) (w : W) → Made p → Closed p (ignore p.close w)
  pub stays : (p q : DriverPool W) (w : W) → Made q → Closed p w → Closed p (ignore q.close w)

module _ {W : Type 0} (Made : DriverPool W → Type 0) (Closed : DriverPool W → W → Type 0)
    (closing : Closing Made Closed) where
  open closing use {closes, stays}

  close_all-stays :
      (p : DriverPool W) (pools : List (DriverPool W)) (w : W)
      → All Made pools
      → Closed p w
      → Closed p (close_all pools w)
  unfolding close_all
  close_all-stays p [] w made h = h
  close_all-stays p (q ∷ pools) w made h =
      close_all-stays p pools (ignore q.close w) made.1 (stays p q w made.0 h)

  close_all-closes :
      (pools : List (DriverPool W)) (w : W)
      → All Made pools
      → All (λ p. Closed p (close_all pools w)) pools
  unfolding close_all
  close_all-closes [] w made = tt
  close_all-closes (p ∷ pools) w made = (
    close_all-stays p pools (ignore p.close w) made.1 (closes p w made.0),
    close_all-closes pools (ignore p.close w) made.1,
  )

  -- After `close` the provider has no pool, and every pool that it had is closed, also when the
  -- `close` of some of them raises. It is assumed that `Closing` holds and factories made the pools.
  pub close-All :
      (s : State W)
      → All Made (Dict.values s.pools)
      → ((close s).pools ≡ []) × All (λ p. Closed p (close s).world) (Dict.values s.pools)
  unfolding close
  close-All s made = (refl, close_all-closes (Dict.values s.pools) s.world made)
