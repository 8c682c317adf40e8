-- ===== src/Federation/Provider/Builds/Once.antt =====
-- However the tasks interleave, no source gets a second pool, and all tasks of a source get the same.
use nexcraft.Base.{
  ℕ, String, ◌≡◌, refl, Option, none, some, List, [], ◌∷◌, ◌++◌, arith, eq_iff, sym, ◌∙◌, ap, subst,
}
use nexcraft.Base.Dict
use nexcraft.Base.Dict.{IsUnique, set-IsUnique, get-set, set_absent, contains-get}
use nexcraft.Federation.Provider.Builds.{
  Phase, idle, waiting, building, raised, returned, Builds, start, look, look_again, lock, finish,
  at_phase, turn, run,
}

module _ (source : ℕ → String) where
  pub record IsSound (s : Builds) : Type 0 where
    pub built : s.created ≡ s.pools
    pub unique : IsUnique s.pools
    pub holds : (t : ℕ) → s.phase t ≡ building → s.holder (source t) ≡ some t
    pub fresh : (t : ℕ) → s.phase t ≡ building → Dict.get (source t) s.pools ≡ none
    pub got : (t pool : ℕ) → s.phase t ≡ returned pool → Dict.get (source t) s.pools ≡ some pool

  look-IsSound :
      (s : Builds) (t : ℕ) (o : Option ℕ)
      → Dict.get (source t) s.pools ≡ o
      → IsSound s
      → IsSound (look s t o)
  unfolding look
  look-IsSound s t (some pool) e h = record {
    built = h.built;
    unique = h.unique;
    holds = λ u. ground (arith, h.holds u);
    fresh = λ u. ground (arith, h.fresh u);
    got = λ u p. ground (arith, h.got u p);
  }
  look-IsSound s t none e h = record {
    built = h.built;
    unique = h.unique;
    holds = λ u. ground (arith, h.holds u);
    fresh = λ u. ground (arith, h.fresh u);
    got = λ u p. ground (arith, h.got u p);
  }

  look_again-IsSound :
      (s : Builds) (t : ℕ) (o : Option ℕ)
      → s.holder (source t) ≡ none
      → Dict.get (source t) s.pools ≡ o
      → IsSound s
      → IsSound (look_again s t (source t) o)
  unfolding look_again
  look_again-IsSound s t (some pool) free e h = record {
    built = h.built;
    unique = h.unique;
    holds = λ u. ground (arith, h.holds u);
    fresh = λ u. ground (arith, h.fresh u);
    got = λ u p. ground (arith, h.got u p);
  }
  look_again-IsSound s t none free e h = record {
    built = h.built;
    unique = h.unique;
    holds = λ u. ground (arith, h.holds u, eq_iff (source t) (source u));
    fresh = λ u. ground (arith, h.fresh u);
    got = λ u p. ground (arith, h.got u p);
  }

  lock-IsSound :
      (s : Builds) (t : ℕ) (o : Option ℕ)
      → s.holder (source t) ≡ o
      → IsSound s
      → IsSound (lock s t (source t) o)
  unfolding lock
  lock-IsSound s t (some other) e h = h
  lock-IsSound s t none e h = look_again-IsSound s t (Dict.get (source t) s.pools) e refl h

  finish-IsSound :
      (s : Builds) (t : ℕ) (outcome : Option ℕ)
      → s.phase t ≡ building
      → IsSound s
      → IsSound (finish s t (source t) outcome)
  unfolding finish
  finish-IsSound s t (some pool) e h =
      let new = contains-get (source t) s.pools (h.fresh t e) in
      record {
        built =
            ap (λ d. d ++ (source t, pool) ∷ []) h.built
            ∙ sym (set_absent (source t) pool s.pools new);
        unique = set-IsUnique (source t) pool s.pools h.unique;
        holds = λ u. ground (arith, h.holds u, h.holds t e, eq_iff (source t) (source u));
        fresh = λ u. ground (
          arith,
          h.fresh u,
          h.holds u,
          h.holds t e,
          eq_iff (source t) (source u),
          get-set (source t) (source u) pool s.pools,
        );
        got = λ u p. ground (
          arith,
          h.got u p,
          h.fresh t e,
          eq_iff (source t) (source u),
          get-set (source t) (source u) pool s.pools,
        );
      }
  finish-IsSound s t none e h = record {
    built = h.built;
    unique = h.unique;
    holds = λ u. ground (arith, h.holds u, h.holds t e, eq_iff (source t) (source u));
    fresh = λ u. ground (arith, h.fresh u);
    got = λ u p. ground (arith, h.got u p);
  }

  at_phase-IsSound :
      (s : Builds) (t : ℕ) (outcome : Option ℕ) (p : Phase)
      → s.phase t ≡ p
      → IsSound s
      → IsSound (at_phase s t (source t) outcome p)
  unfolding at_phase
  at_phase-IsSound s t outcome idle e h = look-IsSound s t (Dict.get (source t) s.pools) refl h
  at_phase-IsSound s t outcome waiting e h = lock-IsSound s t (s.holder (source t)) refl h
  at_phase-IsSound s t outcome building e h = finish-IsSound s t outcome e h
  at_phase-IsSound s t outcome (returned pool) e h = h
  at_phase-IsSound s t outcome raised e h = h

  run-IsSound :
      (s : Builds) (turns : List (ℕ × Option ℕ)) → IsSound s → IsSound (run source s turns)
  unfolding run turn
  run-IsSound s [] h = h
  run-IsSound s ((t, outcome) ∷ rest) h =
      run-IsSound (turn source s t outcome) rest (at_phase-IsSound s t outcome (s.phase t) refl h)

  start-IsSound : IsSound start
  start-IsSound = record {
    built = refl;
    unique = tt;
    holds = λ t e. cc;
    fresh = λ t e. unfold Dict.get in refl;
    got = λ t p e. cc;
  }

  -- After any turns of any tasks: the factories made no second pool for any source, the pools made
  -- are the provider's pools, and each task that returned has its source's pool.
  pub created-run :
      (turns : List (ℕ × Option ℕ))
      → IsUnique (run source start turns).created
        × ((run source start turns).created ≡ (run source start turns).pools)
        × ((t pool : ℕ)
            → (run source start turns).phase t ≡ returned pool
            → Dict.get (source t) (run source start turns).pools ≡ some pool)
  created-run turns =
      let h = run-IsSound start turns start-IsSound in
      (subst (λ d. IsUnique d) (sym h.built) h.unique, h.built, h.got)
