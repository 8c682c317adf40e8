-- ===== src/Base/Exec.antt =====
-- Methods that change an object or the world outside and may raise: what was done before a raise
-- stays done, so the state comes back beside the error too.
use mathlib.Core.Path.{◌≡◌, refl}
use nexcraft.Base.Results.{Error, Result, ok, err}

abbrev pub Exec {ℓ} : Type ℓ → Type ℓ → Type ℓ
Exec S A = S → Result A × S

module _ {ℓ} {S A : Type ℓ} where
  abbrev pub pure : A → Exec S A
  pure a s = (ok a, s)

  abbrev pub raise : Error → Exec S A
  raise e s = (err e, s)

  abbrev pub lift : Result A → Exec S A
  lift r s = (r, s)

  -- `try: m finally: cleanup`, with a cleanup that never raises.
  abbrev pub try_finally : Exec S A → (S → S) → Exec S A
  try_finally m cleanup s = ((m s).0, cleanup (m s).1)

  -- `try: m except Exception: pass`
  abbrev pub ignore : Exec S A → S → S
  ignore m s = (m s).1

module _ {ℓ} {S A B : Type ℓ} where
  abbrev pub resume : Result A → (A → Exec S B) → Exec S B
  resume (ok a) f s = f a s
  resume (err e) f s = (err e, s)

  infixl 5 ◌>>=◌
  abbrev pub ◌>>=◌ : Exec S A → (A → Exec S B) → Exec S B
  ◌>>=◌ m f s = resume (m s).0 f (m s).1

  -- Inversion of a successful bind.
  pub bind-eq-ok :
      (m : Exec S A) (f : A → Exec S B) (s : S) {b : B}
      → (◌>>=◌ m f s).0 ≡ ok b
      → (a : A) × ((m s).0 ≡ ok a) × (◌>>=◌ m f s ≡ f a (m s).1)
  bind-eq-ok m f s h = go (m s).0 refl h
    where
      go :
          {b : B} (r : Result A)
          → (m s).0 ≡ r
          → (resume r f (m s).1).0 ≡ ok b
          → (a : A) × ((m s).0 ≡ ok a) × (resume (m s).0 f (m s).1 ≡ f a (m s).1)
      go (ok a) e k = (a, e, rw e)
      go (err x) e k = cc
