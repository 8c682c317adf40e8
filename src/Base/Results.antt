-- ===== src/Base/Results.antt =====
-- The exceptions of packages/nexcraft/nexcraft/errors.py, and results that carry one. The class of
-- an exception is kept, its message is not; `source_message`, `budget_kind`, `limit` and `observed`
-- are fields of the exceptions and are kept.
use Prim.Native.Nat.{ℕ}
use Prim.Native.String.{String}
use mathlib.Core.Path.{◌≡◌, refl, sym}

pub data Error : Type 0 where
  timeout_error cancelled_error connection_error authentication_error : Error
  source_syntax_error source_runtime_error : (source_message : String) → Error
  schema_mismatch_error configuration_error internal_error : Error
  budget_exceeded_error : (budget_kind : String) (limit observed : ℕ) → Error
  value_error : Error
  -- an exception of another package, by its class
  foreign_error : (class_name : String) → Error

pub data Result {ℓ} (A : Type ℓ) : Type ℓ where
  err : Error → Result A
  ok : A → Result A

module _ {ℓ κ} {A : Type ℓ} {B : Type κ} where
  -- What comes after a call is skipped when the call raises.
  infixl 5 ◌>>=◌
  abbrev pub ◌>>=◌ : Result A → (A → Result B) → Result B
  ◌>>=◌ (err raised) next = err raised
  ◌>>=◌ (ok value) next = next value

  -- Both calls of a sequence that returns have returned.
  pub >>=-ok :
      {last : B} (first : Result A) (next : A → Result B)
      → ok last ≡ (first >>= next)
      → (value : A) × (next value ≡ ok last) × (first ≡ ok value)
  >>=-ok (ok value) next returned = (value, sym returned, refl)
  >>=-ok (err raised) next returned = cc
