-- ===== src/Base/Outcome.antt =====
-- How a request ends: with a value, or with the exception that left the handler.
use Prim.Native.Nat.{ℕ}
use Prim.Native.String.{String}
use mathlib.Core.Path.{◌≡◌, refl}
use mathlib.Core.Bool.{Bool, true, false}
use mathlib.Core.Option.{Option, none, some}

-- `http` is an `HTTPException` with its status code and detail; the others are the exceptions of
-- SQLAlchemy and of Python that no handler of the services catches.
pub data Error : Type 0 where
  http : ℕ → String → Error
  integrity_error multiple_results attribute_error value_error key_error validation_error
        database_error :
      Error

-- The value of a coroutine, or what it raised.
pub data Result {ℓ} (A : Type ℓ) : Type ℓ where
  ok : A → Result A
  err : Error → Result A

-- `await` of one coroutine in another: an exception passes through.
module _ {ℓ κ} {A : Type ℓ} {B : Type κ} where
  infixl 5 ◌>>=◌ ◌>>◌
  abbrev pub ◌>>=◌ : Result A → (A → Result B) → Result B
  err raised >>= rest = err raised
  ok value >>= rest = rest value

  abbrev pub ◌>>◌ : Result A → Result B → Result B
  err raised >> rest = err raised
  ok value >> rest = rest

  -- Where the whole is answered, so was the part that was awaited.
  pub await-eq-ok :
      {answer : B} (rest : A → Result B) (m : Result A)
      → (m >>= rest) ≡ ok answer
      → (value : A) × (rest value ≡ ok answer) × (m ≡ ok value)
  await-eq-ok rest (err raised) h = cc
  await-eq-ok rest (ok value) h = (value, h, refl)

-- `if c: raise e`
abbrev pub raise_if : Bool → Error → Result (Unit {0})
raise_if c e = elim c [ true ↦ err e | false ↦ ok tt ]

-- `if not o: raise e`, or an attribute of `None`
abbrev pub or_raise {ℓ} : {A : Type ℓ} → Option A → Error → Result A
or_raise none e = err e
or_raise (some a) e = ok a

pub ok-injective {ℓ} : {A : Type ℓ} {a b : A} → ok a ≡ ok b → a ≡ b
ok-injective h = cc
