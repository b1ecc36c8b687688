-- ===== src/Prelude/Outcome.antt =====
-- Exceptions that leave the package's functions, and what a call of a host's callback can do.
use Prim.Native.String.{String}
use mathlib.Core.Path.{◌≡◌, refl}
use mathlib.Core.Bool.{Bool, true, false}

pub data Error : Type 0 where
  value_error key_error index_error type_error attribute_error : String → Error
  -- an exception of a host's callback that the package does not catch, by the name of its class
  callback_error : String → Error

pub data Result {ℓ} (A : Type ℓ) : Type ℓ where
  ok : A → Result A
  raise : Error → Result A

module _ {ℓ κ} {A : Type ℓ} {B : Type κ} where
  infixl 5 ◌>>=◌
  -- The next step runs unless an exception was raised.
  abbrev pub ◌>>=◌ : Result A → (A → Result B) → Result B
  raise e >>= next = raise e
  ok value >>= next = next value

  -- What a pair of steps that raised nothing has done.
  pub >>=-eq-ok :
      (step : Result A) (next : A → Result B) {answer : B} (returns : (step >>= next) ≡ ok answer)
      → (value : A) × (step ≡ ok value) × (next value ≡ ok answer)
  >>=-eq-ok (raise e) next returns = cc
  >>=-eq-ok (ok value) next returns = (value, refl, returns)

-- `if not b: raise e`
abbrev pub require : Bool → Error → Result (Unit {0})
require true e = ok tt
require false e = raise e

module _ {ℓ} {B : Type ℓ} where
  infixl 5 ◌>>◌
  -- a step whose answer is not used
  abbrev pub ◌>>◌ : Result (Unit {0}) → Result B → Result B
  step >> next = step >>= λ _. next

-- A host's callback returns, or raises an exception of the class that is named.
pub data Call {ℓ} (A : Type ℓ) : Type ℓ where
  returned : A → Call A
  raised : String → Call A

-- `ok` is injective.
pub ok-injective {ℓ} : {A : Type ℓ} {a b : A} → ok a ≡ ok b → a ≡ b
ok-injective h = cc
