-- ===== src/Common/Exceptions.antt =====
-- What a call of the program's code ends in: a value, or an exception.
use mathlib.Core.Path.{◌≡◌, refl}

-- The exceptions that a node of the recovery graph can raise, and that of a commit.
pub data Failure : Type 0 where
  approval_required : Failure  -- ApprovalRequired, of the policy engine
  scorer_failed : Failure  -- the ML model, or its artifacts
  model_failed : Failure  -- the language model, or its reply
  link_failed : Failure  -- the payment-link call
  bad_value : Failure  -- ValueError
  integrity_error : Failure  -- IntegrityError, of the database

pub data Outcome {ℓ} (A : Type ℓ) : Type ℓ where
  returned : A → Outcome A
  raised : Failure → Outcome A

infixl 5 ◌>>=◌
abbrev pub ◌>>=◌ {ℓ κ} : {A : Type ℓ} {B : Type κ} → Outcome A → (A → Outcome B) → Outcome B
returned a >>= f = f a
raised e >>= f = raised e

pub >>=-eq-returned {ℓ κ} :
    {A : Type ℓ} {B : Type κ} (m : Outcome A) (f : A → Outcome B) {b : B}
    → (m >>= f) ≡ returned b
    → (a : A) × (m ≡ returned a) × (f a ≡ returned b)
>>=-eq-returned (returned a) f h = (a, refl, h)
>>=-eq-returned (raised e) f h = cc
