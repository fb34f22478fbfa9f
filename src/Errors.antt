-- ===== src/Errors.antt =====
-- src/sparkpilot/exceptions.py: the errors of the services, and the result of a call that may raise
-- one. A raise ends the transaction, so an error carries no state.
use spark_pilot.Prelude.{ℕ, String, Bool, List, ◌≡◌, refl, if◌then◌else◌}
use spark_pilot.Models.{PolicyMessage}

-- The details, by what they are formatted from.
pub data Violation : Type 0 where
  text : String → Violation
  blocked_keys : List String → Violation
  policy_violations : List (String × PolicyMessage) → Violation
  timeout_above : ℕ → Violation
  golden_path_missing : String → Violation

pub data Limit : Type 0 where
  concurrent_runs vcpu : ℕ → Limit

pub data ServiceError : Type 0 where
  entity_not_found conflict gone : String → ServiceError
  validation : Violation → ServiceError
  quota_exceeded : Limit → ServiceError
  -- An exception that is no `SparkPilotError`: the request ends with status 500.
  uncaught : String → ServiceError

pub data Result {ℓ} (A : Type ℓ) : Type ℓ where
  err : ServiceError → Result A
  ok : A → Result A

-- `if test: raise error`
abbrev pub raise_if : Bool → ServiceError → Result (Unit {0})
raise_if test error = if test then err error else ok tt

pub ok-injective {ℓ} : {A : Type ℓ} {a b : A} → ok a ≡ ok b → a ≡ b
ok-injective h = cc

module _ {ℓ κ} {A : Type ℓ} {B : Type κ} where
  infixl 5 ◌>>=◌
  -- What follows a call, which a raise skips.
  abbrev pub ◌>>=◌ : (call : Result A) (rest : A → Result B) → Result B
  err raised >>= rest = err raised
  ok value >>= rest = rest value

  pub >>=-eq-ok :
      (call : Result A) (rest : A → Result B) {b : B}
      → (call >>= rest) ≡ ok b
      → (value : A) × (call ≡ ok value) × (rest value ≡ ok b)
  >>=-eq-ok (err raised) rest returned = cc
  >>=-eq-ok (ok value) rest returned = (value, refl, returned)

infixl 5 ◌>>◌
abbrev pub ◌>>◌ {ℓ} : {B : Type ℓ} → Result (Unit {0}) → Result B → Result B
test >> rest = test >>= λ _. rest
