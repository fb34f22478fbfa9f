-- ===== src/Workers/Faults.antt =====
-- Exceptions that the workers catch: `error_message`, `error_details` of
-- src/sparkpilot/error_handling.py and `_is_transient_dispatch_error` of
-- src/sparkpilot/services/workers_common.py. Texts are lowered as ASCII.
use Prim.Native.Char.{code}
use Prim.Native.String.{[], ◌∷◌}
use spark_pilot.Prelude.{
  ℕ, ◌+◌, ◌≡◌, refl, String, Bool, true, false, ◌&&◌, ◌||◌, ◌==◌, leb, Option, none, some, contains,
  any, if◌then◌else◌,
}
use mathlib.Core.List.{List}
use spark_pilot.Models.{Message, typed, text}

-- The classes that the handlers tell apart.
pub data FaultKind : Type 0 where
  client_error botocore_error value_error provisioning_permanent other : FaultKind

pub record Fault : Type 0 where
  pub kind : FaultKind
  pub class_name : String
  pub message : String
  pub aws_code : Option String

abbrev pub is_aws : FaultKind → Bool
is_aws FaultKind.client_error = true
is_aws FaultKind.botocore_error = true
is_aws _ = false

abbrev pub error_message : Fault → (include_type : Bool) → Message
error_message fault include_type =
    if include_type then typed fault.class_name fault.message else text fault.message

abbrev pub lower_code : ℕ → ℕ
lower_code c = if leb b'A' c && leb c b'Z' then c + 32 else c

-- The code points of a text, and of its `.lower()`.
abbrev pub codes : String → List ℕ
codes [] = List.[]
codes (c ∷ s) = List.◌∷◌ (code c) (codes s)

abbrev pub lower_codes : String → List ℕ
lower_codes [] = List.[]
lower_codes (c ∷ s) = List.◌∷◌ (lower_code (code c)) (lower_codes s)

abbrev pub is_prefix : List ℕ → List ℕ → Bool
is_prefix List.[] whole = true
is_prefix (List.◌∷◌ c cs) List.[] = false
is_prefix (List.◌∷◌ c cs) (List.◌∷◌ d ds) = c == d && is_prefix cs ds

-- `token in text`
abbrev pub is_part : List ℕ → List ℕ → Bool
is_part token List.[] = is_prefix token List.[]
is_part token (List.◌∷◌ d ds) = is_prefix token (List.◌∷◌ d ds) || is_part token ds

abbrev pub transient_codes : List String
transient_codes = List.◌∷◌ "Throttling" (
    List.◌∷◌ "ThrottlingException" (
      List.◌∷◌ "TooManyRequestsException" (
        List.◌∷◌ "ServiceUnavailableException" (
          List.◌∷◌ "InternalServerException" (
            List.◌∷◌ "RequestTimeout" (
              List.◌∷◌ "RequestTimeoutException"
                (List.◌∷◌ "ProvisionedThroughputExceededException" List.[])))))))

abbrev pub transient_class_names : List String
transient_class_names =
    List.◌∷◌ "EndpointConnectionError"
      (List.◌∷◌ "ConnectTimeoutError" (List.◌∷◌ "ReadTimeoutError" List.[]))

abbrev pub transient_tokens : List String
transient_tokens = List.◌∷◌ "throttl" (
    List.◌∷◌ "rate exceeded" (
      List.◌∷◌ "too many requests" (
        List.◌∷◌ "timeout" (
          List.◌∷◌ "temporarily unavailable"
            (List.◌∷◌ "connection reset" (List.◌∷◌ "connection aborted" List.[]))))))

abbrev has_transient_code : Option String → Bool
has_transient_code none = false
has_transient_code (some c) = contains transient_codes c

-- `_is_transient_dispatch_error`
unfoldable pub is_transient_dispatch_error : Fault → Bool
is_transient_dispatch_error fault =
    has_transient_code fault.aws_code
    || contains transient_class_names fault.class_name
    || any (λ token. is_part (codes token) (lower_codes fault.message)) transient_tokens

-- A call that may raise: what it had written to the session is in neither case undone here.
pub data Attempt (A : Type 0) : Type 0 where
  raised : Fault → Attempt A
  returned : A → Attempt A

infixl 5 ◌>>=◌
abbrev pub ◌>>=◌ : {A B : Type 0} → Attempt A → (A → Attempt B) → Attempt B
raised fault >>= f = raised fault
returned a >>= f = f a

-- A chain that returns, apart.
pub >>=-eq-returned :
    {A B : Type 0} (m : Attempt A) (f : A → Attempt B) {b : B}
    → (m >>= f) ≡ returned b
    → (a : A) × (m ≡ returned a) × (f a ≡ returned b)
>>=-eq-returned (raised fault) f h = cc
>>=-eq-returned (returned a) f h = (a, refl, h)

pub returned-injective : {A : Type 0} {a b : A} → returned a ≡ returned b → a ≡ b
returned-injective h = cc
