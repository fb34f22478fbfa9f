-- ===== src/Accounts/InviteState.antt =====
-- The signed state that an invite's login carries: `_encode_invite_state` and `_decode_invite_state` of
-- src/sparkpilot/api.py. Base64, HMAC and the text of JSON are parameters; identifiers are texts, as in
-- the body.
use Prim.Native.Char.{Char, code}
use spark_pilot.Prelude.{
  ℕ, String, Bool, true, false, not, ◌||◌, ◌==◌, leb, Option, none, some, str_eq, str_append,
  is_blank, Dict, lookup, [], ◌∷◌, if◌then◌else◌,
}
use spark_pilot.Prelude.Strip.{strip}

pub record StateFields : Type 0 where
  pub tenant_id : String
  pub user_id : String
  pub token_id : String
  pub exp : ℕ

-- A value of a JSON object, as far as it is read: `null`, a text, a number that is not negative, or
-- any other with its `str` (empty where it counts as false).
pub data Value : Type 0 where
  null : Value
  text : String → Value
  number : ℕ → Value
  other : String → Value

-- Base64 without padding, the HMAC under the program's key, and `json.dumps` with the options of the
-- call. `json.loads` is none where the text is no JSON, or no object. `int` of a text or of any other
-- value is none where it raises or is negative.
pub record Library : Type 0 where
  pub b64encode : String → String
  pub b64decode : String → Option String
  pub mac : String → String
  pub dumps : Dict Value → String
  pub loads : String → Option (Dict Value)
  pub show : ℕ → String
  pub int : String → Option ℕ

-- `s.partition(".")`
pub record Parts : Type 0 where
  pub head : String
  pub dot : Bool
  pub tail : String

abbrev pub with_head : Char → Parts → Parts
with_head c p = record p { head = String.◌∷◌ c p.head }

unfoldable pub partition : String → Parts
partition String.[] = record { head = ""; dot = false; tail = "" }
partition (String.◌∷◌ c s) =
    let rest = partition s in
    if code c == b'.' then record { head = ""; dot = true; tail = s } else with_head c rest

-- `_INVITE_STATE_PREFIX`
abbrev pub state_prefix : String
state_prefix = "sp_invite_v1"

abbrev pub dotted : String → String → String
dotted head tail = str_append head (String.◌∷◌ "." tail)

abbrev pub is_kind : Option Value → Bool
is_kind (some (Value.text kind)) = str_eq kind "invite"
is_kind _ = false

-- The dict that `_encode_invite_state` dumps.
unfoldable pub state_object : StateFields → Dict Value
state_object payload =
    ("kind", Value.text "invite")
    ∷ ("tenant_id", Value.text payload.tenant_id)
    ∷ ("user_id", Value.text payload.user_id)
    ∷ ("token_id", Value.text payload.token_id)
    ∷ ("exp", Value.number payload.exp)
    ∷ []

module _ (l : Library) where
  unfoldable pub encode_invite_state : StateFields → String
  encode_invite_state payload =
      let body = l.b64encode (l.dumps (state_object payload)) in
      dotted state_prefix (dotted body (l.b64encode (l.mac body)))

  -- `str(value or "")`
  abbrev pub read_text : Option Value → String
  read_text none = ""
  read_text (some Value.null) = ""
  read_text (some (Value.text s)) = s
  read_text (some (Value.number n)) = if n == 0 then "" else l.show n
  read_text (some (Value.other s)) = s

  -- `int(raw_exp)`
  abbrev pub read_int : Option Value → Option ℕ
  read_int none = none
  read_int (some Value.null) = none
  read_int (some (Value.text s)) = l.int s
  read_int (some (Value.number n)) = some n
  read_int (some (Value.other s)) = l.int s

  unfoldable pub read_fields : Dict Value → (exp : ℕ) → StateFields
  read_fields payload exp = record {
    tenant_id = strip (read_text (lookup "tenant_id" payload));
    user_id = strip (read_text (lookup "user_id" payload));
    token_id = strip (read_text (lookup "token_id" payload));
    exp = exp;
  }

  abbrev pub is_complete : StateFields → Bool
  is_complete f = not (is_blank f.tenant_id || is_blank f.user_id || is_blank f.token_id)

  -- The clock in seconds.
  abbrev pub check_exp : ℕ → Dict Value → Option ℕ → Option StateFields
  check_exp now payload none = none
  check_exp now payload (some exp) =
      if leb exp now
      then none
      else if is_complete (read_fields payload exp)
      then some (read_fields payload exp)
      else none

  abbrev pub read_claims : ℕ → Option (Dict Value) → Option StateFields
  read_claims now none = none
  read_claims now (some payload) =
      if is_kind (lookup "kind" payload)
      then check_exp now payload (read_int (lookup "exp" payload))
      else none

  -- `json.loads(_urlsafe_b64decode(body_enc).decode("utf-8"))`
  abbrev pub load_body : Option String → Option (Dict Value)
  load_body none = none
  load_body (some body) = l.loads body

  abbrev pub check_mac : ℕ → String → Option String → Option StateFields
  check_mac now body none = none
  check_mac now body (some provided) =
      if str_eq provided (l.mac body) then read_claims now (load_body (l.b64decode body)) else none

  abbrev pub check_parts : ℕ → Parts → Option StateFields
  check_parts now p =
      if not p.dot || is_blank p.head || is_blank p.tail
      then none
      else check_mac now p.head (l.b64decode p.tail)

  unfoldable pub decode_invite_state : ℕ → Option String → Option StateFields
  decode_invite_state now none = none
  decode_invite_state now (some state) =
      let p = partition state in
      if not (str_eq p.head state_prefix) || not p.dot
      then none
      else check_parts now (partition p.tail)
