-- ===== src/Accounts/StateTests.antt =====
-- The signed state of an invite, with an escape of the dot in place of base64.
use Prim.Native.Char.{Char, code}
use Prim.Native.String.{[], ◌∷◌}
use spark_pilot.Prelude.{none, String, Bool, true, false, ◌==◌, some, if◌then◌else◌}
use spark_pilot.Accounts.InviteState.{StateFields, Library, state_object}

unfoldable escape : String → String
escape [] = "$"
escape (c ∷ s) = let rest = escape s in if code c == b'.' then "d" ∷ rest else "c" ∷ c ∷ rest

-- The flag says that the next character stands for itself.
unfoldable unescape : Bool → String → String
unescape kept [] = ""
unescape true (c ∷ s) = c ∷ unescape false s
unescape false (c ∷ s) =
    let dotted = "." ∷ unescape false s in
    let literal = unescape true s in
    if code c == b'd' then dotted else if code c == b'c' then literal else ""

abbrev ada_state : StateFields
ada_state = record { tenant_id = "10"; user_id = "40"; token_id = "80"; exp = 9 }

abbrev library : Library
library = record {
  b64encode = escape;
  b64decode = λ s. some (unescape false s);
  mac = λ s. "signed";
  dumps = λ object. "ada";
  loads = λ s. some (state_object ada_state);
  show = λ n. "";
  int = λ s. none;
}
