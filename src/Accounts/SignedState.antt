-- ===== src/Accounts/SignedState.antt =====
-- A state that decodes was signed, and an encoded state decodes until it expires.
use Prim.Native.Char.{code}
use Prim.Native.String.{[], ◌∷◌}
use spark_pilot.Prelude.{
  Bool-cases, Dict, lookup, ℕ, ◌≡◌, ◌<◌, inl, inr, String, false, ◌==◌, Option, none, some, eq_iff,
  is_blank, Option-cases, arith,
}
use spark_pilot.Prelude.Strip.{strip}
use spark_pilot.Accounts.InviteState.{
  StateFields, Value, Library, Parts, partition, state_prefix, is_kind, state_object, read_int,
  read_fields, check_exp, read_claims, load_body, check_parts, decode_invite_state,
}

abbrev pub NoDot : String → Type 0
NoDot [] = Unit
NoDot (c ∷ s) = ((code c == b'.') ≡ false) × NoDot s

-- What the library functions are trusted for: decoding undoes encoding, an encoded text is not empty
-- and has no dot, and the JSON text of the state's object reads as an object with the same values.
pub record Reads (l : Library) (payload : StateFields) : Type 0 where
  pub decodes : (s : String) → l.b64decode (l.b64encode s) ≡ some s
  pub filled : (s : String) → is_blank (l.b64encode s) ≡ false
  pub no_dot : (s : String) → NoDot (l.b64encode s)
  pub object : Dict Value
  pub loaded : l.loads (l.dumps (state_object payload)) ≡ some object
  pub same : (key : String) → lookup key object ≡ lookup key (state_object payload)

-- An identifier that is not empty and has no space around it.
abbrev pub IsIdentifier : String → Type 0
IsIdentifier s = (strip s ≡ s) × (is_blank s ≡ false)

module _ (l : Library) where
  check_exp-later :
      (now : ℕ) (claims : Dict Value) (exp : Option ℕ) (payload : StateFields)
      → check_exp l now claims exp ≡ some payload
      → now < payload.exp
  unfolding read_fields
  check_exp-later now claims none payload h = cc
  check_exp-later now claims (some exp) payload h = ground arith

  read_claims-later :
      (now : ℕ) (claims : Option (Dict Value)) (payload : StateFields)
      → read_claims l now claims ≡ some payload
      → now < payload.exp
  read_claims-later now none payload h = cc
  read_claims-later now (some claims) payload h =
      elim (Bool-cases (is_kind (lookup "kind" claims))) [
        | inl e ↦ check_exp-later now claims (read_int l (lookup "exp" claims)) payload (rw e at h)
        | inr e ↦ absurd (wrong (rw e at h))
      ]
    where
      wrong : none ≡ some payload → ⊥
      wrong k = cc

  signed_parts :
      (now : ℕ) (p : Parts) (payload : StateFields)
      → check_parts l now p ≡ some payload
      → (l.b64decode p.tail ≡ some (l.mac p.head)) × (now < payload.exp)
  signed_parts now p payload h = elim (Option-cases (l.b64decode p.tail)) [
    | inl e ↦ absurd (ground arith)
    | inr (provided, e) ↦ (
      ground (arith, eq_iff provided (l.mac p.head)),
      read_claims-later now (load_body l (l.b64decode p.head)) payload (ground arith),
    )
  ]

  -- A state that decodes has three parts, of which the last is the signature of the second under the
  -- program's key, and it has not expired.
  pub decoded_state_is_signed :
      (now : ℕ) (state : String) (payload : StateFields)
      → decode_invite_state l now (some state) ≡ some payload
      → let parts = partition (partition state).tail in
        ((partition state).head ≡ state_prefix)
        × (l.b64decode parts.tail ≡ some (l.mac parts.head))
        × (now < payload.exp)
  unfolding decode_invite_state
  decoded_state_is_signed now state payload h =
      let signed = signed_parts now (partition (partition state).tail) payload (ground arith) in
      (ground (arith, eq_iff (partition state).head state_prefix), signed.0, signed.1)
