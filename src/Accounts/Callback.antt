-- ===== src/Accounts/Callback.antt =====
-- `apply_invite_identity_mapping` of src/sparkpilot/services/internal_admin.py, and
-- `get_auth_callback` of src/sparkpilot/api.py from the decoded state on. The lower-cased emails are
-- arguments. A raise rolls the whole request back.
use spark_pilot.Prelude.{
  ℕ, String, Bool, true, false, not, ◌||◌, ◌==◌, Option, none, some, List, [], ◌∷◌, ◌++◌, find,
  is_blank, str_eq, if◌then◌else◌,
}
use spark_pilot.Prelude.Table.{get_row, modify_row}
use spark_pilot.Models.{
  Uuid, Time, User, MemberRole, UserIdentity, IdentityRole, AuditEvent, write_audit_event,
  login_completed, mapped_user,
}
use spark_pilot.Errors.{
  Result, ok, err, ServiceError, entity_not_found, conflict, raise_if, ◌>>=◌, ◌>>◌,
}
use spark_pilot.Accounts.Tables.{Directory, identity_key, user_key, has_actor, has_user, event}
use spark_pilot.Accounts.Invites.{consume_invite_callback_state}

abbrev pub mapped_role : MemberRole → IdentityRole
mapped_role MemberRole.admin = IdentityRole.admin
mapped_role MemberRole.member = IdentityRole.user

-- The columns that every mapping sets.
abbrev pub mapped : User → UserIdentity → UserIdentity
mapped user row = record row {
  user_id = some user.id;
  role = mapped_role user.role;
  tenant_id = some user.tenant_id;
  active = true;
}

-- Where the user had no identity, the actor is set and the team is taken away.
abbrev pub take_over : (actor : String) → User → UserIdentity → UserIdentity
take_over actor user row = mapped user (record row { actor = actor; team_id = none })

abbrev pub new_identity : Uuid → (actor : String) → User → UserIdentity
new_identity new_id actor user = record {
  id = new_id;
  user_id = some user.id;
  actor = actor;
  role = mapped_role user.role;
  tenant_id = some user.tenant_id;
  team_id = none;
  active = true;
}

abbrev pub already_mapped : String
already_mapped = "Authenticated actor is already mapped to another user."

abbrev pub is_other : UserIdentity → Option UserIdentity → Bool
is_other row none = false
is_other row (some other) = not (other.id == row.id)

-- `existing_for_actor.user_id not in {None, user.id}`
abbrev pub belongs_to_other : User → Option Uuid → Bool
belongs_to_other user none = false
belongs_to_other user (some id) = not (id == user.id)

-- The row and the table of identities, by what stands for the user and for the actor.
unfoldable pub map_identity :
    Uuid
    → (actor : String) → User
    → (existing_for_user existing_for_actor : Option UserIdentity) → List UserIdentity
    → Result (UserIdentity × List UserIdentity)
map_identity new_id actor user (some row) existing_for_actor identities = do
  raise_if (is_other row existing_for_actor) (conflict already_mapped)
  ok (mapped user row, modify_row identity_key row.id (mapped user) identities)
map_identity new_id actor user none (some row) identities = do
  raise_if (belongs_to_other user row.user_id) (conflict already_mapped)
  ok (take_over actor user row, modify_row identity_key row.id (take_over actor user) identities)
map_identity new_id actor user none none identities =
    let row = new_identity new_id actor user in ok (row, identities ++ row ∷ [])

abbrev pub log_in : Time → User → User
log_in now u = record u { last_login_at = some now }

abbrev pub mapping_events :
    (actor : String) → Option String → User → UserIdentity → List AuditEvent → List AuditEvent
mapping_events actor source_ip user row log =
    write_audit_event
      (event actor source_ip "user_identity.invite_mapping_upsert" "user_identity" row.id
        (some user.tenant_id) (mapped_user user.id))
      (write_audit_event
        (event actor source_ip "user.invite_login_completed" "user" user.id (some user.tenant_id)
          (login_completed user.email))
        log)

abbrev pub invited_user : (tenant_id user_id : Uuid) → Directory → Result User
invited_user tenant_id user_id d = elim (get_row user_key user_id d.users) [
  | none ↦ err (entity_not_found "Invite user not found.")
  | some user ↦
      if user.tenant_id == tenant_id
      then ok user
      else err (entity_not_found "Invite user not found.")
]

unfoldable pub apply_invite_identity_mapping :
    Uuid
    → Time
    → (tenant_id user_id : Uuid) → (actor : String) → Option String
    → Directory
    → Result (UserIdentity × Directory)
apply_invite_identity_mapping new_id now tenant_id user_id actor source_ip d = do
  user ← invited_user tenant_id user_id d
  (row, identities') ←
      map_identity new_id actor user (find (has_user user.id) d.identities)
        (find (has_actor actor) d.identities) d.identities
  ok (
    row,
    record d {
      identities = identities';
      users = modify_row user_key user.id (log_in now) d.users;
      audit = mapping_events actor source_ip user row d.audit;
    },
  )

-- `InviteStatePayload`, of which `_decode_invite_state` has checked the expiry.
pub record InviteStatePayload : Type 0 where
  pub tenant_id : Uuid
  pub user_id : Uuid
  pub token_id : Uuid
  pub exp : ℕ

-- A 401, the error of a service, or the identity with the tables.
pub data CallbackAnswer : Type 0 where
  unauthorized : String → CallbackAnswer
  failed : ServiceError → CallbackAnswer
  applied : UserIdentity × Directory → CallbackAnswer

abbrev pub answer_of : Result (UserIdentity × Directory) → CallbackAnswer
answer_of (err raised) = CallbackAnswer.failed raised
answer_of (ok value) = CallbackAnswer.applied value

module _ (normalize : String → String) (new_id : Uuid) (now : Time) (actor : String)
    (source_ip : Option String) where
  -- `not identity_email or identity_email != invited_email`
  abbrev pub is_not_invited : Option String → User → Bool
  is_not_invited none user = true
  is_not_invited (some email) user = is_blank email || not (str_eq email (normalize user.email))

  abbrev pub apply_invite : InviteStatePayload → Directory → Result (UserIdentity × Directory)
  apply_invite payload d = do
    (row, d') ←
        consume_invite_callback_state payload.token_id payload.tenant_id payload.user_id now d
    apply_invite_identity_mapping new_id now payload.tenant_id payload.user_id actor source_ip d'

  -- The path with an invite state. `identity_email` is the normalised claim of the verified identity.
  unfoldable pub auth_callback : Option String → InviteStatePayload → Directory → CallbackAnswer
  auth_callback identity_email payload d = elim (invited_user payload.tenant_id payload.user_id d) [
    | err raised ↦ CallbackAnswer.failed raised
    | ok user ↦
        if is_not_invited identity_email user
        then CallbackAnswer.unauthorized "Invite email does not match authenticated identity."
        else answer_of (apply_invite payload d)
  ]
