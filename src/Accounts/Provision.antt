-- ===== src/Accounts/Provision.antt =====
-- `create_tenant_with_admin_invite` and `regenerate_user_invite` of
-- src/sparkpilot/services/internal_admin.py. Python's normalisation of an email (`strip` and `lower`)
-- is an argument, and so is what sending it answers; the webhook's errors are swallowed.
use spark_pilot.Prelude.{
  ℕ, ◌+◌, ◌*◌, String, Bool, ◌&&◌, ◌==◌, Option, none, some, [], ◌∷◌, ◌++◌, find, is_some, str_eq,
  if◌then◌else◌,
}
use spark_pilot.Prelude.Table.{get_row, modify_row}
use spark_pilot.Models.{
  Uuid, Time, Tenant, User, MemberRole, AuditEvent, write_audit_event, Details, invited,
  invite_delivery, invite_failure,
}
use spark_pilot.Errors.{
  Result, ok, err, entity_not_found, conflict, validation, text, raise_if, ◌>>=◌, ◌>>◌,
}
use spark_pilot.Accounts.Tables.{Directory, user_key, require_tenant, event}
use spark_pilot.Accounts.Tenants.{create_tenant}
use spark_pilot.Accounts.Invites.{Draw, issue_invite, invalidate_unconsumed_user_invites}

-- `now + timedelta(hours=ttl_hours)`
abbrev pub expiry : Time → (ttl_hours : ℕ) → Time
expiry now ttl_hours = now + ttl_hours * 3600000000

pub record Draft : Type 0 where
  pub tenant : Tenant
  pub user : User
  pub invite_url : String
  pub token_id : Uuid

-- What the call of the email service returns.
pub record Delivery : Type 0 where
  pub provider : String
  pub status : String
  pub provider_message_id : Option String
  pub failure_detail : Option String

-- The call returns, or raises an error of the program, by the name of its class.
pub data Sending : Type 0 where
  refused : (error_type : String) → Sending
  delivered : Delivery → Sending

module _ (created_by : String) (source_ip : Option String) (ttl_hours : ℕ) where
  abbrev pub invite_event : (action : String) → User → Time → AuditEvent
  invite_event action user expires_at =
      event created_by source_ip action "user" user.id (some user.tenant_id)
        (invited user.email expires_at)

  abbrev pub new_admin : Uuid → Uuid → String → Time → User
  new_admin user_id tenant_id email now = record {
    id = user_id;
    tenant_id = tenant_id;
    email = email;
    role = MemberRole.admin;
    invited_at = some now;
    invite_consumed_at = none;
    last_login_at = none;
  }

  abbrev pub invite_admin : Draw → Time → User → Directory → Directory
  invite_admin draw now user d =
      let issued =
        issue_invite draw user.id user.tenant_id created_by (expiry now ttl_hours)
          (record d { users = d.users ++ user ∷ [] }) in
      record issued {
        audit =
            write_audit_event (invite_event "user.invite_created" user (expiry now ttl_hours))
              issued.audit;
      }

  -- With `commit=False`, which is how the route calls it; the email is sent after the commit.
  unfoldable pub create_tenant_with_admin_invite :
      (normalize_email : String → Option String)
      → (tenant_id user_id : Uuid) → Draw
      → Time
      → (name federation_type admin_email : String) → Directory
      → Result (Draft × Directory)
  create_tenant_with_admin_invite normalize_email tenant_id user_id draw now name federation_type
        admin_email d =
      do
        (tenant, d') ← create_tenant created_by source_ip tenant_id name federation_type d
        email ← elim (normalize_email admin_email) [
          | none ↦ err (validation (text "admin_email must be a valid email address."))
          | some email ↦ ok email
        ]
        raise_if
            (is_some
              (find (λ (u : User). u.tenant_id == tenant.id && str_eq u.email email) d'.users))
            (conflict "Admin email already exists for tenant.")
        let user = new_admin user_id tenant.id email now
        ok (
          record {
            tenant = tenant;
            user = user;
            invite_url = draw.invite_url;
            token_id = draw.token_id;
          },
          invite_admin draw now user d',
        )

  abbrev pub set_invited : Time → User → User
  set_invited now u = record u { invited_at = some now }

  abbrev pub reissue : Draw → Time → User → Directory → Directory
  reissue draw now user d =
      let cleared : Directory = record d {
        tokens = invalidate_unconsumed_user_invites user.id now d.tokens;
        users = modify_row user_key user.id (set_invited now) d.users;
      } in
      let issued =
        issue_invite draw user.id user.tenant_id created_by (expiry now ttl_hours) cleared in
      record issued {
        audit =
            write_audit_event (invite_event "user.invite_regenerated" user (expiry now ttl_hours))
              issued.audit;
      }

  -- Up to the commit, after which the email is sent.
  unfoldable pub regenerate_user_invite :
      Draw → Time → (tenant_id user_id : Uuid) → Directory → Result (Draft × Directory)
  regenerate_user_invite draw now tenant_id user_id d = do
    tenant ← require_tenant d tenant_id
    user ← elim (get_row user_key user_id d.users) [
      | none ↦ err (entity_not_found "User not found.")
      | some user ↦
          if user.tenant_id == tenant_id then ok user else err (entity_not_found "User not found.")
    ]
    ok (
      record {
        tenant = tenant;
        user = set_invited now user;
        invite_url = draw.invite_url;
        token_id = draw.token_id;
      },
      reissue draw now user d,
    )

-- The event of a delivery is written in a transaction of its own, of which a failure is swallowed;
-- `persisted` says whether it was kept.
abbrev pub audit_delivery :
    (created_by : String)
    → Option String
    → (persisted : Bool) → (action : String) → Details
    → User
    → Directory
    → Directory
audit_delivery created_by source_ip persisted action details user d =
    if persisted
    then record d {
      audit =
          write_audit_event
            (event created_by source_ip action "user" user.id (some user.tenant_id) details)
            d.audit;
    }
    else d

-- `_send_invite_email_and_audit`
unfoldable pub send_invite_email_and_audit :
    (created_by : String)
    → Option String
    → (failure_detail : String) → (persisted : Bool) → Sending
    → User
    → Directory
    → Delivery × Directory
send_invite_email_and_audit created_by source_ip failure_detail persisted
      (Sending.refused error_type) user d =
    (
      record {
        provider = "resend";
        status = "failed";
        provider_message_id = none;
        failure_detail = some failure_detail;
      },
      audit_delivery created_by source_ip persisted "user.invite_email_failed"
          (invite_failure user.email "resend" error_type) user d,
    )
send_invite_email_and_audit created_by source_ip failure_detail persisted
      (Sending.delivered delivery) user d =
    (
      delivery,
      audit_delivery created_by source_ip persisted "user.invite_email_sent"
          (invite_delivery user.email delivery.provider delivery.provider_message_id) user d,
    )
