-- ===== src/Accounts/Steps.antt =====
-- The calls that change the tables of accounts, as steps: each is one transaction, which commits where
-- it returns. Drawn identifiers and hashes of drawn tokens are new.
use spark_pilot.Prelude.{
  ℕ, String, ◌≡◌, false, Bool, ◌==◌, ◌||◌, Option, none, some, List, any, str_eq,
}
use spark_pilot.Prelude.Table.{get_row}
use spark_pilot.Models.{
  Uuid, Time, Tenant, Team, User, UserIdentity, MagicLinkToken, TeamEnvironmentScope, Environment,
}
use spark_pilot.Errors.{ok}
use spark_pilot.Database.{environment_key}
use spark_pilot.Accounts.Tables.{Directory, identity_key}
use spark_pilot.Accounts.Tenants.{
  create_tenant, create_team, create_or_update_user_identity, add_team_environment_scope,
  remove_team_environment_scope,
}
use spark_pilot.Accounts.Invites.{Draw, consume_invite_token}
use spark_pilot.Accounts.Provision.{Draft, create_tenant_with_admin_invite, regenerate_user_invite}
use spark_pilot.Accounts.Callback.{CallbackAnswer, InviteStatePayload, auth_callback}

-- No token has the draw's identifier or hash.
abbrev pub takes_draw : Draw → MagicLinkToken → Bool
takes_draw draw t = t.id == draw.token_id || str_eq t.token_hash draw.token_hash

abbrev pub IsNewDraw : Draw → Directory → Type 0
IsNewDraw draw d = any (takes_draw draw) d.tokens ≡ false

-- Every environment is still there, in its tenant: no service changes `tenant_id` or deletes the row.
abbrev pub KeepsTenants : List Environment → List Environment → Type 0
KeepsTenants envs envs' =
    (id : Uuid) (env : Environment)
    → get_row environment_key id envs ≡ some env
    → (env' : Environment) × (get_row environment_key id envs' ≡ some env')
      × (env'.tenant_id ≡ env.tenant_id)

pub data Step : Directory → Directory → Type 0 where
  tenant :
      {d d' : Directory} (actor : String) (source_ip : Option String) (new_id : Uuid)
      (name federation_type : String) (made : Tenant)
      → create_tenant actor source_ip new_id name federation_type d ≡ ok (made, d')
      → Step d d'
  team :
      {d d' : Directory} (actor : String) (source_ip : Option String) (new_id tenant_id : Uuid)
      (name : String) (made : Team)
      → create_team actor source_ip new_id tenant_id name d ≡ ok (made, d')
      → Step d d'
  identity :
      {d d' : Directory} (actor : String) (source_ip : Option String) (req : UserIdentity)
      (new_id : Uuid) (made : UserIdentity)
      → get_row identity_key new_id d.identities ≡ none
      → create_or_update_user_identity actor source_ip req new_id d ≡ ok (made, d')
      → Step d d'
  scope :
      {d d' : Directory} (actor : String) (source_ip : Option String)
      (new_id team_id environment_id : Uuid) (made : TeamEnvironmentScope)
      → add_team_environment_scope actor source_ip new_id team_id environment_id d ≡ ok (made, d')
      → Step d d'
  unscope :
      {d d' : Directory} (actor : String) (source_ip : Option String)
      (team_id environment_id : Uuid)
      → remove_team_environment_scope actor source_ip team_id environment_id d ≡ ok d'
      → Step d d'
  provision :
      {d d' : Directory} (actor : String) (source_ip : Option String) (ttl_hours : ℕ)
      (normalize_email : String → Option String) (tenant_id user_id : Uuid) (draw : Draw)
      (now : Time) (name federation_type admin_email : String) (made : Draft)
      → IsNewDraw draw d
      → create_tenant_with_admin_invite actor source_ip ttl_hours normalize_email tenant_id user_id
          draw now name federation_type admin_email d
        ≡ ok (made, d')
      → Step d d'
  regenerate :
      {d d' : Directory} (actor : String) (source_ip : Option String) (ttl_hours : ℕ) (draw : Draw)
      (now : Time) (tenant_id user_id : Uuid) (made : Draft)
      → IsNewDraw draw d
      → regenerate_user_invite actor source_ip ttl_hours draw now tenant_id user_id d
        ≡ ok (made, d')
      → Step d d'
  accept :
      {d d' : Directory} (hash : String) (now : Time) (accepted : MagicLinkToken × User)
      → consume_invite_token hash now d ≡ ok (accepted, d')
      → Step d d'
  callback :
      {d d' : Directory} (normalize : String → String) (new_id : Uuid) (now : Time) (actor : String)
      (source_ip email : Option String) (payload : InviteStatePayload) (row : UserIdentity)
      → get_row identity_key new_id d.identities ≡ none
      → auth_callback normalize new_id now actor source_ip email payload d
        ≡ CallbackAnswer.applied (row, d')
      → Step d d'
  elsewhere :
      {d : Directory} (environments : List Environment)
      → KeepsTenants d.environments environments
      → Step d (record d { environments = environments })

pub data Reach (d : Directory) : Directory → Type 0 where
  here : Reach d d
  next : {e f : Directory} → Reach d e → Step e f → Reach d f
