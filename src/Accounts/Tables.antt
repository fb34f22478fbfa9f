-- ===== src/Accounts/Tables.antt =====
-- The tables of tenants, teams, users, identities and invites, and their lookups
-- (src/sparkpilot/services/_helpers.py).
use spark_pilot.Prelude.{ℕ, String, Bool, false, ◌&&◌, ◌==◌, Option, none, some, List, str_eq}
use spark_pilot.Prelude.Table.{get_row}
use spark_pilot.Models.{
  Uuid, Tenant, Team, User, UserIdentity, MagicLinkToken, MagicLinkLog, TeamEnvironmentScope,
  Environment, AuditEvent, Details,
}
use spark_pilot.Errors.{Result}
use spark_pilot.Database.{environment_key, require_entity}

pub record Directory : Type 0 where
  pub tenants : List Tenant
  pub teams : List Team
  pub users : List User
  pub identities : List UserIdentity
  pub scopes : List TeamEnvironmentScope
  pub tokens : List MagicLinkToken
  pub links : List MagicLinkLog
  pub environments : List Environment
  pub audit : List AuditEvent

abbrev pub tenant_key : Tenant → ℕ
tenant_key t = t.id

abbrev pub team_key : Team → ℕ
team_key t = t.id

abbrev pub user_key : User → ℕ
user_key u = u.id

abbrev pub identity_key : UserIdentity → ℕ
identity_key i = i.id

abbrev pub token_key : MagicLinkToken → ℕ
token_key t = t.id

abbrev pub scope_key : TeamEnvironmentScope → ℕ
scope_key s = s.id

abbrev pub require_tenant : Directory → Uuid → Result Tenant
require_tenant d id = require_entity (get_row tenant_key id d.tenants) "Tenant not found."

abbrev pub require_team : Directory → Uuid → Result Team
require_team d id = require_entity (get_row team_key id d.teams) "Team not found."

abbrev pub require_environment : Directory → Uuid → Result Environment
require_environment d id =
    require_entity (get_row environment_key id d.environments) "Environment not found."

abbrev pub has_actor : String → UserIdentity → Bool
has_actor actor i = str_eq i.actor actor

abbrev pub is_same : Uuid → Option Uuid → Bool
is_same id none = false
is_same id (some other) = other == id

-- `UserIdentity.user_id == user.id`
abbrev pub has_user : Uuid → UserIdentity → Bool
has_user id i = is_same id i.user_id

abbrev pub binds : (team_id environment_id : Uuid) → TeamEnvironmentScope → Bool
binds team_id environment_id s = s.team_id == team_id && s.environment_id == environment_id

-- The event of a call on one entity.
abbrev pub event :
    (actor : String)
    → Option String
    → (action entity_type : String) → (entity_id : Uuid) → (tenant_id : Option Uuid) → Details
    → AuditEvent
event actor source_ip action entity_type entity_id tenant_id details = record {
  tenant_id = tenant_id;
  actor = actor;
  action = action;
  source_ip = source_ip;
  entity_type = entity_type;
  entity_id = entity_id;
  details_json = details;
  aws_request_id = none;
}
