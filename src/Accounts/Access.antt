-- ===== src/Accounts/Access.antt =====
-- Who may do what: `_resolve_access_context`, `_require_role`, `_can_access_environment` and
-- `_can_access_run` of src/sparkpilot/api.py. A refusal is a 403.
use spark_pilot.Prelude.{
  ℕ, String, Bool, true, false, not, ◌&&◌, ◌||◌, ◌==◌, Option, none, some, List, [], any, find,
  filter, map, is_none, str_eq, if◌then◌else◌,
}
use spark_pilot.Models.{Uuid, UserIdentity, IdentityRole, TeamEnvironmentScope, Environment, Run}
use spark_pilot.Accounts.Tables.{Directory, has_actor, is_same}

pub record AccessContext : Type 0 where
  pub actor : String
  pub role : IdentityRole
  pub tenant_id : Option Uuid
  pub team_id : Option Uuid
  pub scoped_environment_ids : List Uuid

-- The value of a check, or the detail of a 403.
pub data Allowed {ℓ} (A : Type ℓ) : Type ℓ where
  forbidden : String → Allowed A
  allowed : A → Allowed A

infixl 5 ◌>>=◌ ◌>>◌
abbrev pub ◌>>=◌ {ℓ κ} : {A : Type ℓ} {B : Type κ} → Allowed A → (A → Allowed B) → Allowed B
forbidden detail >>= rest = forbidden detail
allowed a >>= rest = rest a

abbrev pub ◌>>◌ {ℓ} : {B : Type ℓ} → Allowed (Unit {0}) → Allowed B → Allowed B
check >> rest = check >>= λ _. rest

abbrev pub refuse_if : Bool → String → Allowed (Unit {0})
refuse_if test detail = if test then forbidden detail else allowed tt

abbrev pub is_admin : IdentityRole → Bool
is_admin IdentityRole.admin = true
is_admin _ = false

abbrev pub is_user : IdentityRole → Bool
is_user IdentityRole.user = true
is_user _ = false

-- `role in {"operator", "user"}`
abbrev pub is_team_scoped : IdentityRole → Bool
is_team_scoped IdentityRole.operator = true
is_team_scoped IdentityRole.user = true
is_team_scoped _ = false

-- `UserIdentity.actor == actor, UserIdentity.active.is_(True)`
abbrev pub is_active_actor : String → UserIdentity → Bool
is_active_actor actor i = has_actor actor i && i.active

abbrev pub environments_of : Option Uuid → List TeamEnvironmentScope → List Uuid
environments_of none scopes = []
environments_of (some team_id) scopes =
    map (λ (s : TeamEnvironmentScope). s.environment_id)
      (filter (λ (s : TeamEnvironmentScope). s.team_id == team_id) scopes)

abbrev pub context_of : String → UserIdentity → List TeamEnvironmentScope → AccessContext
context_of actor identity scopes = record {
  actor = actor;
  role = identity.role;
  tenant_id = identity.tenant_id;
  team_id = identity.team_id;
  scoped_environment_ids = environments_of identity.team_id scopes;
}

abbrev pub check_identity :
    String → Option UserIdentity → List TeamEnvironmentScope → Allowed AccessContext
check_identity actor none scopes = forbidden "Unknown or inactive actor."
check_identity actor (some identity) scopes = do
  refuse_if (not (is_admin identity.role || is_team_scoped identity.role)) "Actor role is invalid."
  refuse_if
      (is_team_scoped identity.role && (is_none identity.tenant_id || is_none identity.team_id))
      "Actor is missing tenant/team assignment."
  allowed (context_of actor identity scopes)

unfoldable pub resolve_access_context : Directory → String → Allowed AccessContext
resolve_access_context d actor =
    check_identity actor (find (is_active_actor actor) d.identities) d.scopes

unfoldable pub can_access_environment : AccessContext → Environment → Bool
can_access_environment access env =
    if is_admin access.role
    then true
    else if not (is_team_scoped access.role)
    then false
    else if not (is_same env.tenant_id access.tenant_id)
    then false
    else any (λ (id : ℕ). id == env.id) access.scoped_environment_ids

abbrev pub is_creator : String → Option String → Bool
is_creator actor none = false
is_creator actor (some created_by) = str_eq created_by actor

unfoldable pub can_access_run : AccessContext → Run → Environment → Bool
can_access_run access run env =
    if not (can_access_environment access env)
    then false
    else not (is_user access.role && not (is_creator access.actor run.created_by_actor))

abbrev pub require_role : AccessContext → (IdentityRole → Bool) → String → Allowed (Unit {0})
require_role access allows detail = refuse_if (not (allows access.role)) detail

abbrev pub require_environment_access : AccessContext → Environment → Allowed (Unit {0})
require_environment_access access env =
    refuse_if (not (can_access_environment access env))
      "Actor is not authorized for this environment."

abbrev pub require_run_access : AccessContext → Run → Environment → Allowed (Unit {0})
require_run_access access run env =
    refuse_if (not (can_access_run access run env)) "Actor is not authorized for this run."
