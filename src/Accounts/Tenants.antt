-- ===== src/Accounts/Tenants.antt =====
-- Tenants, teams, identities and the scopes of teams in src/sparkpilot/services/crud.py. The
-- identifiers that the database draws are arguments.
use spark_pilot.Prelude.{
  String, Bool, true, false, not, ◌&&◌, ◌||◌, ◌==◌, Option, none, some, [], ◌∷◌, ◌++◌, find, filter,
  is_some, is_none, str_eq,
}
use spark_pilot.Prelude.Table.{modify_row}
use spark_pilot.Models.{
  Uuid, Tenant, Team, UserIdentity, IdentityRole, TeamEnvironmentScope, write_audit_event,
  tenant_created, team_created, identity_written, scope_written,
}
use spark_pilot.Errors.{
  Result, ok, err, conflict, uncaught, validation, text, raise_if, ◌>>=◌, ◌>>◌,
}
use spark_pilot.Accounts.Tables.{
  Directory, identity_key, require_tenant, require_team, require_environment, has_actor, binds,
  event,
}

abbrev pub needs_team : IdentityRole → Bool
needs_team IdentityRole.operator = true
needs_team IdentityRole.user = true
needs_team _ = false

abbrev pub check_tenant : Option Uuid → Directory → Result (Unit {0})
check_tenant none d = ok tt
check_tenant (some id) d = require_tenant d id >>= λ _. ok tt

abbrev pub find_team : Option Uuid → Directory → Result (Option Team)
find_team none d = ok none
find_team (some id) d = require_team d id >>= λ team. ok (some team)

-- `req.tenant_id and team and team.tenant_id != req.tenant_id`
abbrev pub is_foreign : Option Uuid → Option Team → Bool
is_foreign none team = false
is_foreign (some tenant_id) none = false
is_foreign (some tenant_id) (some team) = not (team.tenant_id == tenant_id)

-- The columns that the call sets.
abbrev pub set_identity : (req row : UserIdentity) → UserIdentity
set_identity req row = record row {
  role = req.role;
  tenant_id = req.tenant_id;
  team_id = req.team_id;
  active = req.active;
}

abbrev pub new_scope : Uuid → (team_id environment_id : Uuid) → TeamEnvironmentScope
new_scope new_id team_id environment_id = record {
  id = new_id;
  team_id = team_id;
  environment_id = environment_id;
}

module _ (actor : String) (source_ip : Option String) where
  abbrev pub insert_tenant : Tenant → Directory → Directory
  insert_tenant tenant d = record d {
    tenants = d.tenants ++ tenant ∷ [];
    audit =
        write_audit_event
          (event actor source_ip "tenant.create" "tenant" tenant.id (some tenant.id)
            (tenant_created tenant.name tenant.federation_type))
          d.audit;
  }

  unfoldable pub create_tenant :
      Uuid → (name federation_type : String) → Directory → Result (Tenant × Directory)
  create_tenant new_id name federation_type d = do
    raise_if (is_some (find (λ (t : Tenant). str_eq t.name name) d.tenants))
        (conflict "Tenant name already exists.")
    let tenant : Tenant = record { id = new_id; name = name; federation_type = federation_type }
    ok (tenant, insert_tenant tenant d)

  abbrev pub insert_team : Team → Directory → Directory
  insert_team team d = record d {
    teams = d.teams ++ team ∷ [];
    audit =
        write_audit_event
          (event actor source_ip "team.create" "team" team.id (some team.tenant_id)
            (team_created team.name))
          d.audit;
  }

  unfoldable pub create_team :
      Uuid → (tenant_id : Uuid) → (name : String) → Directory → Result (Team × Directory)
  create_team new_id tenant_id name d = do
    tenant ← require_tenant d tenant_id
    raise_if (is_some (find (λ (t : Team). t.tenant_id == tenant_id && str_eq t.name name) d.teams))
        (conflict "Team name already exists for tenant.")
    let team : Team = record { id = new_id; tenant_id = tenant_id; name = name }
    ok (team, insert_team team d)

  module _ (req : UserIdentity) where
    abbrev pub identity_event : String → UserIdentity → Directory → Directory
    identity_event action row d = record d {
      audit =
          write_audit_event
            (event actor source_ip action "user_identity" row.id req.tenant_id
              (identity_written row.actor row.role row.tenant_id row.team_id row.active))
            d.audit;
    }

    abbrev pub upsert_identity : Uuid → Option UserIdentity → Directory → UserIdentity × Directory
    upsert_identity new_id (some row) d = (
      set_identity req row,
      identity_event "user_identity.update" (set_identity req row) (record d {
        identities = modify_row identity_key row.id (set_identity req) d.identities;
      }),
    )
    upsert_identity new_id none d =
        let row : UserIdentity = record req { id = new_id; user_id = none } in
        (
          row,
          identity_event "user_identity.create" row
              (record d { identities = d.identities ++ row ∷ [] }),
        )

    -- The request's fields are the actor, role, tenant, team and flag of `req`.
    unfoldable pub create_or_update_user_identity :
        Uuid → Directory → Result (UserIdentity × Directory)
    create_or_update_user_identity new_id d = do
      raise_if (needs_team req.role && (is_none req.tenant_id || is_none req.team_id))
          (validation (text "tenant_id and team_id are required for operator/user roles."))
      check_tenant req.tenant_id d
      team ← find_team req.team_id d
      raise_if (is_foreign req.tenant_id team)
          (validation (text "team_id must belong to tenant_id."))
      ok (upsert_identity new_id (find (has_actor req.actor) d.identities) d)

  abbrev pub scope_event : String → TeamEnvironmentScope → Team → Directory → Directory
  scope_event action row team d = record d {
    audit =
        write_audit_event
          (event actor source_ip action "team_environment_scope" row.id (some team.tenant_id)
            (scope_written row.team_id team.name row.environment_id))
          d.audit;
  }

  abbrev pub insert_scope :
      TeamEnvironmentScope
      → Team
      → Option TeamEnvironmentScope
      → Directory
      → TeamEnvironmentScope × Directory
  insert_scope row team (some existing) d = (existing, d)
  insert_scope row team none d = (
    row,
    scope_event "team_environment_scope.create" row team
        (record d { scopes = d.scopes ++ row ∷ [] }),
  )

  unfoldable pub add_team_environment_scope :
      Uuid → (team_id environment_id : Uuid) → Directory → Result (TeamEnvironmentScope × Directory)
  add_team_environment_scope new_id team_id environment_id d = do
    team ← require_team d team_id
    env ← require_environment d environment_id
    raise_if (not (team.tenant_id == env.tenant_id))
        (validation (text "Team and environment must belong to the same tenant."))
    ok (
        insert_scope (new_scope new_id team_id environment_id) team
          (find (binds team_id environment_id) d.scopes) d)

  -- `EntityNotFoundError` takes one argument and is called with two, which is a `TypeError`.
  abbrev pub delete_scope : Team → Option TeamEnvironmentScope → Directory → Result Directory
  delete_scope team none d = err (uncaught "TypeError")
  delete_scope team (some row) d = ok (
      scope_event "team_environment_scope.delete" row team (record d {
        scopes = filter (λ (s : TeamEnvironmentScope). not (s.id == row.id)) d.scopes;
      }))

  unfoldable pub remove_team_environment_scope :
      (team_id environment_id : Uuid) → Directory → Result Directory
  remove_team_environment_scope team_id environment_id d = do
    team ← require_team d team_id
    delete_scope team (find (binds team_id environment_id) d.scopes) d
