-- ===== src/Accounts/Isolation.antt =====
-- Who reaches which environment, and that teams reach only environments of their own tenant.
use spark_pilot.Prelude.{
  ℕ, ◌≡◌, ◌↔◌, ◌⊎◌, refl, sym, ◌∙◌, inl, inr, String, Bool, true, false, ◌&&◌, ◌==◌, ==_iff,
  ==_refl, Option, none, some, List, [], ◌∷◌, any, find, Option-cases, arith,
}
use spark_pilot.Models.{Uuid, UserIdentity, IdentityRole, TeamEnvironmentScope, Environment}
use spark_pilot.Accounts.Tables.{Directory, binds}
use spark_pilot.Accounts.Access.{
  AccessContext, Allowed, allowed, forbidden, is_team_scoped, is_active_actor, environments_of,
  check_identity, resolve_access_context, can_access_environment,
}

-- What the routes on an environment ask: the actor is known and may access it.
abbrev pub authorized_by : Allowed AccessContext → Environment → Bool
authorized_by (forbidden detail) env = false
authorized_by (allowed access) env = can_access_environment access env

abbrev pub authorized : Directory → String → Environment → Bool
authorized d actor env = authorized_by (resolve_access_context d actor) env

-- The scopes of a team, as a list of environments, name an environment exactly when a row binds both.
environments-binds :
    (team_id env_id : Uuid) (scopes : List TeamEnvironmentScope)
    → any (λ (id : ℕ). id == env_id) (environments_of (some team_id) scopes)
      ≡ any (binds team_id env_id) scopes
environments-binds team_id env_id [] = refl
environments-binds team_id env_id (s ∷ scopes) =
    ground (arith, environments-binds team_id env_id scopes)

-- The rows that let an actor use an environment.
abbrev pub MayUse : Directory → Environment → UserIdentity → Type 0
MayUse d env i =
    (i.role ≡ IdentityRole.admin)
    ⊎ ((is_team_scoped i.role ≡ true)
        × (i.tenant_id ≡ some env.tenant_id)
        × (team_id : Uuid) × (i.team_id ≡ some team_id)
        × (any (binds team_id env.id) d.scopes ≡ true))

-- The same test, on the columns.
abbrev grants_team : Option Uuid → Option Uuid → List TeamEnvironmentScope → Environment → Bool
grants_team none team_id scopes env = false
grants_team (some tenant_id) none scopes env = false
grants_team (some tenant_id) (some team_id) scopes env =
    tenant_id == env.tenant_id && any (binds team_id env.id) scopes

abbrev grants :
    IdentityRole → Option Uuid → Option Uuid → List TeamEnvironmentScope → Environment → Bool
grants IdentityRole.admin tenant_id team_id scopes env = true
grants IdentityRole.operator tenant_id team_id scopes env = grants_team tenant_id team_id scopes env
grants IdentityRole.user tenant_id team_id scopes env = grants_team tenant_id team_id scopes env
grants (IdentityRole.other r) tenant_id team_id scopes env = false

module _ (scopes : List TeamEnvironmentScope) (actor : String) (env : Environment) where
  abbrev with_columns : UserIdentity → IdentityRole → Option Uuid → Option Uuid → UserIdentity
  with_columns i r tenant_id team_id = record i {
    role = r;
    tenant_id = tenant_id;
    team_id = team_id;
  }

  test-grants :
      (i : UserIdentity) (r : IdentityRole) (tenant_id team_id : Option Uuid)
      → authorized_by (check_identity actor (some (with_columns i r tenant_id team_id)) scopes) env
        ≡ grants r tenant_id team_id scopes env
  unfolding can_access_environment
  test-grants i IdentityRole.admin tenant_id team_id = refl
  test-grants i (IdentityRole.other r) tenant_id team_id = refl
  test-grants i IdentityRole.operator none team_id = refl
  test-grants i IdentityRole.operator (some t) none = refl
  test-grants i IdentityRole.operator (some t) (some m) =
      rw (environments-binds m env.id scopes) (ground arith)
  test-grants i IdentityRole.user none team_id = refl
  test-grants i IdentityRole.user (some t) none = refl
  test-grants i IdentityRole.user (some t) (some m) =
      rw (environments-binds m env.id scopes) (ground arith)

  grants_sound :
      (r : IdentityRole) (tenant_id team_id : Option Uuid)
      → grants r tenant_id team_id scopes env ≡ true
      → (r ≡ IdentityRole.admin)
        ⊎ ((is_team_scoped r ≡ true)
            × (tenant_id ≡ some env.tenant_id)
            × (team : Uuid) × (team_id ≡ some team)
            × (any (binds team env.id) scopes ≡ true))
  grants_sound IdentityRole.admin tenant_id team_id h = inl refl
  grants_sound (IdentityRole.other r) tenant_id team_id h = cc
  grants_sound IdentityRole.operator none team_id h = cc
  grants_sound IdentityRole.operator (some t) none h = cc
  grants_sound IdentityRole.operator (some t) (some m) h =
      inr (refl, ground (arith, ==_iff t env.tenant_id), m, refl, ground arith)
  grants_sound IdentityRole.user none team_id h = cc
  grants_sound IdentityRole.user (some t) none h = cc
  grants_sound IdentityRole.user (some t) (some m) h =
      inr (refl, ground (arith, ==_iff t env.tenant_id), m, refl, ground arith)

  granted_team :
      (r : IdentityRole) (team : Uuid)
      → is_team_scoped r ≡ true
      → any (binds team env.id) scopes ≡ true
      → grants r (some env.tenant_id) (some team) scopes env ≡ true
  granted_team IdentityRole.admin team h bound = refl
  granted_team (IdentityRole.other r) team h bound = cc
  granted_team IdentityRole.operator team h bound = rw (==_refl env.tenant_id, bound) refl
  granted_team IdentityRole.user team h bound = rw (==_refl env.tenant_id, bound) refl

authorized-identity :
    (d : Directory) (actor : String) (env : Environment)
    → authorized d actor env ≡ true
    → (i : UserIdentity) × (find (is_active_actor actor) d.identities ≡ some i) × MayUse d env i
unfolding resolve_access_context
authorized-identity d actor env h =
    elim (Option-cases (find (is_active_actor actor) d.identities)) [
      | inl e ↦ absurd (unknown (rw e at h))
      | inr (i, e) ↦ (i, e, known i (rw e at h))
    ]
  where
    unknown : false ≡ true → ⊥
    unknown k = cc

    known :
        (i : UserIdentity)
        → authorized_by (check_identity actor (some i) d.scopes) env ≡ true
        → MayUse d env i
    known i k =
        grants_sound d.scopes actor env i.role i.tenant_id i.team_id
          (sym (test-grants d.scopes actor env i i.role i.tenant_id i.team_id) ∙ k)

identity-authorized :
    (d : Directory) (actor : String) (env : Environment)
    → (i : UserIdentity) × (find (is_active_actor actor) d.identities ≡ some i) × MayUse d env i
    → authorized d actor env ≡ true
unfolding resolve_access_context
identity-authorized d actor env (i, e, inl admin) =
    rw e (test-grants d.scopes actor env i i.role i.tenant_id i.team_id ∙ rw admin refl)
identity-authorized d actor env (i, e, inr (scoped, t, team, m, bound)) = rw e (
    test-grants d.scopes actor env i i.role i.tenant_id i.team_id
    ∙ rw (t, m) (granted_team d.scopes actor env i.role team scoped bound))

-- An actor is let through to an environment exactly when an active identity of the actor is an admin,
-- or is an operator or a user of the environment's tenant whose team has a scope of the environment.
pub authorized_exact :
    (d : Directory) (actor : String) (env : Environment)
    → (authorized d actor env ≡ true)
      ↔ ((i : UserIdentity) × (find (is_active_actor actor) d.identities ≡ some i) × MayUse d env i)
authorized_exact d actor env = (authorized-identity d actor env, identity-authorized d actor env)
