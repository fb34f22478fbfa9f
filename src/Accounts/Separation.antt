-- ===== src/Accounts/Separation.antt =====
-- Tenants are separated: who is let through to an environment is of its tenant, and a scope that is
-- removed lets nobody through.
use spark_pilot.Prelude.{
  ℕ, ◌≡◌, refl, sym, subst, ap, ◌∙◌, inl, inr, String, true, false, not, ◌==◌, ==_iff, ==_refl,
  Option, some, List, [], ◌∷◌, any, find, filter, Bool-cases, some-injective, arith,
}
use spark_pilot.Prelude.Table.{get_row, get_row-key}
use spark_pilot.Prelude.Distinct.{Distinct, any-filter}
use spark_pilot.Models.{Uuid, Team, UserIdentity, TeamEnvironmentScope, Environment}
use spark_pilot.Errors.{ok}
use spark_pilot.Database.{environment_key}
use spark_pilot.Accounts.Tables.{Directory, team_key, binds}
use spark_pilot.Accounts.Tenants.{remove_team_environment_scope}
use spark_pilot.Accounts.Access.{is_admin, is_active_actor}
use spark_pilot.Accounts.Steps.{Reach}
use spark_pilot.Accounts.Calls.{removed}
use spark_pilot.Accounts.Isolation.{authorized, MayUse, authorized_exact}
use spark_pilot.Accounts.Scopes.{same_binding, ScopesHold, Reach-ScopesHold, bound-InTenant}

abbrev pub InOwnTenant : Directory → Environment → UserIdentity → Type 0
InOwnTenant d env i =
    (i.tenant_id ≡ some env.tenant_id)
    × (team : Team) × (i.team_id ≡ some team.id)
    × (get_row team_key team.id d.teams ≡ some team)
    × (team.tenant_id ≡ env.tenant_id)

MayUse-tenant :
    (d : Directory) (env : Environment) (i : UserIdentity)
    → ScopesHold d
    → get_row environment_key env.id d.environments ≡ some env
    → is_admin i.role ≡ false
    → MayUse d env i
    → InOwnTenant d env i
MayUse-tenant d env i holds stored limited (inl admin) = absurd (wrong (rw admin at limited))
  where
    wrong : true ≡ false → ⊥
    wrong k = cc
MayUse-tenant d env i holds stored limited (inr (scoped, t, team_id, m, bound)) =
    let (team, env', has_team, has_env, same) =
      bound-InTenant d.teams d.environments team_id env.id d.scopes holds.in_tenant bound in
    let own = get_row-key team_key team_id d.teams team has_team in
    (
      t,
      team,
      m ∙ ap (λ (x : ℕ). some x) (sym own),
      subst (λ (x : ℕ). get_row team_key x d.teams ≡ some team) (sym own) has_team,
      same ∙ ap (λ (x : Environment). x.tenant_id) (some-injective env' env (sym has_env ∙ stored)),
    )

-- Whatever calls are made, an operator or a user who is let through to an environment is of its tenant
-- and in a team of its tenant, if the scopes bind teams to environments of their tenants at first.
pub access_stays_in_tenant :
    (d e : Directory) (actor : String) (env : Environment) (i : UserIdentity)
    → ScopesHold d
    → Reach d e
    → get_row environment_key env.id e.environments ≡ some env
    → find (is_active_actor actor) e.identities ≡ some i
    → is_admin i.role ≡ false
    → authorized e actor env ≡ true
    → InOwnTenant e env i
access_stays_in_tenant d e actor env i holds r stored signed limited granted =
    let (j, found, uses) = (authorized_exact e actor env).0 granted in
    MayUse-tenant e env i (Reach-ScopesHold r holds) stored limited
      (subst (MayUse e env) (some-injective j i (sym found ∙ signed)) uses)

-- No other row has the binding of the one that is deleted, and the deleted one goes by its identifier.
unbound :
    (team_id environment_id : Uuid) (row : TeamEnvironmentScope) (ss : List TeamEnvironmentScope)
    → Distinct same_binding ss
    → find (binds team_id environment_id) ss ≡ some row
    → any
        (binds team_id environment_id)
        (filter (λ (s : TeamEnvironmentScope). not (s.id == row.id)) ss)
      ≡ false
unbound team_id environment_id row [] h found = refl
unbound team_id environment_id row (s ∷ ss) h found =
    elim (Bool-cases (binds team_id environment_id s)) [
      | inl e ↦
          rw (ap (λ (x : TeamEnvironmentScope). x.id) (some-injective s row (rw e at found)))
            (rw (==_refl row.id) (any-filter (binds team_id environment_id) _ ss (others e)))
      | inr e ↦
          let rest = unbound team_id environment_id row ss h.1 (rw e at found) in
          elim (Bool-cases (s.id == row.id)) [
            | inl gone ↦ rw gone rest
            | inr away ↦ rw (away, e) rest
          ]
    ]
  where
    own_team : binds team_id environment_id s ≡ true → s.team_id ≡ team_id
    own_team e = ground (arith, ==_iff s.team_id team_id)

    own_env : binds team_id environment_id s ≡ true → s.environment_id ≡ environment_id
    own_env e = ground (arith, ==_iff s.environment_id environment_id)

    others : binds team_id environment_id s ≡ true → any (binds team_id environment_id) ss ≡ false
    others e =
        subst (λ (t : ℕ). any (binds t environment_id) ss ≡ false) (own_team e)
          (subst (λ (v : ℕ). any (binds s.team_id v) ss ≡ false) (own_env e) h.0)

not_allowed :
    (d : Directory) (env : Environment) (i : UserIdentity) (team_id : Uuid)
    → is_admin i.role ≡ false
    → i.team_id ≡ some team_id
    → any (binds team_id env.id) d.scopes ≡ false
    → MayUse d env i
    → ⊥
not_allowed d env i team_id limited own gone (inl admin) = wrong (rw admin at limited)
  where
    wrong : true ≡ false → ⊥
    wrong k = cc
not_allowed d env i team_id limited own gone (inr (scoped, t, team, m, bound)) = wrong (
    sym bound
    ∙ subst (λ (x : ℕ). any (binds x env.id) d.scopes ≡ false)
        (some-injective team_id team (sym own ∙ m)) gone)
  where
    wrong : true ≡ false → ⊥
    wrong k = cc

-- Once a team's scope of an environment is removed, no operator or user of the team is let through to
-- the environment, if at first the scopes bound teams to environments of their tenants, each once.
pub removed_scope_denies :
    (d e e' : Directory) (by actor : String) (source_ip : Option String) (team_id : Uuid)
    (env : Environment) (i : UserIdentity)
    → ScopesHold d
    → Reach d e
    → remove_team_environment_scope by source_ip team_id env.id e ≡ ok e'
    → find (is_active_actor actor) e.identities ≡ some i
    → is_admin i.role ≡ false
    → i.team_id ≡ some team_id
    → authorized e' actor env ≡ false
removed_scope_denies d e e' by actor source_ip team_id env i holds r h signed limited own =
    let k = removed by source_ip e e' team_id env.id h in
    elim (Bool-cases (authorized e' actor env)) [
      | inl granted ↦
          let (j, found, uses) = (authorized_exact e' actor env).0 granted in
          absurd (
            not_allowed e' env i team_id limited own
              (subst (λ (ss : List TeamEnvironmentScope). any (binds team_id env.id) ss ≡ false)
                (sym k.4)
                (unbound team_id env.id k.1 e.scopes (Reach-ScopesHold r holds).distinct k.3))
              (subst (MayUse e' env)
                (some-injective j i (
                  sym found
                  ∙ ap (λ (xs : List UserIdentity). find (is_active_actor actor) xs) k.6
                  ∙ signed))
                uses))
      | inr denied ↦ denied
    ]
