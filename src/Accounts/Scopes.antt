-- ===== src/Accounts/Scopes.antt =====
-- Scopes bind a team to an environment of its own tenant, once, whatever calls are made.
use spark_pilot.Prelude.{
  ℕ, ◌≡◌, refl, sym, subst, ◌∙◌, inl, inr, Bool, true, false, ==_iff, none, some, List, [], ◌∷◌,
  ◌++◌, any, find, All, All-append, All-filter, Bool-cases, arith,
}
use spark_pilot.Prelude.Table.{get_row}
use spark_pilot.Prelude.Keys.{get_row-append}
use spark_pilot.Prelude.Distinct.{Distinct, append-Distinct, filter-Distinct}
use spark_pilot.Models.{Uuid, Team, TeamEnvironmentScope, Environment}
use spark_pilot.Database.{environment_key}
use spark_pilot.Accounts.Tables.{Directory, team_key, binds}
use spark_pilot.Accounts.Tenants.{new_scope}
use spark_pilot.Accounts.Steps.{Reach, here, next, KeepsTenants}
use spark_pilot.Accounts.Writes.{ScopeWrite, Writes}
use spark_pilot.Accounts.Moves.{Step-Writes}

-- The team and the environment of a scope are there and of one tenant.
pub record InTenant (teams : List Team) (envs : List Environment) (s : TeamEnvironmentScope)
    : Type 0 where
  pub team : Team
  pub env : Environment
  pub has_team : get_row team_key s.team_id teams ≡ some team
  pub has_env : get_row environment_key s.environment_id envs ≡ some env
  pub same : team.tenant_id ≡ env.tenant_id

abbrev pub same_binding : TeamEnvironmentScope → TeamEnvironmentScope → Bool
same_binding s other = binds s.team_id s.environment_id other

pub record ScopesHold (d : Directory) : Type 0 where
  pub in_tenant : All (InTenant d.teams d.environments) d.scopes
  pub distinct : Distinct same_binding d.scopes

not_bound :
    (team_id environment_id new_id : Uuid) (ss : List TeamEnvironmentScope)
    → find (binds team_id environment_id) ss ≡ none
    → any (λ s. same_binding s (new_scope new_id team_id environment_id)) ss ≡ false
not_bound team_id environment_id new_id [] h = refl
not_bound team_id environment_id new_id (s ∷ ss) h = ground (
  arith,
  ==_iff s.team_id team_id,
  ==_iff s.environment_id environment_id,
  not_bound team_id environment_id new_id ss,
)

write-InTenant :
    (d : Directory) {ss ts : List TeamEnvironmentScope}
    → ScopeWrite d ss ts
    → All (InTenant d.teams d.environments) ss
    → All (InTenant d.teams d.environments) ts
write-InTenant d ScopeWrite.kept h = h
write-InTenant d (ScopeWrite.bound {ss} new_id team env team_id environment_id t e same free) h =
    All-append (InTenant d.teams d.environments) ss _ h
      (record { team = team; env = env; has_team = t; has_env = e; same = same }, tt)
write-InTenant d (ScopeWrite.removed {ss} keep) h =
    All-filter (InTenant d.teams d.environments) keep ss h

write-Distinct :
    (d : Directory) {ss ts : List TeamEnvironmentScope}
    → ScopeWrite d ss ts
    → Distinct same_binding ss
    → Distinct same_binding ts
write-Distinct d ScopeWrite.kept h = h
write-Distinct d (ScopeWrite.bound {ss} new_id team env team_id environment_id t e same free) h =
    append-Distinct same_binding ss _ h (not_bound team_id environment_id new_id ss free)
write-Distinct d (ScopeWrite.removed {ss} keep) h = filter-Distinct same_binding keep ss h

-- More teams, and environments that keep their tenants.
later-InTenant :
    (teams extra : List Team) (envs envs' : List Environment)
    → KeepsTenants envs envs'
    → (s : TeamEnvironmentScope) → InTenant teams envs s
    → InTenant (teams ++ extra) envs' s
later-InTenant teams extra envs envs' keeps s h =
    let (env', found, tenant) = keeps s.environment_id h.env h.has_env in
    record {
      team = h.team;
      env = env';
      has_team = get_row-append team_key s.team_id teams extra h.team h.has_team;
      has_env = found;
      same = h.same ∙ sym tenant;
    }

all_later-InTenant :
    (teams extra : List Team) (envs envs' : List Environment)
    → KeepsTenants envs envs'
    → (ss : List TeamEnvironmentScope) → All (InTenant teams envs) ss
    → All (InTenant (teams ++ extra) envs') ss
all_later-InTenant teams extra envs envs' keeps [] h = tt
all_later-InTenant teams extra envs envs' keeps (s ∷ ss) h = (
  later-InTenant teams extra envs envs' keeps s h.0,
  all_later-InTenant teams extra envs envs' keeps ss h.1,
)

Writes-ScopesHold : {d d' : Directory} → Writes d d' → ScopesHold d → ScopesHold d'
Writes-ScopesHold {d} {d'} w h = record {
  in_tenant =
      subst (λ (ts : List Team). All (InTenant ts d'.environments) d'.scopes) (sym w.teams.1)
        (all_later-InTenant d.teams w.teams.0 d.environments d'.environments w.environments
          d'.scopes (write-InTenant d w.scopes h.in_tenant));
  distinct = write-Distinct d w.scopes h.distinct;
}

pub Reach-ScopesHold : {d e : Directory} → Reach d e → ScopesHold d → ScopesHold e
Reach-ScopesHold here h = h
Reach-ScopesHold (next r step) h = Writes-ScopesHold (Step-Writes step) (Reach-ScopesHold r h)

pub bound-InTenant :
    (teams : List Team) (envs : List Environment) (team_id environment_id : Uuid)
    (ss : List TeamEnvironmentScope)
    → All (InTenant teams envs) ss
    → any (binds team_id environment_id) ss ≡ true
    → (team : Team) × (env : Environment) × (get_row team_key team_id teams ≡ some team)
      × (get_row environment_key environment_id envs ≡ some env)
      × (team.tenant_id ≡ env.tenant_id)
bound-InTenant teams envs team_id environment_id [] h bound = cc
bound-InTenant teams envs team_id environment_id (s ∷ ss) h bound =
    elim (Bool-cases (binds team_id environment_id s)) [
      | inl e ↦ (
        h.0.team,
        h.0.env,
        subst (λ (i : ℕ). get_row team_key i teams ≡ some h.0.team) (own_team e) h.0.has_team,
        subst (λ (i : ℕ). get_row environment_key i envs ≡ some h.0.env) (own_env e) h.0.has_env,
        h.0.same,
      )
      | inr e ↦ bound-InTenant teams envs team_id environment_id ss h.1 (rw e at bound)
    ]
  where
    own_team : binds team_id environment_id s ≡ true → s.team_id ≡ team_id
    own_team e = ground (arith, ==_iff s.team_id team_id)

    own_env : binds team_id environment_id s ≡ true → s.environment_id ≡ environment_id
    own_env e = ground (arith, ==_iff s.environment_id environment_id)
