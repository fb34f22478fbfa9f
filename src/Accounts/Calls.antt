-- ===== src/Accounts/Calls.antt =====
-- What the calls write, one lemma for each.
use spark_pilot.Prelude.{
  ◌≡◌, refl, sym, subst, ap, inl, inr, String, not, ◌==◌, Option, none, some, [], ◌∷◌, find, filter,
  Option-cases, ==_iff, arith,
}
use spark_pilot.Prelude.Table.{get_row}
use spark_pilot.Models.{Uuid, Tenant, Team, UserIdentity, TeamEnvironmentScope, Environment}
use spark_pilot.Errors.{ok, >>=-eq-ok}
use spark_pilot.Database.{environment_key}
use spark_pilot.Accounts.Tables.{
  Directory, team_key, identity_key, has_actor, binds, require_team, require_environment,
}
use spark_pilot.Accounts.Tenants.{
  create_tenant, create_team, upsert_identity, create_or_update_user_identity, new_scope,
  insert_scope, delete_scope, add_team_environment_scope, remove_team_environment_scope,
}
use spark_pilot.Accounts.Writes.{
  ScopeWrite, IdentityWrite, Writes, tokens_written, same_environments, identities_written,
  scopes_written, kept_scopes, kept_identities, kept_tokens,
}

module _ (actor : String) (source_ip : Option String) (d d' : Directory) where
  pub create_tenant-Writes :
      (new_id : Uuid) (name federation_type : String) (made : Tenant)
      → create_tenant actor source_ip new_id name federation_type d ≡ ok (made, d')
      → Writes d d'
  unfolding create_tenant
  create_tenant-Writes new_id name federation_type made h =
      tokens_written d d' (ground arith) (kept_tokens d d' (ground arith))

  pub create_team-Writes :
      (new_id tenant_id : Uuid) (name : String) (made : Team)
      → create_team actor source_ip new_id tenant_id name d ≡ ok (made, d')
      → Writes d d'
  unfolding create_team
  create_team-Writes new_id tenant_id name made h = record {
    teams = (made ∷ [], ground arith);
    scopes = kept_scopes d d' (ground arith);
    identities = kept_identities d d' (ground arith);
    tokens = kept_tokens d d' (ground arith);
    environments = same_environments d d' (ground arith);
  }

  module _ (req : UserIdentity) (new_id : Uuid) (made : UserIdentity) where
    upserted :
        create_or_update_user_identity actor source_ip req new_id d ≡ ok (made, d')
        → upsert_identity actor source_ip req new_id (find (has_actor req.actor) d.identities) d
          ≡ (made, d')
    unfolding create_or_update_user_identity
    upserted h = ground arith

    pub identity-Writes :
        get_row identity_key new_id d.identities ≡ none
        → create_or_update_user_identity actor source_ip req new_id d ≡ ok (made, d')
        → Writes d d'
    identity-Writes fresh h = elim (Option-cases (find (has_actor req.actor) d.identities)) [
      | inl e ↦ written (rw e at (upserted h)) e
      | inr (row, e) ↦ rewritten row (rw e at (upserted h))
    ]
      where
        written :
            upsert_identity actor source_ip req new_id none d ≡ (made, d')
            → find (has_actor req.actor) d.identities ≡ none
            → Writes d d'
        written k e = identities_written d d' (ground arith) (
            subst (IdentityWrite d.identities)
              (ap (λ (p : UserIdentity × Directory). p.1.identities) k)
              (IdentityWrite.created _ fresh e refl))

        rewritten :
            (row : UserIdentity)
            → upsert_identity actor source_ip req new_id (some row) d ≡ (made, d')
            → Writes d d'
        rewritten row k = identities_written d d' (ground arith) (
            subst (IdentityWrite d.identities)
              (ap (λ (p : UserIdentity × Directory). p.1.identities) k)
              (IdentityWrite.updated req row.id))

  module _ (team_id environment_id : Uuid) where
    inserted :
        (new_id : Uuid) (made : TeamEnvironmentScope)
        → add_team_environment_scope actor source_ip new_id team_id environment_id d ≡ ok (made, d')
        → (team : Team) × (env : Environment) × (get_row team_key team_id d.teams ≡ some team)
          × (get_row environment_key environment_id d.environments ≡ some env)
          × (team.tenant_id ≡ env.tenant_id)
          × (insert_scope actor source_ip
                (new_scope new_id team_id environment_id)
                team
                (find (binds team_id environment_id) d.scopes)
                d
              ≡ (made, d'))
    unfolding add_team_environment_scope
    inserted new_id made h =
        let (team, has_team, rest) = >>=-eq-ok (require_team d team_id) _ h in
        let (env, has_env, bound) = >>=-eq-ok (require_environment d environment_id) _ rest in
        (
          team,
          env,
          ground arith,
          ground arith,
          ground (arith, ==_iff team.tenant_id env.tenant_id),
          ground arith,
        )

    pub scope-Writes :
        (new_id : Uuid) (made : TeamEnvironmentScope)
        → add_team_environment_scope actor source_ip new_id team_id environment_id d ≡ ok (made, d')
        → Writes d d'
    scope-Writes new_id made h =
        let (team, env, has_team, has_env, same, k) = inserted new_id made h in
        elim (Option-cases (find (binds team_id environment_id) d.scopes)) [
          | inl e ↦ added team env has_team has_env same e (rw e at k)
          | inr (row, e) ↦ there row team (rw e at k)
        ]
      where
        added :
            (team : Team) (env : Environment)
            → get_row team_key team_id d.teams ≡ some team
            → get_row environment_key environment_id d.environments ≡ some env
            → team.tenant_id ≡ env.tenant_id
            → find (binds team_id environment_id) d.scopes ≡ none
            → insert_scope actor source_ip (new_scope new_id team_id environment_id) team none d
              ≡ (made, d')
            → Writes d d'
        added team env has_team has_env same e k = scopes_written d d' (ground arith) (
            subst (ScopeWrite d d.scopes)
              (ap (λ (p : TeamEnvironmentScope × Directory). p.1.scopes) k)
              (ScopeWrite.bound new_id team env team_id environment_id has_team has_env same e))

        there :
            (row : TeamEnvironmentScope) (team : Team)
            → insert_scope actor source_ip
                (new_scope new_id team_id environment_id)
                team
                (some row)
                d
              ≡ (made, d')
            → Writes d d'
        there row team k = scopes_written d d' (ground arith) (kept_scopes d d' (ground arith))

    pub removed :
        remove_team_environment_scope actor source_ip team_id environment_id d ≡ ok d'
        → (team : Team) × (row : TeamEnvironmentScope) × (get_row team_key team_id d.teams
            ≡ some team)
          × (find (binds team_id environment_id) d.scopes ≡ some row)
          × (d'.scopes ≡ filter (λ (s : TeamEnvironmentScope). not (s.id == row.id)) d.scopes)
          × (d'.teams ≡ d.teams)
          × (d'.identities ≡ d.identities)
          × (d'.tokens ≡ d.tokens)
          × (d'.environments ≡ d.environments)
    unfolding remove_team_environment_scope
    removed h =
        let (team, has_team, rest) = >>=-eq-ok (require_team d team_id) _ h in
        elim (Option-cases (find (binds team_id environment_id) d.scopes)) [
          | inl e ↦ absurd (missing team (rw e at rest))
          | inr (row, e) ↦
              let k = rw e at rest in
              (
                team,
                row,
                ground arith,
                e,
                ground arith,
                ground arith,
                ground arith,
                ground arith,
                ground arith,
              )
        ]
      where
        missing : (team : Team) → delete_scope actor source_ip team none d ≡ ok d' → ⊥
        missing team k = cc

    pub unscope-Writes :
        remove_team_environment_scope actor source_ip team_id environment_id d ≡ ok d' → Writes d d'
    unscope-Writes h =
        let k = removed h in
        scopes_written d d' (k.5, k.6, k.7, k.8)
          (subst (ScopeWrite d d.scopes) (sym k.4) (ScopeWrite.removed _))
