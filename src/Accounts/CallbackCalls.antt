-- ===== src/Accounts/CallbackCalls.antt =====
-- What a callback with an invite state writes.
use spark_pilot.Prelude.{
  ◌≡◌, refl, sym, subst, inl, inr, String, false, Option, none, some, List, find, Option-cases,
  ==_iff, arith,
}
use spark_pilot.Prelude.Table.{update_where, modify_row, get_row, rowcount}
use spark_pilot.Models.{Uuid, Time, User, UserIdentity, MagicLinkToken}
use spark_pilot.Errors.{ok, >>=-eq-ok, ◌>>=◌}
use spark_pilot.Accounts.Tables.{Directory, identity_key, user_key, has_actor, has_user}
use spark_pilot.Accounts.Invites.{consume_callback, is_callback_open, consume_invite_callback_state}
use spark_pilot.Accounts.Callback.{
  CallbackAnswer, InviteStatePayload, map_identity, apply_invite_identity_mapping, apply_invite,
  auth_callback, invited_user, log_in, mapping_events, is_not_invited,
}
use spark_pilot.Accounts.Writes.{
  TokenWrite, IdentityWrite, Writes, no_teams, kept_scopes, same_environments,
}
use spark_pilot.Accounts.InviteCalls.{called_back}

module _ (new_id : Uuid) (actor : String) (user : User) (row : UserIdentity)
    (is : List UserIdentity) where
  mapped_user :
      (for_user for_actor : Option UserIdentity) (identities' : List UserIdentity)
      → get_row identity_key new_id is ≡ none
      → find (has_user user.id) is ≡ for_user
      → find (has_actor actor) is ≡ for_actor
      → map_identity new_id actor user for_user for_actor is ≡ ok (row, identities')
      → IdentityWrite is identities'
  unfolding map_identity
  mapped_user (some old) for_actor identities' fresh u a h =
      subst (IdentityWrite is) (ground arith) (IdentityWrite.refreshed old user u)
  mapped_user none (some old) identities' fresh u a h =
      subst (IdentityWrite is) (ground arith) (IdentityWrite.taken_over old actor user u a)
  mapped_user none none identities' fresh u a h =
      subst (IdentityWrite is) (ground arith) (IdentityWrite.invited new_id actor user fresh u a)

-- What a mapping that returns has found and done.
pub record Mapped (user_id tenant_id : Uuid) (d d' : Directory) : Type 0 where
  pub user : User
  pub found : get_row user_key user_id d.users ≡ some user
  pub in_tenant : user.tenant_id ≡ tenant_id
  pub identities : IdentityWrite d.identities d'.identities
  pub rest :
      (d'.teams ≡ d.teams)
      × (d'.scopes ≡ d.scopes)
      × (d'.tokens ≡ d.tokens)
      × (d'.environments ≡ d.environments)

module _ (new_id : Uuid) (now : Time) (tenant_id user_id : Uuid) (actor : String)
    (source_ip : Option String) (row : UserIdentity) (d d' : Directory) where
  found_user :
      (user : User)
      → invited_user tenant_id user_id d ≡ ok user
      → (get_row user_key user_id d.users ≡ some user) × (user.tenant_id ≡ tenant_id)
  found_user user h = elim (Option-cases (get_row user_key user_id d.users)) [
    | inl e ↦ absurd (ground arith)
    | inr (u, e) ↦ (
      ground arith,
      ground (arith, ==_iff user.tenant_id tenant_id, ==_iff u.tenant_id tenant_id),
    )
  ]

  pub mapping-Mapped :
      get_row identity_key new_id d.identities ≡ none
      → apply_invite_identity_mapping new_id now tenant_id user_id actor source_ip d ≡ ok (row, d')
      → Mapped user_id tenant_id d d'
  unfolding apply_invite_identity_mapping
  mapping-Mapped fresh h =
      let (user, found, mapping) = >>=-eq-ok (invited_user tenant_id user_id d) _ h in
      mapped_as user found mapping
    where
      mapped_as :
          (user : User)
          → invited_user tenant_id user_id d ≡ ok user
          → ◌>>=◌ {B = UserIdentity × Directory}
              (map_identity new_id actor user
                (find (has_user user.id) d.identities)
                (find (has_actor actor) d.identities)
                d.identities)
              (λ (p : UserIdentity × List UserIdentity). ok (
                p.0,
                record d {
                  identities = p.1;
                  users = modify_row user_key user.id (log_in now) d.users;
                  audit = mapping_events actor source_ip user p.0 d.audit;
                },
              ))
            ≡ ok (row, d')
          → Mapped user_id tenant_id d d'
      mapped_as user found mapping =
          let (p, e, done) =
            >>=-eq-ok
              (map_identity new_id actor user (find (has_user user.id) d.identities)
                (find (has_actor actor) d.identities) d.identities)
              _ mapping in
          record {
            user = user;
            found = (found_user user found).0;
            in_tenant = (found_user user found).1;
            identities =
                subst (IdentityWrite d.identities) (ground arith)
                  (mapped_user new_id actor user p.0 d.identities _ _ p.1 fresh refl refl e);
            rest = (ground arith, ground arith, ground arith, ground arith);
          }

-- What a callback that is applied has checked and done.
pub record Applied (payload : InviteStatePayload) (now : Time) (d d' : Directory) : Type 0 where
  pub user : User
  pub found : get_row user_key payload.user_id d.users ≡ some user
  pub in_tenant : user.tenant_id ≡ payload.tenant_id
  pub one_open :
      rowcount (is_callback_open payload.token_id payload.tenant_id payload.user_id now) d.tokens
      ≡ 1
  pub written :
      d'.tokens
      ≡ update_where
          (is_callback_open payload.token_id payload.tenant_id payload.user_id now)
          (consume_callback now)
          d.tokens
  pub identities : IdentityWrite d.identities d'.identities
  pub rest : (d'.teams ≡ d.teams) × (d'.scopes ≡ d.scopes) × (d'.environments ≡ d.environments)

module _ (normalize : String → String) (new_id : Uuid) (now : Time) (actor : String)
    (source_ip email : Option String) (payload : InviteStatePayload) (row : UserIdentity)
    (d d' : Directory) where
  applied_invite :
      auth_callback normalize new_id now actor source_ip email payload d
        ≡ CallbackAnswer.applied (row, d')
      → apply_invite normalize new_id now actor source_ip payload d ≡ ok (row, d')
  unfolding auth_callback
  applied_invite h = ground arith

  -- What has to be open for a callback to be applied, and the row that is then closed.
  pub auth_callback-one_open :
      auth_callback normalize new_id now actor source_ip email payload d
        ≡ CallbackAnswer.applied (row, d')
      → rowcount (is_callback_open payload.token_id payload.tenant_id payload.user_id now) d.tokens
        ≡ 1
  auth_callback-one_open h =
      let (p, called, mapping) =
        >>=-eq-ok
          (consume_invite_callback_state payload.token_id payload.tenant_id payload.user_id now d) _
          (applied_invite h) in
      (called_back now d p.1 payload.token_id payload.tenant_id payload.user_id p.0 called).0

  pub auth_callback-invited :
      auth_callback normalize new_id now actor source_ip email payload d
        ≡ CallbackAnswer.applied (row, d')
      → (user : User) × (get_row user_key payload.user_id d.users ≡ some user)
        × (is_not_invited normalize new_id now actor source_ip email user ≡ false)
  unfolding auth_callback
  auth_callback-invited h = elim (Option-cases (get_row user_key payload.user_id d.users)) [
    | inl e ↦ absurd (ground arith)
    | inr (user, e) ↦ (user, e, ground arith)
  ]

  pub auth_callback-Applied :
      get_row identity_key new_id d.identities ≡ none
      → auth_callback normalize new_id now actor source_ip email payload d
        ≡ CallbackAnswer.applied (row, d')
      → Applied payload now d d'
  auth_callback-Applied fresh h =
      let (p, called, mapping) =
        >>=-eq-ok
          (consume_invite_callback_state payload.token_id payload.tenant_id payload.user_id now d) _
          (applied_invite h) in
      applied_as p.0 p.1 called mapping
    where
      applied_as :
          (token : MagicLinkToken) (d1 : Directory)
          → consume_invite_callback_state payload.token_id payload.tenant_id payload.user_id now d
            ≡ ok (token, d1)
          → apply_invite_identity_mapping new_id now payload.tenant_id payload.user_id actor
              source_ip d1
            ≡ ok (row, d')
          → Applied payload now d d'
      applied_as token d1 called mapping =
          let (one, e) =
            called_back now d d1 payload.token_id payload.tenant_id payload.user_id token called in
          let m =
            mapping-Mapped new_id now payload.tenant_id payload.user_id actor source_ip row d1 d'
              (rw e fresh) mapping in
          record {
            user = m.user;
            found = rw e at m.found;
            in_tenant = m.in_tenant;
            one_open = one;
            written = ground arith;
            identities = rw e at m.identities;
            rest = ground arith;
          }

  pub auth_callback-Writes :
      get_row identity_key new_id d.identities ≡ none
      → auth_callback normalize new_id now actor source_ip email payload d
        ≡ CallbackAnswer.applied (row, d')
      → Writes d d'
  auth_callback-Writes fresh h =
      let a = auth_callback-Applied fresh h in
      record {
        teams = no_teams d d' a.rest.0;
        scopes = kept_scopes d d' a.rest.1;
        identities = a.identities;
        tokens = subst (TokenWrite d.tokens) (sym a.written) (TokenWrite.called_back _ now);
        environments = same_environments d d' a.rest.2;
      }
