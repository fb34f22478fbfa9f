-- ===== src/Accounts/Tests.antt =====
-- The calls on accounts, run on a tenant with one environment, one team and one invited user.
use spark_pilot.Prelude.Table.{update_where, rowcount, modify_row, get_row}
use spark_pilot.Prelude.{◌≡◌, ◌≢◌, ◌↔◌, refl, String, true, false, none, some, [], ◌∷◌, find, arith}
use spark_pilot.Models.{User, MemberRole, UserIdentity, IdentityRole, MagicLinkToken, Purpose}
use spark_pilot.Errors.{Result, ok, err, gone}
use spark_pilot.Accounts.Tables.{Directory}
use spark_pilot.Accounts.Tenants.{create_tenant, remove_team_environment_scope}
use spark_pilot.Accounts.Access.{is_active_actor, resolve_access_context, can_access_environment}
use spark_pilot.Accounts.Invites.{
  Draw, consume, accept_user, consume_invite_token, consume_invite_callback_state,
}
use spark_pilot.Accounts.Provision.{Draft, regenerate_user_invite, set_invited, reissue}
use spark_pilot.Accounts.Callback.{
  InviteStatePayload, CallbackAnswer, map_identity, apply_invite_identity_mapping, auth_callback,
  apply_invite, new_identity,
}
use spark_pilot.Accounts.Steps.{Step, here, next}
use spark_pilot.Accounts.Once.{invite_accepted_once, invite_applied_once}
use spark_pilot.Accounts.Revoked.{regenerate_revokes}
use spark_pilot.Accounts.Isolation.{authorized, MayUse, authorized_exact}
use spark_pilot.Accounts.Scopes.{ScopesHold}
use spark_pilot.Accounts.Separation.{InOwnTenant, access_stays_in_tenant, removed_scope_denies}
use spark_pilot.Samples.{env}

abbrev invited_ada : User
invited_ada = record {
  id = 40;
  tenant_id = 10;
  email = "ada@acme.io";
  role = MemberRole.admin;
  invited_at = some 0;
  invite_consumed_at = none;
  last_login_at = none;
}

abbrev operator_of_three : UserIdentity
operator_of_three = record {
  id = 60;
  user_id = none;
  actor = "grace";
  role = IdentityRole.operator;
  tenant_id = some 10;
  team_id = some 3;
  active = true;
}

abbrev sent_token : MagicLinkToken
sent_token = record {
  id = 80;
  token_hash = "h1";
  user_id = 40;
  tenant_id = 10;
  purpose = Purpose.invite_accept;
  expires_at = 1000;
  consumed_at = none;
  callback_consumed_at = none;
  created_by = "root";
}

abbrev acme : Directory
acme = record {
  tenants = (record { id = 10; name = "acme"; federation_type = "oidc" }) ∷ [];
  teams = (record { id = 3; tenant_id = 10; name = "data" }) ∷ [];
  users = invited_ada ∷ [];
  identities = operator_of_three ∷ [];
  scopes = (record { id = 70; team_id = 3; environment_id = 1 }) ∷ [];
  tokens = sent_token ∷ [];
  links = [];
  environments = env ∷ [];
  audit = [];
}

-- The tables behind a call.
abbrev after : {A : Type 0} → Directory → Result (A × Directory) → Directory
after d (err e) = d
after d (ok (a, d')) = d'

abbrev after_write : Directory → Result Directory → Directory
after_write d (err e) = d
after_write d (ok d') = d'

abbrev accepted_acme : Directory
accepted_acme = record acme {
  tokens = (consume 5 sent_token) ∷ [];
  users = (accept_user 5 invited_ada) ∷ [];
}

abbrev with_beta : Directory
with_beta = after accepted_acme (create_tenant "root" none 11 "beta" "oidc" accepted_acme)

beta_created :
    create_tenant "root" none 11 "beta" "oidc" accepted_acme
    ≡ ok (record { id = 11; name = "beta"; federation_type = "oidc" }, with_beta)
unfolding create_tenant
beta_created = refl

accepts :
    consume_invite_token "h1" 5 acme
    ≡ ok ((consume 5 sent_token, accept_user 5 invited_ada), accepted_acme)
unfolding consume_invite_token rowcount update_where get_row modify_row
accepts = refl

invite_accepted_once_example :
    consume_invite_token "h1" 6 with_beta ≡ err (gone "Invite token has already been consumed.")
unfolding rowcount
invite_accepted_once_example =
    invite_accepted_once "h1" 5 6 acme accepted_acme with_beta
      (consume 5 sent_token, accept_user 5 invited_ada) (omega arith) accepts
      (next here (Step.tenant "root" none 11 "beta" "oidc" _ beta_created))

-- The callback of the accepted invite.
abbrev ada_payload : InviteStatePayload
ada_payload = record { tenant_id = 10; user_id = 40; token_id = 80; exp = 1 }

abbrev lower : String → String
lower s = s

abbrev ada_identity : UserIdentity
ada_identity = new_identity 61 "ada" (accept_user 5 invited_ada)

abbrev called_acme : Directory
called_acme = after accepted_acme (apply_invite lower 61 7 "ada" none ada_payload accepted_acme)

calls_back :
    auth_callback lower 61 7 "ada" none (some "ada@acme.io") ada_payload accepted_acme
    ≡ CallbackAnswer.applied (ada_identity, called_acme)
unfolding auth_callback consume_invite_callback_state apply_invite_identity_mapping map_identity
    get_row rowcount update_where
calls_back = refl

invite_applied_once_example :
    auth_callback lower 62 8 "eve" none (some "ada@acme.io") ada_payload called_acme
    ≢ CallbackAnswer.applied (new_identity 62 "eve" invited_ada, called_acme)
unfolding rowcount get_row
invite_applied_once_example =
    invite_applied_once 80 lower 61 62 7 8 "ada" "eve" none none (some "ada@acme.io")
      (some "ada@acme.io") ada_payload ada_payload ada_identity (new_identity 62 "eve" invited_ada)
      accepted_acme called_acme called_acme called_acme refl refl (omega arith) refl calls_back here

abbrev second_draw : Draw
second_draw = record {
  token_id = 81;
  token_hash = "h2";
  invite_url = "https://pilot/invite?token=2";
  redacted_url = "https://pilot/invite";
}

abbrev draft : Draft
draft = record {
  tenant = record { id = 10; name = "acme"; federation_type = "oidc" };
  user = set_invited "root" none 72 5 invited_ada;
  invite_url = "https://pilot/invite?token=2";
  token_id = 81;
}

abbrev reissued_acme : Directory
reissued_acme = reissue "root" none 72 second_draw 5 invited_ada acme

regenerates :
    regenerate_user_invite "root" none 72 second_draw 5 10 40 acme ≡ ok (draft, reissued_acme)
unfolding regenerate_user_invite get_row
regenerates = refl

regenerate_revokes_example :
    consume_invite_token "h1" 6 reissued_acme ≡ err (gone "Invite token has already been consumed.")
unfolding rowcount
regenerate_revokes_example =
    regenerate_revokes "h1" 40 "root" none 72 second_draw 5 6 10 draft sent_token acme reissued_acme
      reissued_acme (omega arith) refl refl refl regenerates here

authorized_exact_example : (authorized acme "grace" env ≡ true) ↔ (
    (i : UserIdentity) × (find (is_active_actor "grace") acme.identities ≡ some i)
    × MayUse acme env i)
authorized_exact_example = authorized_exact acme "grace" env

acme-ScopesHold : ScopesHold acme
unfolding get_row
acme-ScopesHold = record {
  in_tenant = (
    record {
      team = record { id = 3; tenant_id = 10; name = "data" };
      env = env;
      has_team = refl;
      has_env = refl;
      same = refl;
    },
    tt,
  );
  distinct = (refl, tt);
}

grace_enters : authorized acme "grace" env ≡ true
unfolding resolve_access_context can_access_environment
grace_enters = refl

access_stays_in_tenant_example : InOwnTenant acme env operator_of_three
unfolding get_row
access_stays_in_tenant_example =
    access_stays_in_tenant acme acme "grace" env operator_of_three acme-ScopesHold here refl refl
      refl grace_enters

abbrev unscoped_acme : Directory
unscoped_acme = after_write acme (remove_team_environment_scope "root" none 3 1 acme)

unscopes : remove_team_environment_scope "root" none 3 1 acme ≡ ok unscoped_acme
unfolding remove_team_environment_scope get_row
unscopes = refl

removed_scope_denies_example : authorized unscoped_acme "grace" env ≡ false
removed_scope_denies_example =
    removed_scope_denies acme acme unscoped_acme "root" "grace" none 3 env operator_of_three
      acme-ScopesHold here unscopes refl refl refl

abbrev mapped_acme : Directory
mapped_acme =
    after accepted_acme (apply_invite_identity_mapping 61 7 10 40 "ada" none accepted_acme)

maps :
    apply_invite_identity_mapping 61 7 10 40 "ada" none accepted_acme
    ≡ ok (ada_identity, mapped_acme)
unfolding apply_invite_identity_mapping map_identity get_row
maps = refl
