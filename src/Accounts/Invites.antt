-- ===== src/Accounts/Invites.antt =====
-- Invite tokens in src/sparkpilot/services/internal_admin.py: their creation, invalidation and
-- consumption. The token's hash and the drawn identifiers are arguments; so is the clock.
use spark_pilot.Prelude.{
  String, Bool, true, false, not, ◌&&◌, ◌==◌, ltb, leb, Option, none, some, List, [], ◌∷◌, ◌++◌,
  find, is_some, is_none, str_eq, if◌then◌else◌,
}
use spark_pilot.Prelude.Table.{get_row, modify_row, update_where, rowcount}
use spark_pilot.Models.{Uuid, Time, User, MagicLinkToken, MagicLinkLog, Purpose}
use spark_pilot.Errors.{Result, ok, err, entity_not_found, gone, ServiceError, ◌>>=◌}
use spark_pilot.Database.{require_entity}
use spark_pilot.Accounts.Tables.{Directory, token_key, user_key}

-- What a call draws: the row's identifier, the hash of the random token, and the URL that carries the
-- token, whole and without its query.
pub record Draw : Type 0 where
  pub token_id : Uuid
  pub token_hash : String
  pub invite_url : String
  pub redacted_url : String

abbrev pub is_invite : Purpose → Bool
is_invite Purpose.invite_accept = true
is_invite _ = false

-- `_create_magic_link_token`
abbrev pub magic_link_token :
    Draw → (user_id tenant_id : Uuid) → (created_by : String) → (expires_at : Time) → MagicLinkToken
magic_link_token draw user_id tenant_id created_by expires_at = record {
  id = draw.token_id;
  token_hash = draw.token_hash;
  user_id = user_id;
  tenant_id = tenant_id;
  purpose = Purpose.invite_accept;
  expires_at = expires_at;
  consumed_at = none;
  callback_consumed_at = none;
  created_by = created_by;
}

-- `_log_magic_link_issued`
abbrev pub magic_link_log : Draw → (user_id tenant_id : Uuid) → (created_by : String) → MagicLinkLog
magic_link_log draw user_id tenant_id created_by = record {
  user_id = user_id;
  tenant_id = tenant_id;
  purpose = Purpose.invite_accept;
  magic_link_url = draw.redacted_url;
  created_by = created_by;
}

-- Both rows of a new invite.
abbrev pub issue_invite :
    Draw
    → (user_id tenant_id : Uuid) → (created_by : String) → (expires_at : Time) → Directory
    → Directory
issue_invite draw user_id tenant_id created_by expires_at d = record d {
  tokens = d.tokens ++ magic_link_token draw user_id tenant_id created_by expires_at ∷ [];
  links = d.links ++ magic_link_log draw user_id tenant_id created_by ∷ [];
}

abbrev pub consume : Time → MagicLinkToken → MagicLinkToken
consume now t = record t { consumed_at = some now }

abbrev pub consume_callback : Time → MagicLinkToken → MagicLinkToken
consume_callback now t = record t { callback_consumed_at = some now }

abbrev pub is_unconsumed_of : Uuid → MagicLinkToken → Bool
is_unconsumed_of user_id t = t.user_id == user_id && is_invite t.purpose && is_none t.consumed_at

-- `_invalidate_unconsumed_user_invites`
unfoldable pub invalidate_unconsumed_user_invites :
    Uuid → Time → List MagicLinkToken → List MagicLinkToken
invalidate_unconsumed_user_invites user_id now tokens =
    update_where (is_unconsumed_of user_id) (consume now) tokens

-- The `WHERE` of `consume_invite_token`, and of the query of the row.
abbrev pub is_invite_of : String → MagicLinkToken → Bool
is_invite_of hash t = str_eq t.token_hash hash && is_invite t.purpose

abbrev pub is_consumable : String → Time → MagicLinkToken → Bool
is_consumable hash now t = is_invite_of hash t && is_none t.consumed_at && ltb now t.expires_at

abbrev pub refused_token : Time → Option MagicLinkToken → ServiceError
refused_token now none = entity_not_found "Invite token not found."
refused_token now (some row) =
    if is_some row.consumed_at
    then gone "Invite token has already been consumed."
    else if leb row.expires_at now
    then gone "Invite token has expired."
    else gone "Invite token is no longer valid."

abbrev pub accept_user : Time → User → User
accept_user now u = record u { invite_consumed_at = some now }

abbrev pub accepted_invite :
    Time → MagicLinkToken → Directory → Result ((MagicLinkToken × User) × Directory)
accepted_invite now row d = do
  user ← require_entity (get_row user_key row.user_id d.users) "Invite user not found."
  ok (
    (row, accept_user now user),
    record d { users = modify_row user_key user.id (accept_user now) d.users },
  )

-- `hash` is that of the presented token.
unfoldable pub consume_invite_token :
    (hash : String) → Time → Directory → Result ((MagicLinkToken × User) × Directory)
consume_invite_token hash now d =
    let updated = update_where (is_consumable hash now) (consume now) d.tokens in
    if not (rowcount (is_consumable hash now) d.tokens == 1)
    then err (refused_token now (find (is_invite_of hash) d.tokens))
    else do
      row ← require_entity (find (is_invite_of hash) updated) "Invite token not found."
      accepted_invite now row (record d { tokens = updated })

module _ (token_id tenant_id user_id : Uuid) (now : Time) where
  -- The `WHERE` of `consume_invite_callback_state`.
  abbrev pub is_callback_open : MagicLinkToken → Bool
  is_callback_open t =
      t.id == token_id
      && is_invite t.purpose
      && t.tenant_id == tenant_id
      && t.user_id == user_id
      && is_some t.consumed_at
      && is_none t.callback_consumed_at
      && ltb now t.expires_at

  abbrev pub refused_callback : Option MagicLinkToken → ServiceError
  refused_callback none = entity_not_found "Invite token not found."
  refused_callback (some row) =
      if not (is_invite row.purpose)
      then entity_not_found "Invite token not found."
      else if not (row.tenant_id == tenant_id && row.user_id == user_id)
      then entity_not_found "Invite token does not match invite context."
      else if is_none row.consumed_at
      then gone "Invite token has not been accepted."
      else if leb row.expires_at now
      then gone "Invite token has expired."
      else if is_some row.callback_consumed_at
      then gone "Invite state has already been consumed."
      else gone "Invite state is no longer valid."

  unfoldable pub consume_invite_callback_state : Directory → Result (MagicLinkToken × Directory)
  consume_invite_callback_state d =
      let updated = update_where is_callback_open (consume_callback now) d.tokens in
      if not (rowcount is_callback_open d.tokens == 1)
      then err (refused_callback (get_row token_key token_id d.tokens))
      else do
        row ← require_entity (get_row token_key token_id updated) "Invite token not found."
        ok (row, record d { tokens = updated })
