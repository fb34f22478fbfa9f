-- ===== src/Accounts/InviteCalls.antt =====
-- What the calls of invites write.
use spark_pilot.Prelude.{
  ℕ, ◌≡◌, sym, subst, inl, inr, String, false, Option, some, any, Option-cases, ==_iff, arith,
}
use spark_pilot.Prelude.Table.{update_where, get_row, rowcount}
use spark_pilot.Prelude.Distinct.{any-update_where}
use spark_pilot.Models.{Uuid, Time, User, MagicLinkToken}
use spark_pilot.Errors.{ok, >>=-eq-ok}
use spark_pilot.Accounts.Tables.{Directory, user_key, require_tenant}
use spark_pilot.Accounts.Tenants.{create_tenant}
use spark_pilot.Accounts.Invites.{
  Draw, consume, consume_callback, is_consumable, is_callback_open,
  invalidate_unconsumed_user_invites, consume_invite_token, consume_invite_callback_state,
}
use spark_pilot.Accounts.Provision.{
  Draft, create_tenant_with_admin_invite, regenerate_user_invite, reissue, expiry,
}
use spark_pilot.Accounts.Steps.{takes_draw, IsNewDraw}
use spark_pilot.Accounts.Writes.{TokenWrite, Writes, Untouched, tokens_written}

module _ (actor : String) (source_ip : Option String) (ttl_hours : ℕ) (draw : Draw) (now : Time)
    (d d' : Directory) where
  pub provision-Writes :
      (normalize_email : String → Option String) (tenant_id user_id : Uuid)
      (name federation_type admin_email : String) (made : Draft)
      → IsNewDraw draw d
      → create_tenant_with_admin_invite actor source_ip ttl_hours normalize_email tenant_id user_id
          draw now name federation_type admin_email d
        ≡ ok (made, d')
      → Writes d d'
  unfolding create_tenant_with_admin_invite create_tenant
  provision-Writes normalize_email tenant_id user_id name federation_type admin_email made fresh h =
      tokens_written d d' (ground arith) (
        subst (TokenWrite d.tokens) (ground arith)
          (TokenWrite.issued draw user_id tenant_id actor (expiry now ttl_hours) fresh))

  pub unique_draw :
      (user_id : Uuid)
      → any (takes_draw draw) d.tokens ≡ false
      → any (takes_draw draw) (invalidate_unconsumed_user_invites user_id now d.tokens) ≡ false
  unfolding invalidate_unconsumed_user_invites
  unique_draw user_id fresh =
      any-update_where (takes_draw draw) _ (consume now) d.tokens (λ t k. k) fresh

  pub reissued :
      (tenant_id user_id : Uuid) (made : Draft)
      → regenerate_user_invite actor source_ip ttl_hours draw now tenant_id user_id d
        ≡ ok (made, d')
      → (user : User) × (get_row user_key user_id d.users ≡ some user)
        × (d'.tokens ≡ (reissue actor source_ip ttl_hours draw now user d).tokens)
        × Untouched d d'
  unfolding regenerate_user_invite
  reissued tenant_id user_id made h =
      let (tenant, found, rest) = >>=-eq-ok (require_tenant d tenant_id) _ h in
      elim (Option-cases (get_row user_key user_id d.users)) [
        | inl e ↦ absurd (ground arith)
        | inr (user, e) ↦ (user, e, ground arith, ground arith)
      ]

  pub regenerate-Writes :
      (tenant_id user_id : Uuid) (made : Draft)
      → IsNewDraw draw d
      → regenerate_user_invite actor source_ip ttl_hours draw now tenant_id user_id d
        ≡ ok (made, d')
      → Writes d d'
  regenerate-Writes tenant_id user_id made fresh h =
      let (user, found, tokens, rest) = reissued tenant_id user_id made h in
      tokens_written d d' rest (subst (TokenWrite d.tokens) (sym tokens) (written user))
    where
      written :
          (user : User)
          → TokenWrite d.tokens (reissue actor source_ip ttl_hours draw now user d).tokens
      written user =
          unfold invalidate_unconsumed_user_invites in
          TokenWrite.both (TokenWrite.consumed _ now) (
            TokenWrite.issued draw user.id user.tenant_id actor (expiry now ttl_hours)
              (unique_draw user.id fresh))

module _ (now : Time) (d d' : Directory) where
  pub accept-Writes :
      (hash : String) (accepted : MagicLinkToken × User)
      → consume_invite_token hash now d ≡ ok (accepted, d')
      → Writes d d'
  unfolding consume_invite_token
  accept-Writes hash accepted h = tokens_written d d' (ground arith) (
      subst (TokenWrite d.tokens) (ground arith) (TokenWrite.consumed (is_consumable hash now) now))

  pub called_back :
      (token_id tenant_id user_id : Uuid) (row : MagicLinkToken)
      → consume_invite_callback_state token_id tenant_id user_id now d ≡ ok (row, d')
      → (rowcount (is_callback_open token_id tenant_id user_id now) d.tokens ≡ 1)
        × (d' ≡ record d {
          tokens =
              update_where
                (is_callback_open token_id tenant_id user_id now)
                (consume_callback now)
                d.tokens;
        })
  unfolding consume_invite_callback_state
  called_back token_id tenant_id user_id row h = (
    ground (arith, ==_iff (rowcount (is_callback_open token_id tenant_id user_id now) d.tokens) 1),
    ground arith,
  )
