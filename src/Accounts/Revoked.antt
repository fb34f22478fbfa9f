-- ===== src/Accounts/Revoked.antt =====
-- What a new invite takes back, and what an invite's callback has checked.
use spark_pilot.Prelude.{
  ℕ, ◌≤◌, ◌≡◌, refl, sym, subst, inl, inr, String, true, false, not, ◌&&◌, ◌==◌, Option, some, List,
  [], ◌∷◌, any, find, Bool-cases, arith,
}
use spark_pilot.Prelude.Table.{update_where, rowcount, get_row, get_row-key}
use spark_pilot.Prelude.Distinct.{any-update_where-true}
use spark_pilot.Models.{Uuid, Time, User, MagicLinkToken}
use spark_pilot.Errors.{ok, err, gone}
use spark_pilot.Accounts.Tables.{Directory, user_key}
use spark_pilot.Accounts.Invites.{
  Draw, consume, is_invite_of, is_unconsumed_of, invalidate_unconsumed_user_invites,
  consume_invite_token,
}
use spark_pilot.Accounts.Provision.{Draft, expiry, reissue, regenerate_user_invite}
use spark_pilot.Accounts.InviteCalls.{unique_draw, reissued}
use spark_pilot.Accounts.Steps.{Reach, IsNewDraw}
use spark_pilot.Accounts.Writes.{TokenWrite}
use spark_pilot.Accounts.Spent.{IsSpent, at_open, write-IsSpent, Reach-IsSpent}
use spark_pilot.Accounts.Once.{accepted_slot, refused_of_spent}

module _ (hash : String) (user_id : Uuid) where
  none_of_rowcount :
      (ts : List MagicLinkToken)
      → rowcount (is_invite_of hash) ts ≤ 0
      → any (λ t. is_invite_of hash t && not (t.user_id == user_id)) ts ≡ false
  unfolding rowcount
  none_of_rowcount [] h = refl
  none_of_rowcount (t ∷ ts) h = ground (arith, none_of_rowcount ts)

  -- The one invite of the hash is the user's.
  only_own :
      (ts : List MagicLinkToken) (t : MagicLinkToken)
      → rowcount (is_invite_of hash) ts ≤ 1
      → find (is_invite_of hash) ts ≡ some t
      → t.user_id ≡ user_id
      → any (λ x. is_invite_of hash x && not (x.user_id == user_id)) ts ≡ false
  unfolding rowcount
  only_own [] t unique found own = refl
  only_own (x ∷ ts) t unique found own = elim (Bool-cases (is_invite_of hash x)) [
    | inl e ↦ ground (arith, none_of_rowcount ts)
    | inr e ↦ ground (arith, only_own ts t)
  ]

  invalidate-closes :
      (now : Time) (ts : List MagicLinkToken)
      → any (λ x. is_invite_of hash x && not (x.user_id == user_id)) ts ≡ false
      → any
          (at_open (accepted_slot hash))
          (update_where (is_unconsumed_of user_id) (consume now) ts)
        ≡ false
  unfolding update_where
  invalidate-closes now [] h = refl
  invalidate-closes now (t ∷ ts) h = ground (arith, invalidate-closes now ts)

  there :
      (ts : List MagicLinkToken) (t : MagicLinkToken)
      → find (is_invite_of hash) ts ≡ some t
      → any (is_invite_of hash) ts ≡ true
  there [] t h = cc
  there (x ∷ ts) t h = ground (arith, there ts t)

  invalidated-IsSpent :
      (now : Time) (ts : List MagicLinkToken) (t : MagicLinkToken)
      → rowcount (is_invite_of hash) ts ≤ 1
      → find (is_invite_of hash) ts ≡ some t
      → t.user_id ≡ user_id
      → IsSpent (accepted_slot hash) (invalidate_unconsumed_user_invites user_id now ts)
  unfolding invalidate_unconsumed_user_invites
  invalidated-IsSpent now ts t unique found own = (
    any-update_where-true (is_invite_of hash) _ (consume now) ts (λ x k. k) (there ts t found),
    invalidate-closes now ts (only_own ts t unique found own),
  )

  -- After an invite of a user is regenerated, no invite that was sent to the user before is accepted,
  -- whatever calls follow and at whatever time: its token is answered to be consumed. Drawn tokens are
  -- new, and the hash is that of one token.
  pub regenerate_revokes :
      (actor : String) (source_ip : Option String) (ttl_hours : ℕ) (draw : Draw) (now later : Time)
      (tenant_id : Uuid) (made : Draft) (t : MagicLinkToken) (d d' e : Directory)
      → rowcount (is_invite_of hash) d.tokens ≤ 1
      → find (is_invite_of hash) d.tokens ≡ some t
      → t.user_id ≡ user_id
      → IsNewDraw draw d
      → regenerate_user_invite actor source_ip ttl_hours draw now tenant_id user_id d
        ≡ ok (made, d')
      → Reach d' e
      → consume_invite_token hash later e ≡ err (gone "Invite token has already been consumed.")
  regenerate_revokes actor source_ip ttl_hours draw now later tenant_id made t d d' e unique found
        own fresh h r =
      let (user, stored, tokens, rest) =
        reissued actor source_ip ttl_hours draw now d d' tenant_id user_id made h in
      refused_of_spent hash later e (
        Reach-IsSpent (accepted_slot hash) r
          (subst (IsSpent (accepted_slot hash)) (sym tokens) (issued user stored)))
    where
      issued :
          (user : User)
          → get_row user_key user_id d.users ≡ some user
          → IsSpent (accepted_slot hash) (reissue actor source_ip ttl_hours draw now user d).tokens
      issued user stored =
          let own_id = get_row-key user_key user_id d.users user stored in
          write-IsSpent (accepted_slot hash)
            (TokenWrite.issued draw user.id user.tenant_id actor (expiry now ttl_hours)
              (unique_draw actor source_ip ttl_hours draw now d d user.id fresh))
            (rw own_id (invalidated-IsSpent now d.tokens t unique found own))
