-- ===== src/Accounts/Once.antt =====
-- An invite is accepted once, its callback is applied once, and a new invite takes the old ones back.
use spark_pilot.Prelude.{
  ℕ, ◌≤◌, ◌≡◌, ◌≢◌, refl, sym, subst, ap, String, true, false, ◌==◌, ==_iff, Option, none, some,
  is_none, List, [], ◌∷◌, any, str_eq, eq_iff, arith,
}
use spark_pilot.Prelude.Table.{update_where, rowcount, get_row}
use spark_pilot.Prelude.Distinct.{any-imp}
use spark_pilot.Models.{Uuid, Time, User, UserIdentity, MagicLinkToken}
use spark_pilot.Errors.{ServiceError, ok, err, gone}
use spark_pilot.Accounts.Tables.{Directory, identity_key}
use spark_pilot.Accounts.Invites.{
  Draw, magic_link_token, consume, consume_callback, is_invite_of, is_consumable, refused_token,
  is_callback_open, consume_invite_token,
}
use spark_pilot.Accounts.Callback.{CallbackAnswer, InviteStatePayload, auth_callback}
use spark_pilot.Accounts.CallbackCalls.{auth_callback-Applied, auth_callback-one_open}
use spark_pilot.Accounts.Steps.{Reach, takes_draw}
use spark_pilot.Accounts.Spent.{
  Slot, IsSpent, at_open, Reach-IsSpent, find-spent, rowcount-of_any, update-IsSpent,
}

module _ (hash : String) where
  fresh_hash :
      (draw : Draw) (ts : List MagicLinkToken)
      → any (takes_draw draw) ts ≡ false
      → any (is_invite_of hash) ts ≡ true
      → str_eq draw.token_hash hash ≡ false
  fresh_hash draw [] fresh there = absurd (ground arith)
  fresh_hash draw (t ∷ ts) fresh there = ground (
    arith,
    eq_iff draw.token_hash hash,
    eq_iff t.token_hash hash,
    eq_iff t.token_hash draw.token_hash,
    fresh_hash draw ts,
  )

  pub missed_hash :
      (draw : Draw) (user_id tenant_id : Uuid) (created_by : String) (expires_at : Time)
      (ts : List MagicLinkToken)
      → any (takes_draw draw) ts ≡ false
      → any (is_invite_of hash) ts ≡ true
      → is_invite_of hash (magic_link_token draw user_id tenant_id created_by expires_at) ≡ false
  missed_hash draw user_id tenant_id created_by expires_at ts fresh there =
      rw (fresh_hash draw ts fresh there) refl

  pub closes : (t : MagicLinkToken) → false ≡ true → is_none t.consumed_at ≡ true
  closes t h = cc

  -- The invites of a hash, of which those are open that are not consumed.
  abbrev pub accepted_slot : Slot
  accepted_slot = record {
    is_at = is_invite_of hash;
    is_open = λ t. is_none t.consumed_at;
    at-consume = λ now t. refl;
    at-consume_callback = λ now t. refl;
    open-consume = λ now t. closes t;
    open-consume_callback = λ now t h. h;
    misses_new = missed_hash;
  }

  accepted-facts :
      (now : Time) (d d' : Directory) (accepted : MagicLinkToken × User)
      → consume_invite_token hash now d ≡ ok (accepted, d')
      → (rowcount (is_consumable hash now) d.tokens ≡ 1)
        × (d'.tokens ≡ update_where (is_consumable hash now) (consume now) d.tokens)
  unfolding consume_invite_token
  accepted-facts now d d' accepted h =
      (ground (arith, ==_iff (rowcount (is_consumable hash now) d.tokens) 1), ground arith)

  consumable-is_invite :
      (now : Time) (t : MagicLinkToken)
      → is_consumable hash now t ≡ true
      → is_invite_of hash t ≡ true
  consumable-is_invite now t h = ground arith

  accepted-IsSpent :
      (now : Time) (d d' : Directory) (accepted : MagicLinkToken × User)
      → rowcount (is_invite_of hash) d.tokens ≤ 1
      → consume_invite_token hash now d ≡ ok (accepted, d')
      → IsSpent accepted_slot d'.tokens
  accepted-IsSpent now d d' accepted unique h =
      let (one, written) = accepted-facts now d d' accepted h in
      subst (IsSpent accepted_slot) (sym written) (
        update-IsSpent accepted_slot (is_consumable hash now) (consume now)
          (consumable-is_invite now) (λ t. refl) (λ t. refl) d.tokens unique one)

  consumable-is_open :
      (now : Time) (t : MagicLinkToken)
      → is_consumable hash now t ≡ true
      → at_open accepted_slot t ≡ true
  consumable-is_open now t h = ground arith

  none_consumable :
      (later : Time) (ts : List MagicLinkToken)
      → IsSpent accepted_slot ts
      → rowcount (is_consumable hash later) ts ≡ 0
  none_consumable later ts spent = rowcount-of_any (is_consumable hash later) ts (
      any-imp (at_open accepted_slot) (is_consumable hash later) ts (consumable-is_open later)
        spent.1)

  refused_row :
      (later : Time) (row : MagicLinkToken)
      → is_none row.consumed_at ≡ false
      → refused_token later (some row) ≡ gone "Invite token has already been consumed."
  refused_row later row closed = ground arith

  pub refused_of_spent :
      (later : Time) (e : Directory)
      → IsSpent accepted_slot e.tokens
      → consume_invite_token hash later e ≡ err (gone "Invite token has already been consumed.")
  unfolding consume_invite_token
  refused_of_spent later e spent =
      let (row, found, closed) = find-spent accepted_slot e.tokens spent in
      rw (none_consumable later e.tokens spent, found)
        (ap (λ (x : ServiceError). err x) (refused_row later row closed))

  -- Once an invite's token is accepted, whatever calls follow and at whatever time, presenting the
  -- token again is answered that it is consumed, if the hashes of tokens are unique at first.
  pub invite_accepted_once :
      (now later : Time) (d d' e : Directory) (accepted : MagicLinkToken × User)
      → rowcount (is_invite_of hash) d.tokens ≤ 1
      → consume_invite_token hash now d ≡ ok (accepted, d')
      → Reach d' e
      → consume_invite_token hash later e ≡ err (gone "Invite token has already been consumed.")
  invite_accepted_once now later d d' e accepted unique h r =
      refused_of_spent later e
        (Reach-IsSpent accepted_slot r (accepted-IsSpent now d d' accepted unique h))

module _ (token_id : Uuid) where
  fresh_id :
      (draw : Draw) (ts : List MagicLinkToken)
      → any (takes_draw draw) ts ≡ false
      → any (λ (t : MagicLinkToken). t.id == token_id) ts ≡ true
      → (draw.token_id == token_id) ≡ false
  fresh_id draw [] fresh there = absurd (ground arith)
  fresh_id draw (t ∷ ts) fresh there = ground (arith, fresh_id draw ts)

  still_open : (t : MagicLinkToken) → false ≡ true → is_none t.callback_consumed_at ≡ true
  still_open t h = cc

  -- The token of an identifier, which is open while its callback is not consumed.
  abbrev called_slot : Slot
  called_slot = record {
    is_at = λ t. t.id == token_id;
    is_open = λ t. is_none t.callback_consumed_at;
    at-consume = λ now t. refl;
    at-consume_callback = λ now t. refl;
    open-consume = λ now t h. h;
    open-consume_callback = λ now t. still_open t;
    misses_new = λ draw user_id tenant_id created_by expires_at. fresh_id draw;
  }

  module _ (tenant_id user_id : Uuid) (now : Time) where
    open-has_id :
        (t : MagicLinkToken)
        → is_callback_open token_id tenant_id user_id now t ≡ true
        → (t.id == token_id) ≡ true
    open-has_id t h = ground arith

    open-at_open :
        (t : MagicLinkToken)
        → is_callback_open token_id tenant_id user_id now t ≡ true
        → at_open called_slot t ≡ true
    open-at_open t h = ground arith

    none_open :
        (ts : List MagicLinkToken)
        → IsSpent called_slot ts
        → rowcount (is_callback_open token_id tenant_id user_id now) ts ≡ 0
    none_open ts spent =
        rowcount-of_any _ ts (any-imp (at_open called_slot) _ ts open-at_open spent.1)

    called-IsSpent :
        (ts : List MagicLinkToken)
        → rowcount (λ (t : MagicLinkToken). t.id == token_id) ts ≤ 1
        → rowcount (is_callback_open token_id tenant_id user_id now) ts ≡ 1
        → IsSpent called_slot (
            update_where
              (is_callback_open token_id tenant_id user_id now)
              (consume_callback now)
              ts)
    called-IsSpent ts unique one =
        update-IsSpent called_slot _ (consume_callback now) open-has_id (λ t. refl) (λ t. refl) ts
          unique one

  -- Once the callback of an invite is applied, no callback with a state of the same token is applied
  -- again: not by another actor or email, not for another user, not at another time, and whatever
  -- calls came in between, if the identifiers of tokens are unique at first.
  pub invite_applied_once :
      (normalize : String → String) (new_id other_id : Uuid) (now later : Time)
      (actor actor' : String) (source_ip source_ip' email email' : Option String)
      (payload payload' : InviteStatePayload) (row row' : UserIdentity) (d d' e e' : Directory)
      → payload.token_id ≡ token_id
      → payload'.token_id ≡ token_id
      → rowcount (λ (t : MagicLinkToken). t.id == token_id) d.tokens ≤ 1
      → get_row identity_key new_id d.identities ≡ none
      → auth_callback normalize new_id now actor source_ip email payload d
        ≡ CallbackAnswer.applied (row, d')
      → Reach d' e
      → auth_callback normalize other_id later actor' source_ip' email' payload' e
        ≢ CallbackAnswer.applied (row', e')
  invite_applied_once normalize new_id other_id now later actor actor' source_ip source_ip' email
        email' payload payload' row row' d d' e e' same same' unique fresh h r again =
      let a =
        auth_callback-Applied normalize new_id now actor source_ip email payload row d d' fresh h in
      let one =
        auth_callback-one_open normalize other_id later actor' source_ip' email' payload' row' e e'
          again in
      let spent = Reach-IsSpent called_slot r (
        subst (IsSpent called_slot) (sym a.written) (
          rw same (
            called-IsSpent payload.tenant_id payload.user_id now d.tokens unique
              (rw same at a.one_open)))) in
      absurd (
        omega (
          arith,
          none_open payload'.tenant_id payload'.user_id later e.tokens spent,
          subst
              (λ (i : ℕ).
                rowcount (is_callback_open i payload'.tenant_id payload'.user_id later) e.tokens
                ≡ 1)
              same' one,
        ))
