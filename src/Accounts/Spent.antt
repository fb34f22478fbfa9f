-- ===== src/Accounts/Spent.antt =====
-- Tokens that are used up stay used up, whatever is written afterwards.
use spark_pilot.Prelude.{
  ◌+◌, ◌≤◌, ◌≡◌, refl, inl, inr, String, Bool, true, false, not, ◌&&◌, some, List, [], ◌∷◌, any,
  find, Bool-cases, arith,
}
use spark_pilot.Prelude.Table.{update_where, rowcount}
use spark_pilot.Prelude.Distinct.{
  any-append, any-append_false, any-update_where, any-update_where-true,
}
use spark_pilot.Models.{Uuid, Time, MagicLinkToken}
use spark_pilot.Accounts.Tables.{Directory}
use spark_pilot.Accounts.Invites.{Draw, magic_link_token, consume, consume_callback}
use spark_pilot.Accounts.Steps.{Reach, here, next, takes_draw}
use spark_pilot.Accounts.Writes.{TokenWrite}
use spark_pilot.Accounts.Moves.{Step-Writes}

-- A kind of row of which one is there and none is open: rows that only the table's writes change, by
-- filling a column that an open row has empty.
pub record Slot : Type 0 where
  pub is_at : MagicLinkToken → Bool
  pub is_open : MagicLinkToken → Bool
  pub at-consume : (now : Time) (t : MagicLinkToken) → is_at (consume now t) ≡ is_at t
  pub at-consume_callback :
      (now : Time) (t : MagicLinkToken) → is_at (consume_callback now t) ≡ is_at t
  pub open-consume :
      (now : Time) (t : MagicLinkToken) → is_open (consume now t) ≡ true → is_open t ≡ true
  pub open-consume_callback :
      (now : Time) (t : MagicLinkToken) → is_open (consume_callback now t) ≡ true → is_open t ≡ true
  pub misses_new :
      (draw : Draw) (user_id tenant_id : Uuid) (created_by : String) (expires_at : Time)
      (ts : List MagicLinkToken)
      → any (takes_draw draw) ts ≡ false
      → any is_at ts ≡ true
      → is_at (magic_link_token draw user_id tenant_id created_by expires_at) ≡ false

module _ (s : Slot) where
  abbrev pub at_open : MagicLinkToken → Bool
  at_open t = s.is_at t && s.is_open t

  abbrev pub IsSpent : List MagicLinkToken → Type 0
  IsSpent ts = (any s.is_at ts ≡ true) × (any at_open ts ≡ false)

  pub write-IsSpent : {ts us : List MagicLinkToken} → TokenWrite ts us → IsSpent ts → IsSpent us
  write-IsSpent TokenWrite.kept h = h
  write-IsSpent (TokenWrite.issued {ts} draw user_id tenant_id created_by expires_at fresh) h =
      let missed = s.misses_new draw user_id tenant_id created_by expires_at ts fresh h.0 in
      (
        rw
            (
              any-append s.is_at ts
                  (magic_link_token draw user_id tenant_id created_by expires_at ∷ []),
              h.0,
            )
            refl,
        any-append_false at_open ts _ h.1 (rw missed refl),
      )
  write-IsSpent (TokenWrite.consumed {ts} test now) h = (
    any-update_where-true s.is_at test (consume now) ts (λ t k. rw (s.at-consume now t) k) h.0,
    any-update_where at_open test (consume now) ts
        (λ t k. ground (arith, s.at-consume now t, s.open-consume now t)) h.1,
  )
  write-IsSpent (TokenWrite.called_back {ts} test now) h = (
    any-update_where-true s.is_at test (consume_callback now) ts
        (λ t k. rw (s.at-consume_callback now t) k) h.0,
    any-update_where at_open test (consume_callback now) ts
        (λ t k. ground (arith, s.at-consume_callback now t, s.open-consume_callback now t)) h.1,
  )
  write-IsSpent (TokenWrite.both w v) h = write-IsSpent v (write-IsSpent w h)

  pub Reach-IsSpent : {d e : Directory} → Reach d e → IsSpent d.tokens → IsSpent e.tokens
  Reach-IsSpent here h = h
  Reach-IsSpent (next r step) h = write-IsSpent (Step-Writes step).tokens (Reach-IsSpent r h)

  pub find-spent :
      (ts : List MagicLinkToken)
      → IsSpent ts
      → (row : MagicLinkToken) × (find s.is_at ts ≡ some row) × (s.is_open row ≡ false)
  find-spent [] h = absurd (ground arith)
  find-spent (t ∷ ts) h = elim (Bool-cases (s.is_at t)) [
    | inl e ↦ (t, rw e refl, ground arith)
    | inr e ↦
        let (row, found, closed) = find-spent ts (ground arith, ground arith) in
        (row, rw e found, closed)
  ]

-- Where one row of a kind is chosen and the kind has no second row, no other of the kind is left.
pub rowcount_split :
    {A : Type 0} (p q : A → Bool) (xs : List A)
    → ((x : A) → q x ≡ true → p x ≡ true)
    → rowcount p xs ≡ rowcount q xs + rowcount (λ x. p x && not (q x)) xs
unfolding rowcount
rowcount_split p q [] imp = refl
rowcount_split p q (x ∷ xs) imp = ground (arith, imp x, rowcount_split p q xs imp)

pub any-of_rowcount :
    {A : Type 0} (p : A → Bool) (xs : List A) → rowcount p xs ≡ 0 → any p xs ≡ false
unfolding rowcount
any-of_rowcount p [] h = refl
any-of_rowcount p (x ∷ xs) h = ground (arith, any-of_rowcount p xs)

pub any-of_rowcount_pos :
    {A : Type 0} (p : A → Bool) (xs : List A) → rowcount p xs ≡ 1 → any p xs ≡ true
unfolding rowcount
any-of_rowcount_pos p [] h = absurd (omega arith)
any-of_rowcount_pos p (x ∷ xs) h = ground (arith, any-of_rowcount_pos p xs)

pub rowcount-of_any :
    {A : Type 0} (p : A → Bool) (xs : List A) → any p xs ≡ false → rowcount p xs ≡ 0
unfolding rowcount
rowcount-of_any p [] h = refl
rowcount-of_any p (x ∷ xs) h = ground (arith, rowcount-of_any p xs)

-- An update that closes the one row that it finds, where the kind has no second row.
module _ (s : Slot) (q : MagicLinkToken → Bool) (f : MagicLinkToken → MagicLinkToken)
    (chosen : (t : MagicLinkToken) → q t ≡ true → s.is_at t ≡ true)
    (at-f : (t : MagicLinkToken) → s.is_at (f t) ≡ s.is_at t)
    (closed : (t : MagicLinkToken) → s.is_open (f t) ≡ false) where
  update-closes :
      (ts : List MagicLinkToken)
      → any (λ t. s.is_at t && not (q t)) ts ≡ false
      → any (at_open s) (update_where q f ts) ≡ false
  unfolding update_where
  update-closes [] h = refl
  update-closes (t ∷ ts) h = ground (arith, closed t, update-closes ts)

  there : (ts : List MagicLinkToken) → any q ts ≡ true → any s.is_at (update_where q f ts) ≡ true
  unfolding update_where
  there [] h = absurd (ground arith)
  there (t ∷ ts) h = ground (arith, chosen t, at-f t, there ts)

  pub update-IsSpent :
      (ts : List MagicLinkToken)
      → rowcount s.is_at ts ≤ 1
      → rowcount q ts ≡ 1
      → IsSpent s (update_where q f ts)
  update-IsSpent ts unique one = (
    there ts (any-of_rowcount_pos q ts one),
    update-closes ts (
        any-of_rowcount (λ t. s.is_at t && not (q t)) ts
          (omega (arith, rowcount_split s.is_at q ts chosen))),
  )
