-- ===== src/Workers/Exclusive.antt =====
-- A claim excludes other workers until it is released or stale, and what a claim returns is claimed.
use spark_pilot.Prelude.{
  ℕ, suc, ◌≤◌, ◌≡◌, ◌⊎◌, inl, inr, refl, ◌∙◌, String, Bool, true, false, ◌==◌, Option, some, List,
  [], ◌∷◌, ◌++◌, All, filter, length, any, is_empty, Bool-cases, if◌then◌else◌, arith,
}
use spark_pilot.Models.{Uuid, Time, Run, RunState}
use spark_pilot.Workers.Claims.{
  Claimable, run_claims, claim_matches, claim_update, claim_rowcount, claim_loop, candidate_ids,
  claim_rows, claim_cutoff_time,
}

-- What the claim columns are to the rest of the row.
pub record ClaimLaws {A : Type 0} (c : Claimable A) (in_states : A → Bool) : Type 0 where
  pub key_set :
      (t : Option String) (m : Option Time) (row : A) → c.key (c.set_claim t m row) ≡ c.key row
  pub token_set :
      (t : Option String) (m : Option Time) (row : A) → c.token (c.set_claim t m row) ≡ t
  pub claimed_at_set :
      (t : Option String) (m : Option Time) (row : A) → c.claimed_at (c.set_claim t m row) ≡ m
  pub states_set :
      (t : Option String) (m : Option Time) (row : A)
      → in_states (c.set_claim t m row) ≡ in_states row

abbrev pub run_in : (RunState → Bool) → Run → Bool
run_in states run = states run.state

pub run_claims-ClaimLaws : (states : RunState → Bool) → ClaimLaws run_claims (run_in states)
run_claims-ClaimLaws states = record {
  key_set = λ t m row. refl;
  token_set = λ t m row. refl;
  claimed_at_set = λ t m row. refl;
  states_set = λ t m row. refl;
}

suc-injective : {a b : ℕ} → suc a ≡ suc b → a ≡ b
suc-injective h = omega arith

too_few : {a b : ℕ} → a ≤ b → a ≡ suc b → ⊥
too_few h e = omega arith

le_one : (a b : ℕ) → a ≤ b → b ≤ 1 → (a == 1) ≡ true → a ≡ b
le_one a b h k e = ground arith

true_ne_false : {b : Bool} → b ≡ true → b ≡ false → ⊥
true_ne_false h k = cc

module _ {A : Type 0} (c : Claimable A) (in_states : A → Bool) (laws : ClaimLaws c in_states)
    (order : List A → List A) where
  -- The rows with a key: at most one, if the key is primary.
  abbrev pub count_key : Uuid → List A → ℕ
  count_key id rows = length (filter (λ row. c.key row == id) rows)

  rowcount-le :
      (token : String) (id : Uuid) (cutoff : Time) (rows : List A)
      → claim_rowcount c in_states order token id cutoff rows ≤ count_key id rows
  unfolding claim_rowcount claim_matches
  rowcount-le token id cutoff [] = omega arith
  rowcount-le token id cutoff (row ∷ rows) = ground (arith, rowcount-le token id cutoff rows)

  key_of_match :
      (token : String) (id : Uuid) (cutoff : Time) (row : A)
      → claim_matches c in_states order token id cutoff row ≡ true
      → (c.key row == id) ≡ true
  unfolding claim_matches
  key_of_match token id cutoff row h = ground arith

  match_of_key :
      (token : String) (id : Uuid) (cutoff : Time) (row : A)
      → (c.key row == id) ≡ false
      → claim_matches c in_states order token id cutoff row ≡ false
  unfolding claim_matches
  match_of_key token id cutoff row h = ground arith

  excluded_row :
      (first second : String) (id : Uuid) (cutoff now later_cutoff : Time) (row : A)
      → claim_matches c in_states order first id cutoff row ≡ true
      → later_cutoff ≤ now
      → claim_matches c in_states order second id later_cutoff
          (c.set_claim (some first) (some now) row)
        ≡ false
  unfolding claim_matches
  excluded_row first second id cutoff now later_cutoff row matched fresh =
      rw (laws.key_set (some first) (some now) row) (
        rw (laws.states_set (some first) (some now) row) (
          rw (laws.token_set (some first) (some now) row)
            (rw (laws.claimed_at_set (some first) (some now) row) (ground arith))))

  -- Where one worker's update has claimed every row of a key, another worker whose cutoff is not
  -- past the time of that claim updates no row of it.
  pub claim_exclusive :
      (first second : String) (id : Uuid) (cutoff now later_cutoff : Time) (rows : List A)
      → claim_rowcount c in_states order first id cutoff rows ≡ count_key id rows
      → later_cutoff ≤ now
      → claim_rowcount c in_states order second id later_cutoff
          (claim_update c in_states order first id cutoff now rows)
        ≡ 0
  unfolding claim_rowcount claim_update
  claim_exclusive first second id cutoff now later_cutoff [] all fresh = refl
  claim_exclusive first second id cutoff now later_cutoff (row ∷ rows) all fresh =
      elim (Bool-cases (claim_matches c in_states order first id cutoff row)) [
        | inl m ↦
            let k = key_of_match first id cutoff row m in
            rw m (
              rw (excluded_row first second id cutoff now later_cutoff row m fresh) (
                claim_exclusive first second id cutoff now later_cutoff rows
                  (suc-injective (rw (m, k) at all)) fresh))
        | inr n ↦ elim (Bool-cases (c.key row == id)) [
          | inl k ↦ absurd (too_few (rowcount-le first id cutoff rows) (rw (n, k) at all))
          | inr k ↦ rw n (
              rw (match_of_key second id later_cutoff row k) (
                claim_exclusive first second id cutoff now later_cutoff rows (rw (n, k) at all)
                  fresh))
        ]
      ]

  module _ (token : String) (cutoff now : Time) where
    abbrev update : Uuid → List A → List A
    update id rows = claim_update c in_states order token id cutoff now rows

    -- A row that a worker holds: its token, the time of the claim, and a state that was asked for.
    abbrev pub ClaimedBy : A → Type 0
    ClaimedBy row =
        (c.token row ≡ some token) × (c.claimed_at row ≡ some now) × (in_states row ≡ true)

    -- The rows with one of these keys are held.
    abbrev KeysHeld : List Uuid → A → Type 0
    KeysHeld ids row = (any (λ id. c.key row == id) ids ≡ false) ⊎ ClaimedBy row

    claimed_row :
        (id : Uuid) (row : A)
        → claim_matches c in_states order token id cutoff row ≡ true
        → ClaimedBy (c.set_claim (some token) (some now) row)
    unfolding claim_matches
    claimed_row id row m = (
      laws.token_set (some token) (some now) row,
      laws.claimed_at_set (some token) (some now) row,
      laws.states_set (some token) (some now) row ∙ ground arith,
    )

    own_update :
        (id : Uuid) (rows : List A)
        → claim_rowcount c in_states order token id cutoff rows ≡ count_key id rows
        → All (KeysHeld (id ∷ [])) (update id rows)
    unfolding claim_rowcount claim_update
    own_update id [] all = tt
    own_update id (row ∷ rows) all =
        elim (Bool-cases (claim_matches c in_states order token id cutoff row)) [
          | inl m ↦
              let k = key_of_match token id cutoff row m in
              rw m
                (inr (claimed_row id row m), own_update id rows (suc-injective (rw (m, k) at all)))
          | inr n ↦ elim (Bool-cases (c.key row == id)) [
            | inl k ↦ absurd (too_few (rowcount-le token id cutoff rows) (rw (n, k) at all))
            | inr k ↦ rw n (inl (rw k), own_update id rows (rw (n, k) at all))
          ]
        ]

    keep_update :
        (id : Uuid) (ids : List Uuid) (rows : List A)
        → All (KeysHeld ids) rows
        → All (KeysHeld ids) (update id rows)
    unfolding claim_update
    keep_update id ids [] h = tt
    keep_update id ids (row ∷ rows) h =
        elim (Bool-cases (claim_matches c in_states order token id cutoff row)) [
          | inl m ↦ rw m (inr (claimed_row id row m), keep_update id ids rows h.1)
          | inr n ↦ rw n (h.0, keep_update id ids rows h.1)
        ]

    count_update : (id j : Uuid) (rows : List A) → count_key j (update id rows) ≡ count_key j rows
    unfolding claim_update
    count_update id j [] = refl
    count_update id j (row ∷ rows) =
        elim (Bool-cases (claim_matches c in_states order token id cutoff row)) [
          | inl m ↦ rw m (
              rw (laws.key_set (some token) (some now) row)
                (ground (arith, count_update id j rows)))
          | inr n ↦ rw n (ground (arith, count_update id j rows))
        ]

    one_more :
        (ids : List Uuid) (id : Uuid) (row : A)
        → KeysHeld ids row
        → KeysHeld (id ∷ []) row
        → KeysHeld (ids ++ id ∷ []) row
    one_more [] id row h k = k
    one_more (j ∷ ids) id row (inr claimed) k = inr claimed
    one_more (j ∷ ids) id row (inl free) k =
        ground (arith, one_more ids id row (inl (ground arith)) k)

    every_one_more :
        (ids : List Uuid) (id : Uuid) (rows : List A)
        → All (KeysHeld ids) rows
        → All (KeysHeld (id ∷ [])) rows
        → All (KeysHeld (ids ++ id ∷ [])) rows
    every_one_more ids id [] h k = tt
    every_one_more ids id (row ∷ rows) h k =
        (one_more ids id row h.0 k.0, every_one_more ids id rows h.1 k.1)

    exactly :
        (id : Uuid) (rows : List A)
        → ((j : Uuid) → count_key j rows ≤ 1)
        → (claim_rowcount c in_states order token id cutoff rows == 1) ≡ true
        → claim_rowcount c in_states order token id cutoff rows ≡ count_key id rows
    exactly id rows unique one =
        le_one (claim_rowcount c in_states order token id cutoff rows) (count_key id rows)
          (rowcount-le token id cutoff rows) (unique id) one

    round_holds :
        (id : Uuid) (rows : List A) (claimed : List Uuid) (b : Bool)
        → (claim_rowcount c in_states order token id cutoff rows == 1) ≡ b
        → ((j : Uuid) → count_key j rows ≤ 1)
        → All (KeysHeld claimed) rows
        → All (KeysHeld (if b then claimed ++ id ∷ [] else claimed)) (update id rows)
    round_holds id rows claimed true one unique h =
        every_one_more claimed id (update id rows) (keep_update id claimed rows h)
          (own_update id rows (exactly id rows unique one))
    round_holds id rows claimed false other unique h = keep_update id claimed rows h

    loop_holds :
        (ids : List Uuid) (rows : List A) (claimed : List Uuid)
        → ((j : Uuid) → count_key j rows ≤ 1)
        → All (KeysHeld claimed) rows
        → let (rows', claimed') = claim_loop c in_states order token cutoff now ids rows claimed in
          All (KeysHeld claimed') rows'
    unfolding claim_loop
    loop_holds [] rows claimed unique h = h
    loop_holds (id ∷ ids) rows claimed unique h =
        loop_holds ids (update id rows) _ (λ j. omega (arith, count_update id j rows, unique j))
          (round_holds id rows claimed _ refl unique h)

    selection_claimed :
        (ids : List Uuid) (rows : List A)
        → All (KeysHeld ids) rows
        → All ClaimedBy (filter (λ row. any (λ id. c.key row == id) ids) rows)
    selection_claimed ids [] h = tt
    selection_claimed ids (row ∷ rows) h = elim (Bool-cases (any (λ id. c.key row == id) ids)) [
      | inl e ↦ rw e (holder row e h.0, selection_claimed ids rows h.1)
      | inr e ↦ rw e (selection_claimed ids rows h.1)
    ]
      where
        holder :
            (row : A) → any (λ id. c.key row == id) ids ≡ true → KeysHeld ids row → ClaimedBy row
        holder row e (inl free) = absurd (true_ne_false e free)
        holder row e (inr claimed) = claimed

  All-free :
      (token : String) (cutoff now : Time) (rows : List A) → All (KeysHeld token cutoff now []) rows
  All-free token cutoff now [] = tt
  All-free token cutoff now (row ∷ rows) = (inl refl, All-free token cutoff now rows)

  claimed_selection :
      (token : String) (now later : Time) (ids : List Uuid) (rows : List A)
      → ((P : A → Type 0) (xs : List A) → All P xs → All P (order xs))
      → All (KeysHeld token (claim_cutoff_time now) later ids) rows
      → All (ClaimedBy token (claim_cutoff_time now) later) (
          if is_empty ids then [] else order (filter (λ row. any (λ id. c.key row == id) ids) rows))
  claimed_selection token now later [] rows keeps h = tt
  claimed_selection token now later (id ∷ ids) rows keeps h =
      keeps _ _ (selection_claimed token (claim_cutoff_time now) later (id ∷ ids) rows h)

  -- Every row that a claim returns carries the claim's token and time and is in one of the states
  -- that were asked for, if the table's keys are unique and the database's ordering of a selection
  -- returns only rows of it.
  pub claim_rows_claimed :
      (token : String) (limit : Option ℕ) (now later : Time) (rows : List A)
      → ((P : A → Type 0) (xs : List A) → All P xs → All P (order xs))
      → ((j : Uuid) → count_key j rows ≤ 1)
      → All
          (ClaimedBy token (claim_cutoff_time now) later)
          (claim_rows c in_states order token limit now later rows).1
  unfolding claim_rows
  claim_rows_claimed token limit now later rows keeps unique =
      let ids = candidate_ids c in_states order token limit (claim_cutoff_time now) rows in
      claimed_selection token now later _ _ keeps (
        loop_holds token (claim_cutoff_time now) later ids rows [] unique
          (All-free token (claim_cutoff_time now) later rows))
