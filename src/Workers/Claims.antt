-- ===== src/Workers/Claims.antt =====
-- Claims of runs and operations (src/sparkpilot/services/workers_common.py). Both tables are claimed
-- by the same code, so it is written once, over a table's key, state and claim columns.
use spark_pilot.Prelude.{
  ℕ, ◌-◌, ◌*◌, String, Bool, true, ◌&&◌, ◌||◌, ◌==◌, ltb, Option, none, some, List, [], ◌∷◌, ◌++◌,
  filter, map, take, length, any, is_empty, is_none, if◌then◌else◌,
}
use spark_pilot.Models.{Uuid, Time, Run, ProvisioningOperation}

-- `WORKER_CLAIM_TTL_SECONDS`, in microseconds
abbrev pub worker_claim_ttl : ℕ
worker_claim_ttl = 1800 * 1000000

abbrev pub claim_cutoff_time : Time → Time
claim_cutoff_time now = now - worker_claim_ttl

-- A table's columns that a claim reads and writes.
pub record Claimable (A : Type 0) : Type 0 where
  pub key : A → Uuid
  pub token : A → Option String
  pub claimed_at : A → Option Time
  pub set_claim : Option String → Option Time → A → A

abbrev pub run_claims : Claimable Run
run_claims = record {
  key = λ run. run.id;
  token = λ run. run.worker_claim_token;
  claimed_at = λ run. run.worker_claimed_at;
  set_claim = λ token time run. record run { worker_claim_token = token; worker_claimed_at = time };
}

abbrev pub operation_claims : Claimable ProvisioningOperation
operation_claims = record {
  key = λ op. op.id;
  token = λ op. op.worker_claim_token;
  claimed_at = λ op. op.worker_claimed_at;
  set_claim = λ token time op. record op { worker_claim_token = token; worker_claimed_at = time };
}

-- `claimed_at IS NULL OR claimed_at < cutoff`
abbrev pub is_stale : Option Time → Time → Bool
is_stale none cutoff = true
is_stale (some at) cutoff = ltb at cutoff

module _ {A : Type 0} (c : Claimable A) where
  -- `_run_claim_available`, `_provisioning_claim_available`
  unfoldable pub claim_available : Time → A → Bool
  claim_available cutoff row = is_none (c.token row) || is_stale (c.claimed_at row) cutoff

  module _ (in_states : A → Bool) (order : List A → List A) (claim_token : String) where
    -- The `WHERE` clause of the update of one row.
    unfoldable pub claim_matches : Uuid → Time → A → Bool
    unfolding claim_available
    claim_matches id cutoff row = c.key row == id && in_states row && claim_available cutoff row

    -- The update's effect on the table, and its row count.
    unfoldable pub claim_update : Uuid → Time → Time → List A → List A
    claim_update id cutoff now rows =
        map
          (λ row.
            if claim_matches id cutoff row
            then c.set_claim (some claim_token) (some now) row
            else row)
          rows

    unfoldable pub claim_rowcount : Uuid → Time → List A → ℕ
    claim_rowcount id cutoff rows = length (filter (claim_matches id cutoff) rows)

    -- The loop over the candidates: the table and the keys claimed so far.
    unfoldable pub claim_loop : Time → Time → List Uuid → List A → List Uuid → List A × List Uuid
    claim_loop cutoff now [] rows claimed_ids = (rows, claimed_ids)
    claim_loop cutoff now (id ∷ ids) rows claimed_ids =
        claim_loop cutoff now ids (claim_update id cutoff now rows)
          (if claim_rowcount id cutoff rows == 1 then claimed_ids ++ id ∷ [] else claimed_ids)

    unfoldable pub candidate_ids : (limit : Option ℕ) → Time → List A → List Uuid
    candidate_ids limit cutoff rows =
        let found = order (filter (λ row. in_states row && claim_available cutoff row) rows) in
        map c.key (elim limit [ none ↦ found | some n ↦ take n found ])

    -- `_claim_runs`, and `_claim_provisioning_operations`, which has no limit: the new table, and
    -- the claimed rows as they are selected after the updates.
    unfoldable pub claim_rows : (limit : Option ℕ) → (now later : Time) → List A → List A × List A
    claim_rows limit now later rows =
        let cutoff = claim_cutoff_time now in
        let (rows', claimed_ids) =
          claim_loop cutoff later (candidate_ids limit cutoff rows) rows [] in
        (
          rows',
          (if is_empty claimed_ids
              then []
              else order (filter (λ row. any (λ id. c.key row == id) claimed_ids) rows')),
        )

  -- `_release_run_claim`, `_release_operation_claim`
  unfoldable pub release_claim : A → A
  release_claim row = c.set_claim none none row
