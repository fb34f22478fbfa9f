-- ===== src/Finops/Costs.antt =====
-- Waiting ends, and the parsed costs are the sums of the rows.
use spark_pilot.Prelude.{
  ℕ, zero, suc, ◌+◌, ◌*◌, ◌≤◌, ◌≡◌, ◌≢◌, ap, ◌∙◌, inl, inr, String, Option, none, some, List, [],
  ◌∷◌, Dict, lookup, lookup-insert, get_or, str_eq, eq_iff, Bool-cases, if◌then◌else◌, arith,
}
use spark_pilot.Models.{Time}
use spark_pilot.Finops.Athena.{
  QueryState, poll, wait_for_athena_query, Row, read_row, add_cost, add_rows,
  parse_athena_cost_rows,
}

module _ (clock : ℕ → Time) (answer : ℕ → QueryState) (deadline : Time) where
  poll-ends :
      (n round : ℕ) (state : QueryState)
      → ((k : ℕ) → clock (suc k) + 1000000 ≤ clock (suc (suc k)))
      → deadline ≤ clock (suc round) + n * 1000000
      → poll (suc n) clock answer deadline (suc round) state ≢ none
  unfolding poll
  poll-ends zero round state sleeps h = ground arith
  poll-ends (suc n) round state sleeps h =
      ground (arith, sleeps round, poll-ends n (suc round) (answer (suc round)) sleeps)

-- Waiting for the query ends within one round for each second of the timeout and one more, where each
-- round sleeps for at least a second and the clock does not run backwards.
pub wait_ends :
    (timeout_seconds : ℕ) (clock : ℕ → Time) (answer : ℕ → QueryState)
    → ((k : ℕ) → clock (suc k) + 1000000 ≤ clock (suc (suc k)))
    → clock 0 ≤ clock 1
    → wait_for_athena_query timeout_seconds clock answer ≢ none
unfolding wait_for_athena_query
wait_ends timeout_seconds clock answer sleeps starts =
    poll-ends clock answer (clock 0 + timeout_seconds * 1000000) timeout_seconds 0 QueryState.queued
      sleeps (omega arith)

module _ (lower : String → String) (micros : String → Option ℕ) where
  -- What a row adds to a run's cost.
  abbrev amount_for : String → Option (String × ℕ) → ℕ
  amount_for run_id none = 0
  amount_for run_id (some (id, amount)) = if str_eq id run_id then amount else 0

  -- The sum over the rows of a run.
  abbrev pub total_for : String → List Row → ℕ
  total_for run_id [] = 0
  total_for run_id (row ∷ rows) =
      amount_for run_id (read_row lower micros row) + total_for run_id rows

  cost_added :
      (run_id : String) (costs : Dict ℕ) (row : Option (String × ℕ))
      → get_or (lookup run_id (add_cost lower micros costs row)) 0
        ≡ get_or (lookup run_id costs) 0 + amount_for run_id row
  cost_added run_id costs none = omega arith
  cost_added run_id costs (some (id, amount)) =
      rw (lookup-insert id run_id (get_or (lookup id costs) 0 + amount) costs)
        (elim (Bool-cases (str_eq id run_id)) [
          | inl e ↦
              rw e
                (ap (λ (k : String). get_or (lookup k costs) 0 + amount) ((eq_iff id run_id).0 e))
          | inr e ↦ rw e (omega arith)
        ])

  rows_added :
      (run_id : String) (costs : Dict ℕ) (rows : List Row)
      → get_or (lookup run_id (add_rows lower micros costs rows)) 0
        ≡ get_or (lookup run_id costs) 0 + total_for run_id rows
  unfolding add_rows
  rows_added run_id costs [] = omega arith
  rows_added run_id costs (row ∷ rows) = omega (
    arith,
    rows_added run_id (add_cost lower micros costs (read_row lower micros row)) rows,
    cost_added run_id costs (read_row lower micros row),
  )

  -- The parsed cost of a run is the sum of the amounts in the rows of its id, wherever they stand; a row
  -- that is short, has no id or no number, or is the header, adds nothing.
  pub parsed_costs_exact :
      (run_id : String) (rows : List Row)
      → get_or (lookup run_id (parse_athena_cost_rows lower micros rows)) 0 ≡ total_for run_id rows
  unfolding parse_athena_cost_rows
  parsed_costs_exact run_id rows = rows_added run_id [] rows ∙ omega arith
