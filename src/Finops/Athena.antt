-- ===== src/Finops/Athena.antt =====
-- The calls of Athena in src/sparkpilot/services/finops.py: the wait for a query, its pages, and the
-- costs in its rows. The clock, the answers of Athena, and Python's `Decimal` and `lower` are arguments;
-- costs are not negative.
use spark_pilot.Prelude.{
  ℕ, zero, suc, ◌+◌, ◌*◌, String, Bool, true, false, not, ◌&&◌, ◌||◌, ltb, Option, none, some, List,
  [], ◌∷◌, ◌++◌, Dict, lookup, insert, get_or, is_blank, str_eq, if◌then◌else◌,
}
use spark_pilot.Prelude.Strip.{strip}
use spark_pilot.Models.{Time}

pub data QueryState : Type 0 where
  queued running succeeded failed cancelled : QueryState

abbrev pub is_final : QueryState → Bool
is_final QueryState.queued = false
is_final QueryState.running = false
is_final _ = true

-- The loop of `_wait_for_athena_query`: the clock's readings and the answers, by the round. Out of fuel
-- is `none`.
unfoldable pub poll :
    (fuel : ℕ)
    → (clock : ℕ → Time) → (answer : ℕ → QueryState) → (deadline : Time) → (round : ℕ) → QueryState
    → Option QueryState
poll zero clock answer deadline round state = none
poll (suc fuel) clock answer deadline round state =
    let later = poll fuel clock answer deadline (suc round) (answer round) in
    if ltb (clock round) deadline
    then if is_final (answer round) then some (answer round) else later
    else some state

abbrev pub has_succeeded : QueryState → Bool
has_succeeded QueryState.succeeded = true
has_succeeded _ = false

-- `clock 0` is read for the deadline, the loop starts at `clock 1`.
unfoldable pub wait_for_athena_query :
    (timeout_seconds : ℕ) → (clock : ℕ → Time) → (answer : ℕ → QueryState) → Option QueryState
wait_for_athena_query timeout_seconds clock answer =
    poll (suc timeout_seconds) clock answer (clock 0 + timeout_seconds * 1000000) 1
      QueryState.queued

-- A cell is its `VarCharValue`.
abbrev pub Row : Type 0
Row = List (Option String)

pub record Page : Type 0 where
  pub rows : List Row
  pub next_token : Option String

abbrev pub has_next : Option String → Bool
has_next none = false
has_next (some token) = not (is_blank token)

-- `_collect_athena_result_rows` over the pages that Athena answers with, as far as they go.
unfoldable pub collect_athena_result_rows : List Page → List Row
collect_athena_result_rows [] = []
collect_athena_result_rows (p ∷ pages) =
    let rest = collect_athena_result_rows pages in
    if has_next p.next_token then p.rows ++ rest else p.rows

module _ (lower : String → String) (micros : String → Option ℕ) where
  abbrev pub cell : Option String → String
  cell value = strip (get_or value "")

  abbrev pub is_header : (run_id cost : String) → Bool
  is_header run_id cost = str_eq (lower run_id) "run_id" && str_eq (lower cost) "cost_usd"

  -- What a row says, if it is neither short, nor without an id, nor the header, nor without a number.
  abbrev pub row_of : (run_id cost : String) → Option (String × ℕ)
  row_of run_id cost =
      if is_blank run_id || is_header run_id cost
      then none
      else elim (micros cost) [ none ↦ none | some amount ↦ some (run_id, amount) ]

  unfoldable pub read_row : Row → Option (String × ℕ)
  read_row [] = none
  read_row (a ∷ []) = none
  read_row (a ∷ b ∷ more) = row_of (cell a) (cell b)

  abbrev pub add_cost : Dict ℕ → Option (String × ℕ) → Dict ℕ
  add_cost costs none = costs
  add_cost costs (some (run_id, amount)) =
      insert run_id (get_or (lookup run_id costs) 0 + amount) costs

  unfoldable pub add_rows : Dict ℕ → List Row → Dict ℕ
  add_rows costs [] = costs
  add_rows costs (row ∷ rows) = add_rows (add_cost costs (read_row row)) rows

  unfoldable pub parse_athena_cost_rows : List Row → Dict ℕ
  parse_athena_cost_rows rows = add_rows [] rows
