-- ===== src/Finops/Tests.antt =====
-- A run's usage, recorded twice; costs read from the report; a budget and a showback.
use spark_pilot.Prelude.Strip.{strip_right, strip_left, strip, is_space}
use spark_pilot.Prelude.{
  ◌≡◌, refl, ℕ, ◌*◌, String, true, Option, none, some, List, [], ◌∷◌, find, ◌↔◌, str_append,
}
use spark_pilot.Models.{Run, RunState, CostAllocation, TeamBudget, Uuid}
use spark_pilot.Preflight.Checks.{ready, add_checks}
use spark_pilot.Workers.Faults.{raised, returned}
use spark_pilot.Finops.Usage.{
  Ledger, usage_record, resource_seconds, total_vcpu, allocation, allocation_of,
  record_usage_if_needed,
}
use spark_pilot.Finops.Once.{usage_recorded_once}
use spark_pilot.Finops.Query.{
  double_quotes, validate_uuid_run_ids, validate_athena_identifier, matches_identifier,
  is_word_tail, Checked, valid, invalid, QuerySettings, Query, quote_athena_literal, join_comma,
  sql_text, build_cur_reconciliation_query,
}
use spark_pilot.Finops.Quoting.{read_items, read-join}
use spark_pilot.Finops.Athena.{
  read_row, collect_athena_result_rows, add_rows, poll, QueryState, Row, wait_for_athena_query,
  parse_athena_cost_rows,
}
use spark_pilot.Finops.Reconciliation.{
  apply_cur_cost_updates, CostState, Athena, CurSettings, process_cur_reconciliation_once,
  load_pending_cost_allocations,
}
use spark_pilot.Finops.Final.{reconciled_is_final}
use spark_pilot.Finops.Budgets.{team_spend_for_period, team_budget_check}
use spark_pilot.Finops.Spend.{HasRoom, budget_blocks_exactly}
use spark_pilot.Runs.Configuration.{insert_sorted, sorted_set}
use spark_pilot.Samples.{env, accepted_run, price, no_ledger, throttled}

abbrev ended_run : Run
ended_run = record accepted_run { state = RunState.succeeded; ended_at = some 90000000 }

abbrev recorded_ledger : Ledger
recorded_ledger = record {
  usage = usage_record ended_run env (resource_seconds total_vcpu ended_run) ∷ [];
  allocations =
      allocation price (λ _. returned "cc-1") (λ _. "2025-01") 100000000 ended_run env
        (usage_record ended_run env (resource_seconds total_vcpu ended_run)) "cc-1"
      ∷ [];
}

records :
    record_usage_if_needed price
      (λ _. returned "cc-1")
      (λ _. "2025-01")
      100000000
      ended_run
      env
      no_ledger
    ≡ returned recorded_ledger
unfolding record_usage_if_needed
records = refl

usage_recorded_once_example :
    record_usage_if_needed
      (λ _ _ _. raised throttled)
      (λ _. returned "cc-2")
      (λ _. "2025-01")
      200000000
      accepted_run
      env
      recorded_ledger
    ≡ returned recorded_ledger
usage_recorded_once_example =
    usage_recorded_once price (λ _. returned "cc-1") (λ _. "2025-01") (λ _ _ _. raised throttled)
      (λ _. returned "cc-2") 100000000 200000000 ended_run accepted_run env no_ledger
      recorded_ledger refl records

-- An id that closes its literal, if it were not quoted.
abbrev hostile : String
hostile = "x') OR ('1'='1"

read-join_example :
    read_items 2 (
      str_append
        (join_comma (quote_athena_literal hostile ∷ quote_athena_literal "r7" ∷ []))
        ") GROUP BY 1")
    ≡ some (hostile ∷ "r7" ∷ [], ") GROUP BY 1")
read-join_example = read-join hostile ("r7" ∷ []) " GROUP BY 1"

abbrev query_settings : QuerySettings
query_settings = record {
  cur_run_id_column = "run_id";
  cur_cost_column = " cost ";
  cur_athena_database = "billing";
  cur_athena_table = "cur";
  cur_athena_output_location = "s3://out/";
}

abbrev query : Query
query = record {
  sql = sql_text "run_id" "cost" "billing" "cur" ("r7" ∷ []);
  database = "billing";
  table = "cur";
}

abbrev seconds : ℕ → ℕ
seconds round = round * 1000000

abbrev same_text : String → String
same_text s = s

abbrev five : String → Option ℕ
five s = some 5

abbrev rows : List Row
rows = (some "r7" ∷ some "5" ∷ []) ∷ (some "r8" ∷ some "5" ∷ []) ∷ (some "r7" ∷ some "5" ∷ []) ∷ []

abbrev cost_of : (run_id estimate : ℕ) → Option ℕ → CostAllocation
cost_of run_id estimate actual = record {
  run_id = run_id;
  environment_id = 1;
  tenant_id = 10;
  team = 10;
  cost_center = "cc-1";
  billing_period = "2025-01";
  estimated_vcpu_seconds = 60;
  estimated_memory_gb_seconds = 60;
  estimated_cost_usd_micros = estimate;
  actual_cost_usd_micros = actual;
  cur_reconciled_at = none;
}

abbrev same_order : List CostAllocation → List CostAllocation
same_order selection = selection

abbrev text_of : Uuid → String
text_of id = "r7"

abbrev athena : Athena
athena = record {
  start_query_execution = λ _. valid "q-1";
  clock = seconds;
  query_states = λ _. QueryState.succeeded;
  pages = (record { rows = rows; next_token = none }) ∷ [];
}

abbrev cur_settings : CurSettings
cur_settings = record { query = query_settings; cur_query_timeout_seconds = 9 }

abbrev settled : CostAllocation
settled = cost_of 8 30 (some 40)

abbrev costs : CostState
costs = record { allocations = cost_of 7 20 none ∷ settled ∷ []; audit = [] }

abbrev state_of : CostState → Checked (ℕ × CostState) → CostState
state_of s (invalid e) = s
state_of s (valid (n, s')) = s'

abbrev reconciled_costs : CostState
reconciled_costs = state_of costs (
    process_cur_reconciliation_once same_text five (λ _. true) text_of same_order 10 athena 99
      "worker" cur_settings costs)

reconciles :
    process_cur_reconciliation_once same_text five
      (λ _. true)
      text_of
      same_order
      10
      athena
      99
      "worker"
      cur_settings
      costs
    ≡ valid (1, reconciled_costs)
unfolding process_cur_reconciliation_once strip strip_left strip_right is_space
    load_pending_cost_allocations build_cur_reconciliation_query validate_athena_identifier
    matches_identifier is_word_tail validate_uuid_run_ids sorted_set join_comma quote_athena_literal
    double_quotes wait_for_athena_query poll parse_athena_cost_rows add_rows
    collect_athena_result_rows read_row apply_cur_cost_updates insert_sorted
reconciles = refl

reconciled_is_final_example : find (allocation_of 8) reconciled_costs.allocations ≡ some settled
reconciled_is_final_example =
    reconciled_is_final same_text five (λ _. true) text_of same_order 10 athena 99 "worker"
      cur_settings costs reconciled_costs 1 8 settled (λ p selection h. h) (refl, (refl, tt)) refl
      refl reconciles

abbrev budget : TeamBudget
budget = record {
  team = 10;
  monthly_budget_usd_micros = 100;
  warn_threshold_pct = 50;
  block_threshold_pct = 60;
}

budget_blocks_exactly_example :
    (ready (
        add_checks []
          (team_budget_check (λ _. "n") 10 "2025-01" (budget ∷ []) costs.allocations ∷ []))
      ≡ true)
    ↔ (HasRoom budget (team_spend_for_period 10 "2025-01" costs.allocations).2
        × (ready (add_checks [] []) ≡ true))
budget_blocks_exactly_example =
    budget_blocks_exactly (λ _. "n") 10 "2025-01" (budget ∷ []) costs.allocations [] budget refl
