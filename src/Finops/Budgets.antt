-- ===== src/Finops/Budgets.antt =====
-- Team budgets, spend and showback of src/sparkpilot/services/finops.py, and
-- `_add_team_budget_preflight_checks` of src/sparkpilot/services/preflight.py. The order of a selection
-- by its time of creation is an argument, and so is the text of a number. A threshold is an integer
-- division, which is what the float one gives for budgets below $45,000,000.
use spark_pilot.Prelude.{
  ℕ, ◌+◌, ◌*◌, ◌/◌, String, Bool, ◌&&◌, ◌==◌, ltb, leb, Option, none, some, List, [], ◌∷◌, ◌++◌,
  map, filter, find, take, drop, get_or, is_some, str_eq, if◌then◌else◌,
}
use spark_pilot.Models.{Uuid, Time, CostAllocation, TeamBudget}
use spark_pilot.Errors.{Result, ok, validation, text, raise_if, ◌>>◌}
use spark_pilot.Database.{require_entity}
use spark_pilot.Preflight.Checks.{Check, Status}

abbrev pub is_of_team : Uuid → TeamBudget → Bool
is_of_team team b = b.team == team

-- `scalar_one_or_none` on the unique column `team`
abbrev pub find_budget : Uuid → List TeamBudget → Option TeamBudget
find_budget team budgets = find (is_of_team team) budgets

abbrev pub set_budget : TeamBudget → TeamBudget → TeamBudget
set_budget req b = if b.team == req.team then req else b

unfoldable pub create_or_update_team_budget :
    (req : TeamBudget) → List TeamBudget → Result (TeamBudget × List TeamBudget)
create_or_update_team_budget req budgets = do
  raise_if (ltb req.block_threshold_pct req.warn_threshold_pct)
      (validation (text "warn_threshold_pct must be less than or equal to block_threshold_pct."))
  ok (
    req,
    if is_some (find_budget req.team budgets)
        then map (set_budget req) budgets
        else budgets ++ req ∷ [],
  )

unfoldable pub get_team_budget : Uuid → List TeamBudget → Result TeamBudget
get_team_budget team budgets = require_entity (find_budget team budgets) "Team budget not found."

abbrev pub sum_of : (CostAllocation → ℕ) → List CostAllocation → ℕ
sum_of amount [] = 0
sum_of amount (a ∷ rows) = amount a + sum_of amount rows

abbrev pub estimated : CostAllocation → ℕ
estimated a = a.estimated_cost_usd_micros

abbrev pub actual : CostAllocation → ℕ
actual a = get_or a.actual_cost_usd_micros 0

abbrev pub effective : CostAllocation → ℕ
effective a = get_or a.actual_cost_usd_micros a.estimated_cost_usd_micros

module _ (team : Uuid) (period : String) where
  abbrev pub is_selected : CostAllocation → Bool
  is_selected a = a.team == team && str_eq a.billing_period period

  -- Estimated, actual and effective.
  unfoldable pub team_spend_for_period : List CostAllocation → ℕ × ℕ × ℕ
  team_spend_for_period rows =
      let selected = filter is_selected rows in
      (sum_of estimated selected, sum_of actual selected, sum_of effective selected)

pub record ShowbackItem : Type 0 where
  pub run_id : Uuid
  pub environment_id : Uuid
  pub team : Uuid
  pub cost_center : String
  pub estimated_cost_usd_micros : ℕ
  pub actual_cost_usd_micros : Option ℕ
  pub effective_cost_usd_micros : ℕ
  pub billing_period : String
  pub cur_reconciled_at : Option Time

pub record CostShowback : Type 0 where
  pub team : Uuid
  pub period : String
  pub total_estimated_cost_usd_micros : ℕ
  pub total_actual_cost_usd_micros : ℕ
  pub total_effective_cost_usd_micros : ℕ
  pub items : List ShowbackItem

abbrev pub showback_item : CostAllocation → ShowbackItem
showback_item a = record {
  run_id = a.run_id;
  environment_id = a.environment_id;
  team = a.team;
  cost_center = a.cost_center;
  estimated_cost_usd_micros = a.estimated_cost_usd_micros;
  actual_cost_usd_micros = a.actual_cost_usd_micros;
  effective_cost_usd_micros = get_or a.actual_cost_usd_micros a.estimated_cost_usd_micros;
  billing_period = a.billing_period;
  cur_reconciled_at = a.cur_reconciled_at;
}

unfoldable pub get_cost_showback :
    (ordered : List CostAllocation → List CostAllocation)
    → (team : Uuid) → (period : String) → (limit offset : ℕ) → List CostAllocation
    → CostShowback
get_cost_showback ordered team period limit offset rows =
    let selected = filter (is_selected team period) rows in
    record {
      team = team;
      period = period;
      total_estimated_cost_usd_micros = sum_of estimated selected;
      total_actual_cost_usd_micros = sum_of actual selected;
      total_effective_cost_usd_micros = sum_of effective selected;
      items = map showback_item (take limit (drop offset (ordered selected)));
    }

module _ (show : ℕ → String) (team : Uuid) (period : String) where
  abbrev pub threshold : TeamBudget → (percent : ℕ) → ℕ
  threshold b percent = b.monthly_budget_usd_micros * percent / 100

  abbrev pub budget_result : Status → String → Option String → List (String × String) → Check
  budget_result status message remediation details = record {
    code = "team_budget";
    status = status;
    message = message;
    remediation = remediation;
    details = ("team", show team) ∷ ("period", period) ∷ details;
  }

  abbrev pub evaluate_team_budget : Option TeamBudget → (effective_spend : ℕ) → Check
  evaluate_team_budget none spend =
      budget_result Status.pass "No team budget is configured for this team." none []
  evaluate_team_budget (some b) spend =
      if leb (threshold b b.block_threshold_pct) spend
      then budget_result Status.fail
          "Team budget block threshold exceeded for the current billing period."
          (some
            "Increase team budget or reduce run volume/resource usage before submitting new runs.")
          (("effective_spend_usd_micros", show spend)
            ∷ ("block_threshold_usd_micros", show (threshold b b.block_threshold_pct))
            ∷ [])
      else if leb (threshold b b.warn_threshold_pct) spend
      then budget_result Status.warning
          "Team budget warning threshold reached for the current billing period."
          (some "Review spend and planned workloads before submitting large runs.")
          (("effective_spend_usd_micros", show spend)
            ∷ ("warn_threshold_usd_micros", show (threshold b b.warn_threshold_pct))
            ∷ [])
      else budget_result Status.pass "Team budget check passed for the current billing period." none
          (("effective_spend_usd_micros", show spend)
            ∷ ("budget_usd_micros", show b.monthly_budget_usd_micros)
            ∷ [])

  -- `team` is the environment's tenant, `period` the current month.
  unfoldable pub team_budget_check : List TeamBudget → List CostAllocation → Check
  team_budget_check budgets rows =
      evaluate_team_budget (find_budget team budgets) (team_spend_for_period team period rows).2
