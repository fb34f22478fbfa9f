-- ===== src/Models/Costs.antt =====
-- `models.UsageRecord`, `CostAllocation`, `TeamBudget`.
use spark_pilot.Prelude.{ℕ, String, Option}
use spark_pilot.Models.States.{Uuid, Time}

pub record UsageRecord : Type 0 where
  pub tenant_id : Uuid
  pub run_id : Uuid
  pub vcpu_seconds : ℕ
  pub memory_gb_seconds : ℕ
  pub estimated_cost_usd_micros : ℕ

pub record CostAllocation : Type 0 where
  pub run_id : Uuid
  pub environment_id : Uuid
  pub tenant_id : Uuid
  pub team : Uuid
  pub cost_center : String
  pub billing_period : String
  pub estimated_vcpu_seconds : ℕ
  pub estimated_memory_gb_seconds : ℕ
  pub estimated_cost_usd_micros : ℕ
  pub actual_cost_usd_micros : Option ℕ
  pub cur_reconciled_at : Option Time

pub record TeamBudget : Type 0 where
  pub team : Uuid
  pub monthly_budget_usd_micros : ℕ
  pub warn_threshold_pct : ℕ
  pub block_threshold_pct : ℕ
