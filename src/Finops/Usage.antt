-- ===== src/Finops/Usage.antt =====
-- `_record_usage_if_needed` of src/sparkpilot/services/finops.py. The price is computed in floating
-- point from the settings or from an API that may raise, the cost centre from a configured policy that
-- may not be valid, and a billing period from the calendar: these are parameters.
use spark_pilot.Prelude.{
  ℕ, ◌+◌, ◌-◌, ◌*◌, ◌/◌, String, Bool, ◌==◌, is_some, Option, none, some, List, [], ◌∷◌, ◌++◌, find,
  get_or, if◌then◌else◌,
}
use spark_pilot.Models.{
  Uuid, Time, Run, Environment, Architecture, Resources, RequestedResources, UsageRecord,
  CostAllocation,
}
use spark_pilot.Workers.Faults.{Attempt, returned, ◌>>=◌}

-- The two tables that a run's costs go to.
pub record Ledger : Type 0 where
  pub usage : List UsageRecord
  pub allocations : List CostAllocation

-- `RequestedResources(**(run.requested_resources_json or {}))`: the schema's defaults.
abbrev pub fill_defaults : Resources → RequestedResources
fill_defaults r = record {
  driver_vcpu = get_or r.driver_vcpu 1;
  driver_memory_gb = get_or r.driver_memory_gb 4;
  executor_vcpu = get_or r.executor_vcpu 2;
  executor_memory_gb = get_or r.executor_memory_gb 8;
  executor_instances = get_or r.executor_instances 2;
}

abbrev pub total_vcpu : RequestedResources → ℕ
total_vcpu r = r.driver_vcpu + r.executor_vcpu * r.executor_instances

abbrev pub total_memory : RequestedResources → ℕ
total_memory r = r.driver_memory_gb + r.executor_memory_gb * r.executor_instances

abbrev between : Option Time → Option Time → ℕ
between none ended = 0
between (some started) none = 0
between (some started) (some ended) = (ended - started) / 1000000

-- Whole seconds, and none where a time is missing or the end lies before the start.
unfoldable pub duration_seconds : Run → ℕ
duration_seconds run = between run.started_at run.ended_at

abbrev pub usage_of : Uuid → UsageRecord → Bool
usage_of id u = u.run_id == id

abbrev pub allocation_of : Uuid → CostAllocation → Bool
allocation_of id a = a.run_id == id

-- The seconds of a resource: the run's duration times its total.
abbrev pub resource_seconds : (RequestedResources → ℕ) → Run → ℕ
resource_seconds total run =
    duration_seconds run * total (fill_defaults run.requested_resources_json)

-- What a run has used, with its estimated cost.
abbrev pub usage_record : Run → Environment → (cost : ℕ) → UsageRecord
usage_record run env cost = record {
  tenant_id = env.tenant_id;
  run_id = run.id;
  vcpu_seconds = resource_seconds total_vcpu run;
  memory_gb_seconds = resource_seconds total_memory run;
  estimated_cost_usd_micros = cost;
}

module _ (price : Architecture → (vcpu_seconds memory_gb_seconds : ℕ) → Attempt ℕ)
    (cost_center : Environment → Attempt String) (billing_period : Time → String) where
  abbrev pub allocation :
      Time → Run → Environment → UsageRecord → (cost_center : String) → CostAllocation
  allocation now run env u center = record {
    run_id = run.id;
    environment_id = env.id;
    tenant_id = env.tenant_id;
    team = env.tenant_id;
    cost_center = center;
    billing_period = billing_period (get_or run.ended_at now);
    estimated_vcpu_seconds = u.vcpu_seconds;
    estimated_memory_gb_seconds = u.memory_gb_seconds;
    estimated_cost_usd_micros = u.estimated_cost_usd_micros;
    actual_cost_usd_micros = none;
    cur_reconciled_at = none;
  }

  abbrev pub allocate :
      Time → Run → Environment → UsageRecord → List CostAllocation → Attempt (List CostAllocation)
  allocate now run env u allocations =
      if is_some (find (allocation_of run.id) allocations)
      then returned allocations
      else (cost_center env >>= λ center.
          returned (allocations ++ allocation now run env u center ∷ []))

  -- A raise leaves what the session held to the caller, which rolls it back.
  unfoldable pub record_usage_if_needed : Time → Run → Environment → Ledger → Attempt Ledger
  record_usage_if_needed now run env ledger =
      if is_some (find (usage_of run.id) ledger.usage) then returned ledger else do
        cost ←
            price env.instance_architecture (resource_seconds total_vcpu run)
              (resource_seconds total_memory run)
        let u = usage_record run env cost
        allocations ← allocate now run env u ledger.allocations
        returned (record { usage = ledger.usage ++ u ∷ []; allocations = allocations })
