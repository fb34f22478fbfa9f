-- ===== src/Quota.antt =====
-- src/sparkpilot/quota.py: the concurrency and vCPU quotas of an environment.
pub mod Exact
mod Tests
use spark_pilot.Prelude.{
  ℕ, ◌+◌, ◌*◌, Bool, ◌&&◌, ◌==◌, List, [], ◌∷◌, filter, length, get_or, leb, ltb,
}
use spark_pilot.Models.{Run, Environment, Resources, is_active}
use spark_pilot.Errors.{Result, quota_exceeded, concurrent_runs, vcpu, raise_if, ◌>>=◌, ◌>>◌}

unfoldable pub run_vcpu : Resources → ℕ
run_vcpu resources =
    get_or resources.driver_vcpu 0
    + get_or resources.executor_vcpu 0 * get_or resources.executor_instances 0

-- `Run.environment_id == env.id, Run.state.in_(ACTIVE_RUN_STATES)`
abbrev pub counts : Environment → Run → Bool
counts env run = run.environment_id == env.id && is_active run.state

abbrev pub active_runs : Environment → List Run → List Run
active_runs env runs = filter (counts env) runs

-- `sum(_run_vcpu(item or {}) for item in active_runs)`
unfoldable pub sum_vcpu : List Run → ℕ
sum_vcpu [] = 0
sum_vcpu (run ∷ runs) = run_vcpu run.requested_resources_json + sum_vcpu runs

unfoldable pub enforce_quota_for_run : List Run → Environment → Resources → Result (Unit {0})
enforce_quota_for_run runs env requested = do
  raise_if (leb env.max_concurrent_runs (length (active_runs env runs)))
      (quota_exceeded (concurrent_runs env.max_concurrent_runs))
  raise_if (ltb env.max_vcpu (sum_vcpu (active_runs env runs) + run_vcpu requested))
      (quota_exceeded (vcpu env.max_vcpu))
