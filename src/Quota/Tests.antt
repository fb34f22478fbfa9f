-- ===== src/Quota/Tests.antt =====
-- The theorems on quotas at concrete runs.
use spark_pilot.Prelude.{◌+◌, ◌≡◌, ◌↔◌, ◌<◌, ◌≤◌, [], ◌∷◌}
use spark_pilot.Errors.{ok}
use spark_pilot.Models.{Run}
use spark_pilot.Quota.{enforce_quota_for_run, run_vcpu, sum_vcpu}
use spark_pilot.Quota.Exact.{enforce_quota_exact}
use spark_pilot.Samples.{env, five_cores, queued_run}

enforce_quota_exact_example :
    (enforce_quota_for_run (queued_run ∷ []) env five_cores ≡ ok tt) ↔ ((1 < 2) × (5 + 5 ≤ 16))
unfolding run_vcpu sum_vcpu
enforce_quota_exact_example = enforce_quota_exact (queued_run ∷ []) env five_cores

abbrev second_run : Run
second_run = record queued_run { id = 8; idempotency_key = "second" }
