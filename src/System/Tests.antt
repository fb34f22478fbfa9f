-- ===== src/System/Tests.antt =====
-- The life cycle at concrete sequences of steps.
use spark_pilot.Prelude.{◌≡◌, refl, true, false, some, none, List, [], ◌∷◌, subst, arith}
use spark_pilot.Prelude.Table.{get_row}
use spark_pilot.Models.{Job, ProvisioningOperation, Uuid, Run, RunState, Environment}
use spark_pilot.Database.{require_environment, Db, run_key, environment_key}
use spark_pilot.Quota.{sum_vcpu, run_vcpu}
use spark_pilot.Quota.Exact.{WithinQuota}
use spark_pilot.Workers.Claims.{run_claims, claim_update, claim_matches, claim_available}
use spark_pilot.Workers.Scheduler.{schedule_run}
use spark_pilot.Runs.Create.{create_run}
use spark_pilot.Errors.{Result, ok, err, conflict}
use spark_pilot.Workers.Exclusive.{run_in}
use spark_pilot.Environments.Create.{
  check_mode, new_environment, first_operation, create_environment, create_job,
}
use spark_pilot.System.Waiting.{new_environment_takes_no_run}
use spark_pilot.System.{claims, Worker, write_run, Step, Reach}
use spark_pilot.System.Ended.{ended_run_is_final}
use spark_pilot.System.Sound.{Sound, quotas_always_hold}
use spark_pilot.Samples.{
  settings, full_request, tenants, request, env, job, db, queued_run, run_in_state, working_clients,
  preflight_of,
}

abbrev failed_run : Run
failed_run = record (run_in_state RunState.failed) { id = 9; ended_at = some 10 }

abbrev start : Db
start = record db { runs = queued_run ∷ failed_run ∷ [] }

abbrev as_found : List Run → List Run
as_found runs = runs

-- The scheduler claims the queued run and then dispatches it.
abbrev after_claim : Db
after_claim = record start {
  runs =
      record queued_run { worker_claim_token = some "worker:1"; worker_claimed_at = some 1000 }
      ∷ failed_run
      ∷ [];
}

abbrev claimed_run : Run
claimed_run = record queued_run {
  worker_claim_token = some "worker:1";
  worker_claimed_at = some 1000;
}

claim_step : Step start after_claim
unfolding claim_update claim_matches claim_available
claim_step = Step.claimed Worker.scheduler as_found "worker:1" 7 0 1000

abbrev after_dispatch : Db
after_dispatch =
    write_run 7
      (schedule_run working_clients (preflight_of true) "worker" 2000 env job
        (claimed_run, after_claim.audit))
      after_claim

dispatch_step : Step after_claim after_dispatch
unfolding get_row
dispatch_step =
    Step.scheduled working_clients (preflight_of true) "worker" 2000 env job 7 claimed_run refl refl

dispatched : Reach start after_dispatch
dispatched = Reach.later (Reach.later Reach.here claim_step) dispatch_step

stored_env :
    (id : Uuid) (e : Environment) → get_row environment_key id start.environments ≡ some e → env ≡ e
unfolding get_row
stored_env id e stored = ground arith

env-WithinQuota : WithinQuota env start.runs
unfolding sum_vcpu run_vcpu
env-WithinQuota = record { runs_fit = omega arith; vcpu_fit = omega arith }

start-within :
    (id : Uuid) (e : Environment)
    → get_row environment_key id start.environments ≡ some e
    → WithinQuota e start.runs
start-within id e stored =
    subst (λ (o : Environment). WithinQuota o start.runs) (stored_env id e stored) env-WithinQuota

start-Sound : Sound start
unfolding get_row
start-Sound = record { unique = (refl, (refl, tt)); within = start-within }

ended_run_is_final_example : get_row run_key 9 after_dispatch.runs ≡ some failed_run
unfolding get_row
ended_run_is_final_example =
    ended_run_is_final start after_dispatch 9 failed_run dispatched refl refl

quotas_always_hold_example : Sound after_dispatch
quotas_always_hold_example = quotas_always_hold start after_dispatch start-Sound dispatched

abbrev created : Result ((Environment × ProvisioningOperation) × Db)
created = create_environment settings 2 41 300 "ada" none "new" full_request tenants start

abbrev made : Result ((Environment × ProvisioningOperation) × Db) → Db
made (ok (x, db')) = db'
made (err e) = start

created-ok :
    created ≡ ok ((new_environment 2 full_request, first_operation 41 300 2 "new"), made created)
unfolding create_environment get_row check_mode
created-ok = refl

abbrev second_job : Job
second_job = record job { id = 6; environment_id = 2 }

abbrev with_job : Result (Job × Db) → Db
with_job (ok (j, db')) = db'
with_job (err e) = start

job-ok :
    create_job "ada" none second_job (made created)
    ≡ ok (second_job, with_job (create_job "ada" none second_job (made created)))
unfolding create_job require_environment get_row create_environment check_mode
job-ok = refl

abbrev waiting : Db
waiting = with_job (create_job "ada" none second_job (made created))

abbrev claimed_while_waiting : Db
claimed_while_waiting = record waiting {
  runs =
      claim_update run_claims (run_in (claims Worker.scheduler)) as_found "worker:1" 7 0 1000
        waiting.runs;
}

new_environment_takes_no_run_example :
    create_run false (λ _. none) 12 2000 "eve" none 6 "first" request claimed_while_waiting
    ≡ err (conflict "Environment is not ready.")
unfolding get_row
new_environment_takes_no_run_example =
    new_environment_takes_no_run settings 2 41 300 2000 "ada" "eve" none none "new" full_request
      tenants (new_environment 2 full_request) (first_operation 41 300 2 "new") second_job
      second_job start (made created) waiting claimed_while_waiting false (λ _. none) 12 "first"
      request refl refl refl created-ok job-ok
      (Reach.later Reach.here (Step.claimed Worker.scheduler as_found "worker:1" 7 0 1000))
