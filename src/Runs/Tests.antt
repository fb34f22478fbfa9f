-- ===== src/Runs/Tests.antt =====
-- The theorems on submissions and cancellations at a concrete database.
use spark_pilot.Prelude.{ℕ, ◌≡◌, ◌⊎◌, refl, String, true, false, Option, none, [], ◌∷◌, ◌++◌}
use spark_pilot.Prelude.Table.{get_row, modify_row}
use spark_pilot.Models.{Run, Environment, Details, is_terminal}
use spark_pilot.Errors.{Result, ok, err, quota_exceeded, concurrent_runs}
use spark_pilot.Database.{Db, run_key, require_run, require_job, require_environment}
use spark_pilot.Policy.Evaluators.{evaluate_max_vcpu}
use spark_pilot.Policy.Engine.{
  evaluate_policies, evaluate_loop, evaluate_one, resolve_applicable_policies, applies,
  rule_evaluators,
}
use spark_pilot.Quota.{enforce_quota_for_run, run_vcpu, sum_vcpu}
use spark_pilot.Runs.Configuration.{
  validate_custom_spark_conf_policy, sorted_set, is_forbidden, resolve_run_configuration,
  resolve_timeout_seconds,
}
use spark_pilot.Runs.Create.{admit, create_run}
use spark_pilot.Runs.Cancel.{request_cancel, cancel_event, cancel_run}
use spark_pilot.Runs.Submission.{Submission, create_run_admits}
use spark_pilot.Runs.Idempotent.{create_run_idempotent}
use spark_pilot.Runs.Cancellation.{cancelled_in, cancel_run_lem}
use spark_pilot.Samples.{env, db, request, queued_run, accepted_run}

abbrev no_context : Environment → Option Details
no_context e = none

abbrev submit : (id : ℕ) (key : String) → Db → Result (Run × Db)
submit id key d = create_run true no_context id 100 "ada" none 5 key request d

-- What a call returns, where it succeeds.
abbrev made : Result (Run × Db) → Run × Db
made (ok x) = x
made (err e) = (queued_run, db)

submit-ok : submit 8 "second" db ≡ ok (made (submit 8 "second" db))
unfolding create_run admit require_job require_environment get_row resolve_run_configuration
    validate_custom_spark_conf_policy sorted_set evaluate_policies evaluate_loop evaluate_one
    resolve_applicable_policies applies rule_evaluators evaluate_max_vcpu enforce_quota_for_run
    run_vcpu sum_vcpu resolve_timeout_seconds is_forbidden
submit-ok = refl

-- The quota admits no third run, and a submission whose run is there has to pass it too.
submit_at_quota :
    submit 9 "second" (made (submit 8 "second" db)).1 ≡ err (quota_exceeded (concurrent_runs 2))
unfolding create_run admit require_job require_environment get_row resolve_run_configuration
    validate_custom_spark_conf_policy sorted_set evaluate_policies evaluate_loop evaluate_one
    resolve_applicable_policies applies rule_evaluators evaluate_max_vcpu enforce_quota_for_run
    run_vcpu sum_vcpu resolve_timeout_seconds is_forbidden
submit_at_quota = refl

create_run_admits_example :
    Submission true no_context 8 100 "ada" none 5 "second" request db
      (made (submit 8 "second" db)).0
      (made (submit 8 "second" db)).1
create_run_admits_example =
    create_run_admits true no_context 8 100 "ada" none 5 "second" request db
      (made (submit 8 "second" db)).0 (made (submit 8 "second" db)).1 submit-ok refl

abbrev empty_db : Db
empty_db = record db { runs = [] }

first-ok : submit 8 "key" empty_db ≡ ok (made (submit 8 "key" empty_db))
unfolding create_run admit require_job require_environment get_row resolve_run_configuration
    validate_custom_spark_conf_policy sorted_set evaluate_policies evaluate_loop evaluate_one
    resolve_applicable_policies applies rule_evaluators evaluate_max_vcpu enforce_quota_for_run
    run_vcpu sum_vcpu resolve_timeout_seconds is_forbidden
first-ok = refl

again-ok :
    submit 9 "key" (made (submit 8 "key" empty_db)).1
    ≡ ok (made (submit 9 "key" (made (submit 8 "key" empty_db)).1))
unfolding create_run admit require_job require_environment get_row resolve_run_configuration
    validate_custom_spark_conf_policy sorted_set evaluate_policies evaluate_loop evaluate_one
    resolve_applicable_policies applies rule_evaluators evaluate_max_vcpu enforce_quota_for_run
    run_vcpu sum_vcpu resolve_timeout_seconds is_forbidden
again-ok = refl

create_run_idempotent_example :
    let (first, db') = made (submit 8 "key" empty_db) in
    let (again, db'') = made (submit 9 "key" db') in (again ≡ first) × (db''.runs ≡ db'.runs)
create_run_idempotent_example =
    create_run_idempotent true no_context 8 9 100 100 "ada" "ada" none none 5 "key" request request
      empty_db (made (submit 8 "key" empty_db)).1
      (made (submit 9 "key" (made (submit 8 "key" empty_db)).1)).1
      (made (submit 8 "key" empty_db)).0
      (made (submit 9 "key" (made (submit 8 "key" empty_db)).1)).0 first-ok again-ok

abbrev running_db : Db
running_db = record db { runs = queued_run ∷ record accepted_run { id = 8 } ∷ [] }

abbrev cancelled : Result (Run × Db)
cancelled = cancel_run 200 "ada" none 8 running_db

cancelled-ok : cancelled ≡ ok (made cancelled)
unfolding cancel_run require_run require_environment get_row request_cancel
cancelled-ok = refl

cancel_run_lem_example :
    let run = record accepted_run { id = 8 } in
    ((made cancelled).0 ≡ cancelled_in run.state 200 run)
    × ((is_terminal run.state ≡ true) × ((made cancelled).1 ≡ running_db)
        ⊎ (is_terminal run.state ≡ false)
          × ((made cancelled).1.runs
              ≡ modify_row run_key run.id (request_cancel 200) running_db.runs)
          × ((made cancelled).1.audit
              ≡ running_db.audit ++ cancel_event "ada" none env run.id ∷ []))
unfolding get_row require_environment
cancel_run_lem_example =
    cancel_run_lem 200 "ada" none 8 running_db (record accepted_run { id = 8 }) env (made cancelled)
      refl refl cancelled-ok
