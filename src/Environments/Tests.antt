-- ===== src/Environments/Tests.antt =====
-- Retries and deletions of an environment at a concrete database.
use spark_pilot.Prelude.{◌↔◌, ◌≡◌, refl, true, Option, none, []}
use spark_pilot.Prelude.Table.{get_row}
use spark_pilot.Models.{Environment, ProvisioningOperation, OperationState, Details}
use spark_pilot.Errors.{Result, ok, err, conflict}
use spark_pilot.Database.{Db, require_environment}
use spark_pilot.Runs.Create.{create_run}
use spark_pilot.Environments.{retry_environment_provisioning, delete_environment}
use spark_pilot.Environments.Create.{create_environment}
use spark_pilot.Environments.Creation.{IsAdmissible, creation_exact}
use spark_pilot.Environments.Deletion.{deleted_environment_takes_no_run}
use spark_pilot.Samples.{settings, full_request, tenants, env, job, db, request}

abbrev idle : Db
idle = record db { runs = [] }

abbrev retried : Result (ProvisioningOperation × Db)
retried = retry_environment_provisioning 40 300 "ada" none "again" 1 idle

abbrev no_operation : ProvisioningOperation
no_operation = record {
  id = 0;
  environment_id = 0;
  state = OperationState.failed;
  step = OperationState.failed;
  message = none;
  ended_at = none;
  idempotency_key = "";
  worker_claim_token = none;
  worker_claimed_at = none;
  created_at = 0;
}

abbrev got : Result (ProvisioningOperation × Db) → ProvisioningOperation × Db
got (ok x) = x
got (err e) = (no_operation, idle)

abbrev deleted : Result (Environment × Db)
deleted = delete_environment "ada" none 1 idle

abbrev left : Result (Environment × Db) → Environment × Db
left (ok x) = x
left (err e) = (env, idle)

deleted-ok : deleted ≡ ok (left deleted)
unfolding delete_environment require_environment get_row
deleted-ok = refl

abbrev no_context : Environment → Option Details
no_context e = none

deleted_environment_takes_no_run_example :
    create_run true no_context 8 400 "eve" none 5 "key" request (left deleted).1
    ≡ err (conflict "Environment is not ready.")
unfolding get_row
deleted_environment_takes_no_run_example =
    deleted_environment_takes_no_run "ada" none 1 idle (left deleted).1 (left deleted).0 job true
      no_context 8 400 "eve" none 5 "key" request deleted-ok refl refl

creation_exact_example :
    ((result : (Environment × ProvisioningOperation) × Db) × (create_environment settings 2 41 300
          "ada" none "new" full_request tenants idle
        ≡ ok result))
    ↔ IsAdmissible settings 2 41 300 "ada" none "new" full_request tenants idle
creation_exact_example = creation_exact settings 2 41 300 "ada" none "new" full_request tenants idle
