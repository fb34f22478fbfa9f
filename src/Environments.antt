-- ===== src/Environments.antt =====
-- `retry_environment_provisioning` and `delete_environment` of src/sparkpilot/services/crud.py.
pub mod Operations
pub mod Deletion
pub mod Create
pub mod Creation
pub mod FirstRun
mod Tests
use spark_pilot.Prelude.{
  ℕ, String, Bool, true, false, ◌&&◌, ◌==◌, Option, none, some, List, [], ◌∷◌, ◌++◌, any,
  if◌then◌else◌,
}
use spark_pilot.Prelude.Table.{modify_row}
use spark_pilot.Models.{
  Uuid, Time, Run, Environment, EnvironmentStatus, ProvisioningOperation, OperationState,
  AuditEvent, Details, write_audit_event, operation, environment_status, queued_for_retry,
  is_active,
}
use spark_pilot.Errors.{Result, ok, err, conflict, raise_if, ◌>>=◌, ◌>>◌}
use spark_pilot.Database.{Db, environment_key, require_environment}

-- `active_operation_states`
abbrev pub is_active_operation : OperationState → Bool
is_active_operation OperationState.ready = false
is_active_operation OperationState.failed = false
is_active_operation _ = true

abbrev pub is_deleted : EnvironmentStatus → Bool
is_deleted EnvironmentStatus.deleted = true
is_deleted _ = false

abbrev pub works_on : Uuid → ProvisioningOperation → Bool
works_on id op = op.environment_id == id && is_active_operation op.state

abbrev pub runs_on : Uuid → Run → Bool
runs_on id run = run.environment_id == id && is_active run.state

abbrev pub set_status : EnvironmentStatus → Environment → Environment
set_status status env = record env { status = status }

abbrev pub environment_event : String → Option String → String → Environment → Details → AuditEvent
environment_event actor source_ip action env details = record {
  tenant_id = some env.tenant_id;
  actor = actor;
  action = action;
  source_ip = source_ip;
  entity_type = "environment";
  entity_id = env.id;
  details_json = details;
  aws_request_id = none;
}

abbrev pub retry_operation : Uuid → Time → Environment → String → ProvisioningOperation
retry_operation new_id now env key = record {
  id = new_id;
  environment_id = env.id;
  state = OperationState.queued;
  step = OperationState.queued;
  message = some queued_for_retry;
  ended_at = none;
  idempotency_key = key;
  worker_claim_token = none;
  worker_claimed_at = none;
  created_at = now;
}

-- The details carry the operation's identifier before the flush draws it, which is none.
unfoldable pub retry_environment_provisioning :
    (new_id : Uuid) (now : Time) (actor : String) (source_ip : Option String) (key : String)
    → Uuid
    → Db
    → Result (ProvisioningOperation × Db)
retry_environment_provisioning new_id now actor source_ip key id db = do
  env ← require_environment db id
  raise_if (is_deleted env.status) (conflict "Environment is deleted and cannot be retried.")
  raise_if (any (works_on id) db.operations)
      (conflict "An active provisioning operation already exists for this environment.")
  let op = retry_operation new_id now env key
  ok (
    op,
    record db {
      environments =
          modify_row environment_key id (set_status EnvironmentStatus.provisioning) db.environments;
      operations = db.operations ++ op ∷ [];
      audit =
          write_audit_event
            (environment_event actor source_ip "environment.retry_provisioning" env
              (operation none))
            db.audit;
    },
  )

unfoldable pub delete_environment :
    (actor : String) (source_ip : Option String) → Uuid → Db → Result (Environment × Db)
delete_environment actor source_ip id db = do
  env ← require_environment db id
  if is_deleted env.status then ok (env, db) else do
    raise_if (any (runs_on id) db.runs) (
        conflict
          "Environment has active or in-flight runs. Cancel/wait for completion before delete.")
    raise_if (any (works_on id) db.operations)
        (conflict "Environment has an active provisioning operation. Retry later.")
    ok (
      set_status EnvironmentStatus.deleted env,
      record db {
        environments =
            modify_row environment_key id (set_status EnvironmentStatus.deleted) db.environments;
        audit =
            write_audit_event
              (environment_event actor source_ip "environment.delete" env
                (environment_status EnvironmentStatus.deleted))
              db.audit;
      },
    )
