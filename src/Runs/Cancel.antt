-- ===== src/Runs/Cancel.antt =====
-- `cancel_run` of src/sparkpilot/services/crud.py.
use spark_pilot.Prelude.{String, Bool, true, false, Option, none, some, if◌then◌else◌}
use spark_pilot.Prelude.Table.{modify_row}
use spark_pilot.Models.{
  Uuid, Time, Run, RunState, Environment, is_terminal, AuditEvent, write_audit_event, no_details,
}
use spark_pilot.Errors.{Result, ok, ◌>>=◌}
use spark_pilot.Database.{Db, run_key, require_run, require_environment}

-- `run.state in {"queued", "dispatching"}`
abbrev pub before_dispatch : RunState → Bool
before_dispatch RunState.queued = true
before_dispatch RunState.dispatching = true
before_dispatch _ = false

-- What the call writes to a run that has not ended.
unfoldable pub request_cancel : Time → Run → Run
request_cancel now run =
    if before_dispatch run.state
    then record run { state = RunState.cancelled; ended_at = some now }
    else record run { cancellation_requested = true }

abbrev pub cancel_event : String → Option String → Environment → Uuid → AuditEvent
cancel_event actor source_ip env id = record {
  tenant_id = some env.tenant_id;
  actor = actor;
  action = "run.cancel.request";
  source_ip = source_ip;
  entity_type = "run";
  entity_id = id;
  details_json = no_details;
  aws_request_id = none;
}

unfoldable pub cancel_run : Time → (actor : String) → Option String → Uuid → Db → Result (Run × Db)
cancel_run now actor source_ip id db = do
  run ← require_run db id
  env ← require_environment db run.environment_id
  if is_terminal run.state
      then ok (run, db)
      else ok (
        request_cancel now run,
        record db {
          runs = modify_row run_key run.id (request_cancel now) db.runs;
          audit = write_audit_event (cancel_event actor source_ip env run.id) db.audit;
        },
      )
