-- ===== src/Workers/Scheduler.antt =====
-- The scheduler (src/sparkpilot/services/workers_scheduling.py). The clients of the clouds are
-- parameters: each may raise or return what it started. A claimed run comes with its job and
-- environment, as the claim's query loads them. One reading of the clock serves a run.
pub mod Outcome
pub mod Gate
pub mod Retries
use spark_pilot.Prelude.{
  ℕ, ◌+◌, String, Bool, true, false, not, ◌&&◌, ltb, Option, none, some, List, [], ◌∷◌, ◌++◌, Dict,
  update, get_or, if◌then◌else◌,
}
use spark_pilot.Prelude.Table.{modify_row}
use spark_pilot.Models.{
  Uuid, Time, Run, RunState, Job, Environment, Engine, AuditEvent, Details, write_audit_event,
  retry, dispatch_failure, preflight, dispatched, Message, retry_scheduled, preflight_failed,
}
use spark_pilot.Database.{Db, run_key}
use spark_pilot.Preflight.Checks.{Report, preflight_summary}
use spark_pilot.Workers.Claims.{run_claims, release_claim}
use spark_pilot.Workers.Faults.{
  Attempt, raised, returned, Fault, FaultKind, is_aws, error_message, is_transient_dispatch_error,
}

-- What a client returns: the fields of the dispatch results.
pub record Dispatch : Type 0 where
  pub job_id : String
  pub log_group : Option String
  pub log_stream_prefix : Option String
  pub driver_log_uri : Option String
  pub spark_ui_uri : Option String
  pub aws_request_id : Option String

-- `start_job_run` of the three EMR clients and `submit_run` of the Databricks client.
pub record Clients : Type 0 where
  pub start_emr_eks : Environment → Job → Run → Attempt Dispatch
  pub start_emr_serverless : Environment → Job → Run → Attempt Dispatch
  pub start_emr_ec2 : Environment → Job → Run → Attempt Dispatch
  pub submit_databricks : Environment → Job → Run → Attempt Dispatch

-- A row on its way through a handler, with the audit log.
abbrev pub Handled : Type 0
Handled = Run × List AuditEvent

abbrev pub run_event : String → String → Environment → Run → Details → Option String → AuditEvent
run_event actor action env run details aws_request_id = record {
  tenant_id = some env.tenant_id;
  actor = actor;
  action = action;
  source_ip = none;
  entity_type = "run";
  entity_id = run.id;
  details_json = details;
  aws_request_id = aws_request_id;
}

-- `_handle_dispatch_failure`
unfoldable pub handle_dispatch_failure :
    (now : Time) (actor : String) → Environment → Job → Fault → Handled → Handled
handle_dispatch_failure now actor env job fault (run, log) =
    let transient = is_transient_dispatch_error fault in
    if transient && ltb run.attempt job.retry_max_attempts
    then (
      record run {
        attempt = run.attempt + 1;
        state = RunState.queued;
        error_message =
            some
              (retry_scheduled run.attempt job.retry_max_attempts fault.message (run.attempt + 1));
      },
      write_audit_event
          (run_event actor "run.dispatch_retry_scheduled" env run
            (retry fault.message (some fault.class_name) (run.attempt + 1) job.retry_max_attempts)
            none)
          log,
    )
    else (
      record run {
        state = RunState.failed;
        error_message = some (error_message fault (not (is_aws fault.kind)));
        ended_at = some now;
      },
      write_audit_event
          (run_event actor "run.dispatch_failed" env run
            (dispatch_failure fault.message (some fault.class_name) transient) none)
          log,
    )

-- The Databricks branch writes its two fields before it returns.
abbrev pub databricks_fields : Run → Attempt Dispatch → Attempt (Run × Dispatch)
databricks_fields run (raised fault) = raised fault
databricks_fields run (returned d) =
    returned (record run { backend_job_run_id = some d.job_id; spark_ui_uri = d.spark_ui_uri }, d)

abbrev pub with_run : Run → Attempt Dispatch → Attempt (Run × Dispatch)
with_run run (raised fault) = raised fault
with_run run (returned d) = returned (run, d)

-- `ValueError(f"Unsupported engine: {engine}")`
abbrev pub unsupported_engine : String → Fault
unsupported_engine engine = record {
  kind = FaultKind.value_error;
  class_name = "ValueError";
  message = engine;
  aws_code = none;
}

-- `_dispatch_run`
abbrev pub dispatch_on : Engine → Clients → Environment → Job → Run → Attempt (Run × Dispatch)
dispatch_on Engine.emr_on_eks clients env job run = with_run run (clients.start_emr_eks env job run)
dispatch_on Engine.emr_serverless clients env job run =
    with_run run (clients.start_emr_serverless env job run)
dispatch_on Engine.emr_on_ec2 clients env job run = with_run run (clients.start_emr_ec2 env job run)
dispatch_on Engine.databricks clients env job run =
    databricks_fields run (clients.submit_databricks env job run)
dispatch_on (Engine.other name) clients env job run = raised (unsupported_engine name)

unfoldable pub dispatch_run : Clients → Environment → Job → Run → Attempt (Run × Dispatch)
dispatch_run clients env job run = dispatch_on env.engine clients env job run

-- What all engines write, and the log fields that Databricks does not carry.
abbrev accept : Time → Run → Run
accept now run = record run {
  state = RunState.accepted;
  started_at = some now;
  last_heartbeat_at = some now;
}

abbrev with_logs : Dispatch → Run → Run
with_logs d run = record run {
  log_group = d.log_group;
  log_stream_prefix = d.log_stream_prefix;
  driver_log_uri = d.driver_log_uri;
  spark_ui_uri = d.spark_ui_uri;
}

-- `_apply_dispatch_result`
abbrev pub apply_on : Engine → Time → Dispatch → Run → Run
apply_on Engine.databricks now d run = accept now run
apply_on Engine.emr_on_eks now d run = record (with_logs d (accept now run)) {
  emr_job_run_id = some d.job_id;
  backend_job_run_id = some d.job_id;
}
apply_on Engine.emr_serverless now d run = record (with_logs d (accept now run)) {
  backend_job_run_id = some d.job_id;
}
apply_on Engine.emr_on_ec2 now d run = record (with_logs d (accept now run)) {
  backend_job_run_id = some d.job_id;
}
apply_on (Engine.other name) now d run = with_logs d (accept now run)

unfoldable pub apply_dispatch_result : Time → Environment → Dispatch → Run → Run
apply_dispatch_result now env d run = apply_on env.engine now d run

-- `{**(job.spark_conf_json or {}), **(run.spark_conf_overrides_json or {})}`
unfoldable pub merged_spark_conf : Job → Run → Dict String
merged_spark_conf job run = update job.spark_conf_json run.spark_conf_overrides_json

module _ (clients : Clients) (build_preflight : Environment → Uuid → Dict String → Attempt Report)
    (actor : String) (now : Time) (env : Environment) (job : Job) where
  -- The end of the `try` block.
  abbrev pub finish_dispatch : Attempt (Run × Dispatch) → Handled → Handled
  finish_dispatch (raised fault) handled = handle_dispatch_failure now actor env job fault handled
  finish_dispatch (returned (run, d)) (_, log) =
      let run' = apply_dispatch_result now env d run in
      (
        run',
        write_audit_event
            (run_event actor "run.dispatched" env run' (dispatched run'.backend_job_run_id)
              d.aws_request_id)
            log,
      )

  abbrev pub preflight_event : String → Run → Report → AuditEvent
  preflight_event action run report =
      run_event actor action env run
        (preflight report.is_ready (preflight_summary true false report.checks) env.id) none

  abbrev pub dispatch_ready : Run → List AuditEvent → Handled
  dispatch_ready run log =
      let dispatching = record run { state = RunState.dispatching } in
      finish_dispatch (dispatch_run clients env job dispatching) (dispatching, log)

  abbrev pub after_preflight : Attempt Report → Handled → Handled
  after_preflight (raised fault) handled = handle_dispatch_failure now actor env job fault handled
  after_preflight (returned report) (run, log) =
      if report.is_ready
      then dispatch_ready run
          (write_audit_event (preflight_event "run.preflight_passed" run report) log)
      else (
        record run {
          state = RunState.failed;
          error_message = some (preflight_failed (preflight_summary false false report.checks));
          ended_at = some now;
        },
        write_audit_event (preflight_event "run.preflight_failed" run report) log,
      )

  -- The `try` block and its handler.
  unfoldable pub try_schedule : Handled → Handled
  try_schedule (run, log) =
      if run.cancellation_requested
      then (record run { state = RunState.cancelled; ended_at = some now }, log)
      else after_preflight (build_preflight env run.id (merged_spark_conf job run)) (run, log)

  -- One round of the loop, with the `finally` block.
  unfoldable pub schedule_run : Handled → Handled
  schedule_run handled =
      let (run, log) = try_schedule handled in (release_claim run_claims run, log)

-- The loop over the claimed runs and the commit: the table, the log and the number processed.
module _ (clients : Clients) (build_preflight : Environment → Uuid → Dict String → Attempt Report)
    (actor : String) (now : Time) (environment_of : Run → Environment) (job_of : Run → Job) where
  unfoldable pub scheduler_loop : List Run → Db × ℕ → Db × ℕ
  scheduler_loop [] (db, processed) = (db, processed)
  scheduler_loop (run ∷ runs) (db, processed) =
      let (run', log) =
        schedule_run clients build_preflight actor now (environment_of run) (job_of run)
          (run, db.audit) in
      scheduler_loop runs (
        record db { runs = modify_row run_key run.id (λ _. run') db.runs; audit = log },
        processed + 1,
      )
