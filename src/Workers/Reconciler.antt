-- ===== src/Workers/Reconciler.antt =====
-- The reconciler (src/sparkpilot/services/workers_reconciliation.py), with `describe_job_run` of
-- `EmrEksClient` (src/sparkpilot/aws_clients.py) up to the call of the cloud, and
-- `_record_run_diagnostics_if_needed` (services/diagnostics.py) up to the analysis of the logs. What
-- the cloud answers, and what the analysis finds, are parameters. One reading of the clock serves a
-- run.
pub mod Outcome
pub mod Overdue
use Prim.Native.Char.{code}
use Prim.Native.String
use spark_pilot.Prelude.{
  ℕ, ◌+◌, ◌-◌, ◌*◌, String, Bool, true, false, not, ◌&&◌, ◌||◌, ◌==◌, leb, ltb, Option, none, some,
  List, [], ◌∷◌, ◌++◌, Dict, any, map, contains, is_blank, is_some, get_or, str_eq, str_append,
  if◌then◌else◌,
}
use spark_pilot.Models.{
  Uuid, Time, Run, RunState, Job, Environment, Architecture, AuditEvent, write_audit_event,
  no_details, preflight, reconciled, Message, text, timeout_exceeded, submitted_stale,
  accepted_stale, is_terminal,
}
use spark_pilot.Preflight.Checks.{Report, preflight_summary}
use spark_pilot.Finops.Usage.{Ledger, record_usage_if_needed}
use spark_pilot.Workers.Claims.{run_claims, release_claim}
use spark_pilot.Workers.Faults.{Fault, FaultKind, Attempt, raised, returned, ◌>>=◌}
use spark_pilot.Workers.Scheduler.{merged_spark_conf, run_event}
use spark_pilot.Workers.Cloud.{truthy, EmrState, emr_text, platform_state, Session, Outside}

-- `PREFLIGHT_AUDIT_ACTIONS`, `_has_preflight_audit`
abbrev pub is_preflight_event : Uuid → AuditEvent → Bool
is_preflight_event id e =
    str_eq e.entity_type "run"
    && e.entity_id == id
    && (str_eq e.action "run.preflight_passed"
        || str_eq e.action "run.preflight_failed"
        || str_eq e.action "run.preflight_diagnostic")

abbrev pub has_preflight_audit : List AuditEvent → Uuid → Bool
has_preflight_audit log id = any (is_preflight_event id) log

-- `_record_run_diagnostics_if_needed`
abbrev pub wants_diagnosis : RunState → Bool
wants_diagnosis RunState.failed = true
wants_diagnosis RunState.timed_out = true
wants_diagnosis RunState.cancelled = true
wants_diagnosis _ = false

module _ (outside : Outside) (actor : String) (now : Time) (env : Environment) (job : Job) where
  unfoldable pub record_run_diagnostics_if_needed :
      Run → List (Uuid × String) → List (Uuid × String)
  record_run_diagnostics_if_needed run rows =
      if not (wants_diagnosis run.state) || any (λ (row : Uuid × String). row.0 == run.id) rows
      then rows
      else rows ++ map (λ (category : String). (run.id, category)) (outside.diagnose run env)

  abbrev pub add_event : AuditEvent → Session → Session
  add_event e session = record session { audit = write_audit_event e session.audit }

  abbrev pub plain_event : String → Run → Option String → AuditEvent
  plain_event action run request_id = run_event actor action env run no_details request_id

  -- `_emit_reconciler_preflight_diagnostic_if_missing`
  unfoldable pub emit_preflight_diagnostic : Run → Session → Attempt Session
  emit_preflight_diagnostic run session =
      if has_preflight_audit session.audit run.id then returned session else do
        report ← outside.build_preflight env run.id (merged_spark_conf job run)
        returned (
            add_event
              (run_event actor "run.preflight_diagnostic" env run
                (preflight report.is_ready (preflight_summary true false report.checks) env.id)
                none)
              session)

  -- Usage and diagnostics of a run that has ended.
  abbrev pub record_ending : Run → Session → Attempt Session
  record_ending run session = do
    ledger ←
        record_usage_if_needed outside.price outside.cost_center outside.billing_period now run env
          session.ledger
    returned (record session {
      ledger = ledger;
      diagnostics = record_run_diagnostics_if_needed run session.diagnostics;
    })

  abbrev pub ending_if : (ended : Bool) → Run → Session → Attempt Session
  ending_if true run session = record_ending run session
  ending_if false run session = returned session

  -- The cancellation at the cloud, for a run that is known there.
  abbrev pub cancel_at_cloud : String → Run → Session → Attempt Session
  cancel_at_cloud action run session =
      if truthy run.emr_job_run_id
      then (outside.cancel env run >>= λ request_id.
          returned (add_event (plain_event action run request_id) session))
      else returned session

  -- `elapsed > seconds`
  abbrev pub has_run_longer : Option Time → ℕ → Bool
  has_run_longer none seconds = false
  has_run_longer (some started) seconds = ltb (seconds * 1000000) (now - started)

  abbrev pub timed_out_run : Run → Run
  timed_out_run run = record run {
    cancellation_requested = true;
    state = RunState.timed_out;
    error_message = some timeout_exceeded;
    ended_at = some now;
  }

  abbrev pub end_by_timeout : Run → Session → Attempt (Run × Session)
  end_by_timeout run session = do
    let ended = timed_out_run run
    session ← record_ending ended session
    returned (ended, add_event (plain_event "run.timed_out" ended none) session)

  -- `_mark_run_timed_out_if_needed`, for a run that is past its timeout.
  unfoldable pub mark_run_timed_out : Run → Session → Attempt (Run × Session)
  mark_run_timed_out run session = do
    let requested = record run { cancellation_requested = true }
    session ← cancel_at_cloud "run.timeout_cancel.dispatched" requested session
    end_by_timeout run session

  -- `_dispatch_run_cancel_if_requested`
  unfoldable pub dispatch_run_cancel_if_requested : Run → Session → Attempt Session
  dispatch_run_cancel_if_requested run session =
      if run.cancellation_requested
      then cancel_at_cloud "run.cancel.dispatched" run session
      else returned session

  -- The states that a dry run goes through.
  abbrev pub dry_state : Option Time → EmrState
  dry_state none = EmrState.pending
  dry_state (some started) =
      if ltb (now - started) (10 * 1000000)
      then EmrState.submitted
      else if ltb (now - started) (40 * 1000000)
      then EmrState.running
      else EmrState.completed

  abbrev pub or_client_error :
      Attempt (EmrState × Option String) → Attempt (EmrState × Option String)
  or_client_error (raised fault) = elim fault.kind [
    | FaultKind.client_error ↦ returned (EmrState.failed, some fault.message)
    | _ ↦ raised fault
  ]
  or_client_error (returned answer) = returned answer

  -- `EmrEksClient.describe_job_run`: a client error is an answer where the call of the cloud raises
  -- it, and not where the session cannot be opened.
  unfoldable pub describe_job_run : Run → Attempt (EmrState × Option String)
  describe_job_run run =
      if run.cancellation_requested
      then returned (EmrState.cancelled, none)
      else if outside.dry_run_mode
      then returned (dry_state run.started_at, none)
      else if not (truthy run.emr_job_run_id)
      then returned (EmrState.failed, some "Missing EMR job id.")
      else (outside.connect env >>= λ _. or_client_error (outside.describe env run))

  abbrev is_submitted : EmrState → Bool
  is_submitted EmrState.submitted = true
  is_submitted _ = false

  abbrev is_accepted : RunState → Bool
  is_accepted RunState.accepted = true
  is_accepted _ = false

  abbrev pub message_of : Option String → Option Message
  message_of none = none
  message_of (some s) = if is_blank s then none else some (text s)

  -- `_apply_reconciler_stale_overrides`, on a state and an error that is worth writing.
  unfoldable pub apply_stale_overrides :
      Run → EmrState → RunState → Option Message → RunState × Option Message
  apply_stale_overrides run emr_state mapped_state error =
      if is_submitted emr_state
        && has_run_longer run.started_at (outside.submitted_stale_minutes * 60)
      then (RunState.failed, some (submitted_stale outside.submitted_stale_minutes))
      else if is_accepted mapped_state
          && has_run_longer run.started_at (outside.accepted_stale_minutes * 60)
      then (RunState.failed, some (accepted_stale outside.accepted_stale_minutes))
      else (mapped_state, error)

  -- `.rstrip('/')`
  abbrev pub rstrip_slash : String → String
  rstrip_slash String.[] = ""
  rstrip_slash (String.◌∷◌ c s) =
      let rest = rstrip_slash s in if is_blank rest && code c == b'/' then "" else String.◌∷◌ c rest

  abbrev pub history_uri : Run → Option String
  history_uri run =
      if not (truthy run.spark_ui_uri)
        && truthy env.spark_history_server_url
        && truthy run.emr_job_run_id
      then some (
          str_append (rstrip_slash (get_or env.spark_history_server_url ""))
            (str_append "/history/" (get_or run.emr_job_run_id "")))
      else run.spark_ui_uri

  abbrev pub or_now : Option Time → Option Time
  or_now none = some now
  or_now (some t) = some t

  abbrev or_old : Option Message → Option Message → Option Message
  or_old none old = old
  or_old (some m) old = some m

  -- What `_record_reconciled_run_state` writes to the run.
  abbrev pub reconciled_run : RunState → Option Message → Run → Run
  reconciled_run mapped_state error run = record run {
    error_message = or_old error run.error_message;
    state = mapped_state;
    last_heartbeat_at = elim mapped_state [
      | RunState.accepted ↦ some now
      | RunState.running ↦ some now
      | _ ↦ run.last_heartbeat_at
    ];
    ended_at = if is_terminal mapped_state then or_now run.ended_at else run.ended_at;
    spark_ui_uri = elim mapped_state [
      | RunState.succeeded ↦ history_uri run
      | _ ↦ run.spark_ui_uri
    ];
  }

  -- `_record_reconciled_run_state`
  unfoldable pub record_reconciled_run_state :
      EmrState → RunState × Option Message → Run → Session → Attempt (Run × Session)
  record_reconciled_run_state emr_state (mapped_state, error) run session = do
    let run' = reconciled_run mapped_state error run
    session ← ending_if (is_terminal mapped_state) run' session
    returned (
      run',
      add_event
          (run_event actor "run.reconciled" env run' (reconciled (emr_text emr_state) mapped_state)
            none)
          session,
    )

  -- What the cloud answers, mapped to a state and overridden where the run is stale.
  abbrev pub record_answer : Run → Session → EmrState × Option String → Attempt (Run × Session)
  record_answer run session (emr_state, error) =
      record_reconciled_run_state emr_state
        (apply_stale_overrides run emr_state (platform_state emr_state) (message_of error)) run
        session

  abbrev pub after_timeout_test : Bool → Run → Session → Attempt (Run × Session)
  after_timeout_test true run session = mark_run_timed_out run session
  after_timeout_test false run session = do
    session ← dispatch_run_cancel_if_requested run session
    answer ← describe_job_run run
    record_answer run session answer

  -- The body of `with db.begin_nested()`.
  unfoldable pub reconcile_body : Run → Session → Attempt (Run × Session)
  reconcile_body run session = do
    session ← emit_preflight_diagnostic run session
    after_timeout_test (has_run_longer run.started_at run.timeout_seconds) run session

  -- A raise rolls the nested transaction back, the run's columns included.
  abbrev pub or_rollback : Run → Session → Attempt (Run × Session) → Run × Session
  or_rollback run session (raised fault) = (run, session)
  or_rollback run session (returned done) = done

  -- One round of the loop, with its handler and its `finally` block.
  unfoldable pub reconcile_run : Run × Session → Run × Session
  reconcile_run (run, session) =
      let (run', session') = or_rollback run session (reconcile_body run session) in
      (release_claim run_claims run', session')
