-- ===== src/Runs/Create.antt =====
-- `create_run` of src/sparkpilot/services/crud.py. The call of Lake Formation is a parameter: the
-- context that it returns, or nothing if it raises, which the code logs and passes over.
use spark_pilot.Prelude.{
  ℕ, String, Bool, true, false, not, ◌&&◌, ◌==◌, Option, none, some, List, [], ◌∷◌, ◌++◌, Dict,
  filter, map, find, is_empty, get_or, str_eq, if◌then◌else◌,
}
use spark_pilot.Models.{
  Uuid, Time, Run, RunState, Job, Environment, EnvironmentStatus, GoldenPath, Resources,
  Enforcement, PolicyMessage, AuditEvent, Details, write_audit_event, created,
}
use spark_pilot.Errors.{
  Result, ok, conflict, validation, blocked_keys, policy_violations, raise_if, ◌>>=◌, ◌>>◌,
}
use spark_pilot.Database.{Db, require_job, require_environment}
use spark_pilot.Policy.Evaluators.{Parameters}
use spark_pilot.Policy.Engine.{PolicyResult, evaluate_policies}
use spark_pilot.Quota.{enforce_quota_for_run}
use spark_pilot.Runs.Configuration.{
  RunCreateRequest, validate_custom_spark_conf_policy, resolve_run_configuration,
  resolve_timeout_seconds,
}

abbrev pub is_hard : Enforcement → Bool
is_hard Enforcement.hard = true
is_hard Enforcement.soft = false

abbrev pub is_ready : EnvironmentStatus → Bool
is_ready EnvironmentStatus.ready = true
is_ready _ = false

abbrev pub is_hard_failure : PolicyResult → Bool
is_hard_failure r = not r.passed && is_hard r.enforcement

abbrev pub hard_failures : List PolicyResult → List PolicyResult
hard_failures results = filter is_hard_failure results

abbrev failure_message : PolicyResult → String × PolicyMessage
failure_message r = (r.policy_name, r.message)

abbrev pub same_submission : Uuid → String → Run → Bool
same_submission job_id key run = run.job_id == job_id && str_eq run.idempotency_key key

abbrev pub new_run :
    Uuid
    → Time
    → String
    → String
    → Job
    → Environment
    → RunCreateRequest
    → Resources
    → Dict String
    → ℕ
    → Run
new_run id now actor key job env req requested spark_conf timeout_seconds = record {
  id = id;
  job_id = job.id;
  environment_id = env.id;
  state = RunState.queued;
  attempt = 1;
  idempotency_key = key;
  requested_resources_json = requested;
  args_overrides_json = get_or req.args job.args_json;
  spark_conf_overrides_json = spark_conf;
  timeout_seconds = timeout_seconds;
  emr_job_run_id = none;
  backend_job_run_id = none;
  cancellation_requested = false;
  log_group = none;
  log_stream_prefix = none;
  driver_log_uri = none;
  spark_ui_uri = none;
  created_by_actor = some actor;
  worker_claim_token = none;
  worker_claimed_at = none;
  error_message = none;
  started_at = none;
  last_heartbeat_at = none;
  ended_at = none;
  created_at = now;
}

-- The checks of a submission, in the code's order, with what they settle: the golden path, the
-- resources, the Spark configuration, the timeout and the audit log with the policy events.
pub record Admitted : Type 0 where
  pub job : Job
  pub env : Environment
  pub golden_path : Option GoldenPath
  pub requested : Resources
  pub spark_conf : Dict String
  pub timeout_seconds : ℕ
  pub audit : List AuditEvent

abbrev pub parameters : RunCreateRequest → Resources → Dict String → Parameters
parameters req requested spark_conf = record {
  timeout_seconds = req.timeout_seconds;
  requested_resources = some requested;
  spark_conf = some spark_conf;
  golden_path = req.golden_path;
  release_label = none;
  security_configuration_id = none;
}

module _ (nulls_first : Bool) (lf_context : Environment → Option Details) (new_id : Uuid)
    (now : Time) (actor : String) (source_ip : Option String) where
  abbrev run_event : String → Environment → Uuid → Details → AuditEvent
  run_event action env id details = record {
    tenant_id = some env.tenant_id;
    actor = actor;
    action = action;
    source_ip = source_ip;
    entity_type = "run";
    entity_id = id;
    details_json = details;
    aws_request_id = none;
  }

  abbrev add_context : Option Details → Environment → List AuditEvent → List AuditEvent
  add_context none env log = log
  add_context (some details) env log =
      write_audit_event (run_event "run.lf_permission_context" env new_id details) log

  abbrev lf_events : Environment → List AuditEvent → List AuditEvent
  lf_events env log =
      if env.lake_formation_enabled then add_context (lf_context env) env log else log

  unfoldable pub admit : Uuid → RunCreateRequest → Db → Result Admitted
  admit job_id req db = do
    job ← require_job db job_id
    env ← require_environment db job.environment_id
    raise_if (not (is_ready env.status)) (conflict "Environment is not ready.")
    configuration ← resolve_run_configuration nulls_first db.golden_paths env req
    let (golden_path, requested, spark_conf) = configuration
    let violations = validate_custom_spark_conf_policy spark_conf
    raise_if (not (is_empty violations)) (validation (blocked_keys violations))
    let evaluated =
        evaluate_policies env (parameters req requested spark_conf) actor source_ip db.policies
          db.audit
    let failures = hard_failures evaluated.0
    raise_if (not (is_empty failures))
        (validation (policy_violations (map failure_message failures)))
    enforce_quota_for_run db.runs env requested
    timeout_seconds ← resolve_timeout_seconds req job env golden_path
    ok (record {
      job = job;
      env = env;
      golden_path = golden_path;
      requested = requested;
      spark_conf = spark_conf;
      timeout_seconds = timeout_seconds;
      audit = evaluated.1;
    })

  abbrev path_name : Option GoldenPath → String
  path_name none = ""
  path_name (some path) = path.name

  -- The insertion, where no run has the job and the idempotency key yet.
  abbrev pub insert_run : String → RunCreateRequest → Admitted → Db → Run × Db
  insert_run key req a db =
      let run =
        new_run new_id now actor key a.job a.env req a.requested a.spark_conf a.timeout_seconds in
      let event = run_event "run.create" a.env new_id (created (path_name a.golden_path)) in
      (
        run,
        record db {
          runs = db.runs ++ run ∷ [];
          audit = lf_events a.env (write_audit_event event a.audit);
        },
      )

  abbrev pub finish_run : Option Run → String → RunCreateRequest → Admitted → Db → Run × Db
  finish_run (some existing) key req a db = (existing, record db { audit = a.audit })
  finish_run none key req a db = insert_run key req a db

  unfoldable pub create_run : Uuid → String → RunCreateRequest → Db → Result (Run × Db)
  create_run job_id key req db = do
    a ← admit job_id req db
    ok (finish_run (find (same_submission job_id key) db.runs) key req a db)
