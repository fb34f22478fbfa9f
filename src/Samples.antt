-- ===== src/Samples.antt =====
-- Concrete rows that the tests of the components run on.
use spark_pilot.Prelude.{ℕ, String, Bool, true, false, Option, none, some, List, [], ◌∷◌}
use spark_pilot.Prelude.Int.{pos}
use spark_pilot.Models.{
  Tenant, Uuid, Run, RunState, Job, Environment, EnvironmentStatus, Engine, ProvisioningMode,
  Architecture, Resources, Policy, PolicyConfig, RuleType, Enforcement, Scope,
}
use spark_pilot.Database.{Db}
use spark_pilot.Policy.Evaluators.{Parameters}
use spark_pilot.Preflight.Checks.{Report}
use spark_pilot.Finops.Usage.{Ledger}
use spark_pilot.Runs.Configuration.{RunCreateRequest}
use spark_pilot.Workers.Faults.{Fault, FaultKind, Attempt, raised, returned}
use spark_pilot.Workers.Scheduler.{Clients, Dispatch}
use spark_pilot.Workers.Cloud.{EmrState, Outside, Session}
use spark_pilot.Environments.Create.{Settings, EnvironmentCreateRequest}

abbrev pub env_on : Engine → Environment
env_on engine = record {
  id = 1;
  tenant_id = 10;
  region = "us-east-1";
  engine = engine;
  provisioning_mode = ProvisioningMode.byoc_lite;
  status = EnvironmentStatus.ready;
  instance_architecture = Architecture.mixed;
  customer_role_arn = "arn:aws:iam::123456789012:role/pilot";
  eks_cluster_arn = none;
  eks_namespace = some "spark";
  emr_virtual_cluster_id = some "vc-1";
  max_concurrent_runs = 2;
  max_vcpu = 16;
  max_run_seconds = 28800;
  spark_history_server_url = some "https://history/";
  lake_formation_enabled = false;
  identity_mode = none;
  security_configuration_id = none;
}

abbrev pub env : Environment
env = env_on Engine.emr_on_eks

abbrev pub job : Job
job = record {
  id = 5;
  environment_id = 1;
  name = "nightly";
  artifact_uri = "s3://bucket/job.py";
  artifact_digest = "sha256:0";
  entrypoint = "main";
  args_json = [];
  spark_conf_json = [];
  retry_max_attempts = 2;
  timeout_seconds = 14400;
}

-- One driver core and two executors of two cores.
abbrev pub five_cores : Resources
five_cores = record {
  driver_vcpu = some 1;
  driver_memory_gb = some 4;
  executor_vcpu = some 2;
  executor_memory_gb = some 8;
  executor_instances = some 2;
}

abbrev pub run_in_state : RunState → Run
run_in_state state = record {
  id = 7;
  job_id = 5;
  environment_id = 1;
  state = state;
  attempt = 1;
  idempotency_key = "first";
  requested_resources_json = five_cores;
  args_overrides_json = [];
  spark_conf_overrides_json = [];
  timeout_seconds = 3600;
  emr_job_run_id = none;
  backend_job_run_id = none;
  cancellation_requested = false;
  log_group = none;
  log_stream_prefix = none;
  driver_log_uri = none;
  spark_ui_uri = none;
  created_by_actor = some "ada";
  worker_claim_token = none;
  worker_claimed_at = none;
  error_message = none;
  started_at = none;
  last_heartbeat_at = none;
  ended_at = none;
  created_at = 0;
}

abbrev pub queued_run : Run
queued_run = run_in_state RunState.queued

-- Accepted at time 0, with the identifier of an EMR job.
abbrev pub accepted_run : Run
accepted_run = record (run_in_state RunState.accepted) {
  emr_job_run_id = some "jr-1";
  started_at = some 0;
}

abbrev pub no_config : PolicyConfig
no_config = record {
  max_seconds = none;
  max_vcpu = none;
  max_memory_gb = none;
  tags = [];
  allowed = [];
  require_golden_path = false;
  require_security_configuration = false;
}

abbrev pub policy_for : RuleType → PolicyConfig → Policy
policy_for rule_type config = record {
  id = 20;
  name = "guard";
  scope = Scope.global;
  scope_id = none;
  rule_type = rule_type;
  config_json = config;
  enforcement = Enforcement.hard;
  active = true;
  created_by_actor = none;
}

-- At most eight cores.
abbrev pub core_policy : Policy
core_policy = policy_for RuleType.max_vcpu (record no_config { max_vcpu = some (pos 8) })

-- A policy of another tenant, which allows no core.
abbrev pub foreign_policy : Policy
foreign_policy =
    record (policy_for RuleType.max_vcpu (record no_config { max_vcpu = some (pos 1) })) {
      id = 21;
      scope = Scope.tenant;
      scope_id = some 11;
    }

abbrev pub five_core_parameters : Parameters
five_core_parameters = record {
  timeout_seconds = none;
  requested_resources = some five_cores;
  spark_conf = none;
  golden_path = some "small";
  release_label = some "emr-7.0";
  security_configuration_id = none;
}

abbrev pub request : RunCreateRequest
request = record {
  args = none;
  spark_conf = some (("spark.executor.cores", "2") ∷ []);
  golden_path = none;
  requested_resources = record {
    driver_vcpu = 1;
    driver_memory_gb = 4;
    executor_vcpu = 2;
    executor_memory_gb = 8;
    executor_instances = 2;
  };
  timeout_seconds = none;
}

-- One run is active.
abbrev pub db : Db
db = record {
  jobs = job ∷ [];
  environments = env ∷ [];
  golden_paths = [];
  policies = core_policy ∷ foreign_policy ∷ [];
  runs = queued_run ∷ [];
  operations = [];
  audit = [];
}

abbrev pub throttled : Fault
throttled = record {
  kind = FaultKind.client_error;
  class_name = "ClientError";
  message = "Rate exceeded";
  aws_code = some "ThrottlingException";
}

abbrev pub started : Dispatch
started = record {
  job_id = "jr-1";
  log_group = some "/spark";
  log_stream_prefix = some "7";
  driver_log_uri = none;
  spark_ui_uri = none;
  aws_request_id = some "req-1";
}

abbrev pub working_clients : Clients
working_clients = record {
  start_emr_eks = λ _ _ _. returned started;
  start_emr_serverless = λ _ _ _. returned started;
  start_emr_ec2 = λ _ _ _. returned started;
  submit_databricks = λ _ _ _. returned started;
}

abbrev pub throttled_clients : Clients
throttled_clients = record {
  start_emr_eks = λ _ _ _. raised throttled;
  start_emr_serverless = λ _ _ _. raised throttled;
  start_emr_ec2 = λ _ _ _. raised throttled;
  submit_databricks = λ _ _ _. raised throttled;
}

abbrev pub preflight_of : Bool → Environment → Uuid → List (String × String) → Attempt Report
preflight_of ready e id conf = returned (record { run_id = some id; is_ready = ready; checks = [] })

abbrev pub no_ledger : Ledger
no_ledger = record { usage = []; allocations = [] }

abbrev pub session : Session
session = record { audit = []; ledger = no_ledger; diagnostics = [] }

abbrev pub price : Architecture → ℕ → ℕ → Attempt ℕ
price arch vcpu_seconds memory_gb_seconds = returned vcpu_seconds

abbrev pub outside_with : Attempt (EmrState × Option String) → Attempt (Option String) → Outside
outside_with described cancelled = record {
  dry_run_mode = false;
  submitted_stale_minutes = 30;
  accepted_stale_minutes = 60;
  build_preflight = preflight_of true;
  connect = λ _. returned tt;
  describe = λ _ _. described;
  cancel = λ _ _. cancelled;
  price = price;
  cost_center = λ _. returned "cc-1";
  billing_period = λ _. "2025-01";
  diagnose = λ _ _. [];
}

abbrev pub settings : Settings
settings = record { enable_full_byoc_mode = true; has_terraform_root = true; dry_run_mode = false }

abbrev pub full_request : EnvironmentCreateRequest
full_request = record {
  tenant_id = 10;
  engine = Engine.emr_on_eks;
  provisioning_mode = ProvisioningMode.full;
  region = "us-east-1";
  instance_architecture = Architecture.mixed;
  customer_role_arn = "arn:aws:iam::123456789012:role/pilot";
  eks_cluster_arn = none;
  eks_namespace = none;
  warm_pool_enabled = false;
  lake_formation_enabled = false;
  security_configuration_id = none;
  max_concurrent_runs = 2;
  max_vcpu = 16;
  max_run_seconds = 7200;
}

abbrev pub tenants : List Tenant
tenants = (record { id = 10; name = "acme"; federation_type = "oidc" }) ∷ []
