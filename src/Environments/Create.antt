-- ===== src/Environments/Create.antt =====
-- `create_environment` and `create_job` of src/sparkpilot/services/crud.py. The settings and the
-- tenants are arguments, and so are the drawn identifiers. The environment's columns that
-- `models.Environment` of this library leaves out are left out of the request.
use spark_pilot.Prelude.{
  ℕ, String, Bool, true, false, not, Option, none, some, List, [], ◌∷◌, ◌++◌, get_or, is_blank,
  if◌then◌else◌,
}
use spark_pilot.Prelude.Table.{get_row}
use spark_pilot.Models.{
  Uuid, Time, Tenant, Job, Environment, EnvironmentStatus, Engine, ProvisioningMode, Architecture,
  ProvisioningOperation, OperationState, Details, environment_created, job_created,
  write_audit_event, queued_for_provisioning,
}
use spark_pilot.Errors.{Result, ok, conflict, validation, text, raise_if, ◌>>=◌, ◌>>◌}
use spark_pilot.Database.{Db, require_entity, require_environment}
use spark_pilot.Accounts.Tables.{tenant_key, event}
use spark_pilot.Environments.{environment_event, is_deleted}

pub record Settings : Type 0 where
  pub enable_full_byoc_mode : Bool
  -- `FULL_BYOC_TERRAFORM_ROOT.is_dir()`
  pub has_terraform_root : Bool
  pub dry_run_mode : Bool

pub record EnvironmentCreateRequest : Type 0 where
  pub tenant_id : Uuid
  pub engine : Engine
  pub provisioning_mode : ProvisioningMode
  pub region : String
  pub instance_architecture : Architecture
  pub customer_role_arn : String
  pub eks_cluster_arn : Option String
  pub eks_namespace : Option String
  pub warm_pool_enabled : Bool
  pub lake_formation_enabled : Bool
  pub security_configuration_id : Option String
  pub max_concurrent_runs : ℕ
  pub max_vcpu : ℕ
  pub max_run_seconds : ℕ

abbrev pub is_eks : Engine → Bool
is_eks Engine.emr_on_eks = true
is_eks _ = false

abbrev pub is_byoc_lite : ProvisioningMode → Bool
is_byoc_lite ProvisioningMode.byoc_lite = true
is_byoc_lite _ = false

abbrev pub is_full : ProvisioningMode → Bool
is_full ProvisioningMode.full = true
is_full _ = false

-- `not value`
abbrev pub is_missing : Option String → Bool
is_missing none = true
is_missing (some value) = is_blank value

abbrev pub refuse : Bool → String → Result (Unit {0})
refuse test detail = raise_if test (validation (text detail))

abbrev pub check_lite : Option String → Option String → Result (Unit {0})
check_lite eks_cluster_arn eks_namespace = do
  refuse (is_missing eks_cluster_arn) "eks_cluster_arn is required for byoc_lite."
  refuse (is_missing eks_namespace) "eks_namespace is required for byoc_lite."

abbrev pub new_environment : Uuid → EnvironmentCreateRequest → Environment
new_environment new_id req = record {
  id = new_id;
  tenant_id = req.tenant_id;
  region = req.region;
  engine = req.engine;
  provisioning_mode = req.provisioning_mode;
  status = EnvironmentStatus.provisioning;
  instance_architecture = req.instance_architecture;
  customer_role_arn = req.customer_role_arn;
  eks_cluster_arn = req.eks_cluster_arn;
  eks_namespace = req.eks_namespace;
  emr_virtual_cluster_id = none;
  max_concurrent_runs = req.max_concurrent_runs;
  max_vcpu = req.max_vcpu;
  max_run_seconds = req.max_run_seconds;
  spark_history_server_url = none;
  lake_formation_enabled = req.lake_formation_enabled;
  identity_mode = none;
  security_configuration_id = req.security_configuration_id;
}

abbrev pub first_operation : Uuid → Time → Uuid → (key : String) → ProvisioningOperation
first_operation op_id now new_id key = record {
  id = op_id;
  environment_id = new_id;
  state = OperationState.queued;
  step = OperationState.queued;
  message = some queued_for_provisioning;
  ended_at = none;
  idempotency_key = key;
  worker_claim_token = none;
  worker_claimed_at = none;
  created_at = now;
}

abbrev pub creation_details : EnvironmentCreateRequest → Details
creation_details req =
    environment_created req.engine req.region req.provisioning_mode req.instance_architecture
      (get_or req.eks_cluster_arn "") (get_or req.eks_namespace "") req.warm_pool_enabled
      req.max_concurrent_runs req.max_vcpu req.max_run_seconds

module _ (settings : Settings) where
  abbrev pub check_full : Result (Unit {0})
  check_full = do
    refuse (not settings.enable_full_byoc_mode)
        "Full provisioning mode is disabled for this deployment."
    refuse (not settings.has_terraform_root)
        "Full provisioning mode is unavailable for this deployment"

  abbrev pub check_other_engine : ProvisioningMode → Result (Unit {0})
  check_other_engine mode = do
    refuse (not settings.dry_run_mode)
        "Engine can only be created when SPARKPILOT_DRY_RUN_MODE=true."
    refuse (not (is_byoc_lite mode))
        "Engine only supports provisioning_mode=byoc_lite in dry-run mode."

  -- The checks of an engine and a mode; a text that names the engine is without it.
  unfoldable pub check_mode :
      Engine
      → ProvisioningMode
      → (eks_cluster_arn eks_namespace : Option String) → Result (Unit {0})
  check_mode engine mode eks_cluster_arn eks_namespace =
      if is_eks engine
      then (do
        (if is_byoc_lite mode then check_lite eks_cluster_arn eks_namespace else ok tt)
        (if is_full mode then check_full else ok tt))
      else check_other_engine mode

  unfoldable pub create_environment :
      (new_id op_id : Uuid)
      → Time
      → (actor : String) → Option String
      → (key : String) → EnvironmentCreateRequest
      → List Tenant
      → Db
      → Result ((Environment × ProvisioningOperation) × Db)
  create_environment new_id op_id now actor source_ip key req tenants db = do
    tenant ← require_entity (get_row tenant_key req.tenant_id tenants) "Tenant not found."
    check_mode req.engine req.provisioning_mode req.eks_cluster_arn req.eks_namespace
    let env = new_environment new_id req
    let op = first_operation op_id now new_id key
    ok (
      (env, op),
      record db {
        environments = db.environments ++ env ∷ [];
        operations = db.operations ++ op ∷ [];
        audit =
            write_audit_event
              (environment_event actor source_ip "environment.create" env (creation_details req))
              db.audit;
      },
    )

-- The request's fields are those of `job`, whose identifier is drawn.
unfoldable pub create_job : (actor : String) → Option String → Job → Db → Result (Job × Db)
create_job actor source_ip job db = do
  env ← require_environment db job.environment_id
  raise_if (is_deleted env.status) (conflict "Environment is deleted.")
  ok (
    job,
    record db {
      jobs = db.jobs ++ job ∷ [];
      audit =
          write_audit_event
            (event actor source_ip "job.create" "job" job.id (some env.tenant_id)
              (job_created job.name job.artifact_uri job.artifact_digest))
            db.audit;
    },
  )
