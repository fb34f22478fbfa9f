-- ===== src/Models/Rows.antt =====
-- The rows that the services read and write: `models.Environment`, `Job`, `GoldenPath`, `Run`.
-- `updated_at` and the columns that only the API shows are left out.
use spark_pilot.Prelude.{ℕ, String, Bool, Option, List, Dict}
use spark_pilot.Models.States.{
  Uuid, Time, RunState, EnvironmentStatus, Engine, ProvisioningMode, Architecture, OperationState,
}
use spark_pilot.Models.Sizes.{Resources}
use spark_pilot.Models.Messages.{Message}

pub record Environment : Type 0 where
  pub id : Uuid
  pub tenant_id : Uuid
  pub region : String
  pub engine : Engine
  pub provisioning_mode : ProvisioningMode
  pub status : EnvironmentStatus
  pub instance_architecture : Architecture
  pub customer_role_arn : String
  pub eks_cluster_arn : Option String
  pub eks_namespace : Option String
  pub emr_virtual_cluster_id : Option String
  pub max_concurrent_runs : ℕ
  pub max_vcpu : ℕ
  pub max_run_seconds : ℕ
  pub spark_history_server_url : Option String
  pub lake_formation_enabled : Bool
  pub identity_mode : Option String
  pub security_configuration_id : Option String

pub record Job : Type 0 where
  pub id : Uuid
  pub environment_id : Uuid
  pub name : String
  pub artifact_uri : String
  pub artifact_digest : String
  pub entrypoint : String
  pub args_json : List String
  pub spark_conf_json : Dict String
  pub retry_max_attempts : ℕ
  pub timeout_seconds : ℕ

pub record GoldenPath : Type 0 where
  pub id : Uuid
  pub environment_id : Option Uuid
  pub name : String
  pub spark_conf_json : Dict String
  pub requested_resources_json : Resources
  pub instance_architecture : Architecture
  pub max_runtime_minutes : ℕ

pub record Run : Type 0 where
  pub id : Uuid
  pub job_id : Uuid
  pub environment_id : Uuid
  pub state : RunState
  pub attempt : ℕ
  pub idempotency_key : String
  pub requested_resources_json : Resources
  pub args_overrides_json : List String
  pub spark_conf_overrides_json : Dict String
  pub timeout_seconds : ℕ
  pub emr_job_run_id : Option String
  pub backend_job_run_id : Option String
  pub cancellation_requested : Bool
  pub log_group : Option String
  pub log_stream_prefix : Option String
  pub driver_log_uri : Option String
  pub spark_ui_uri : Option String
  pub created_by_actor : Option String
  pub worker_claim_token : Option String
  pub worker_claimed_at : Option Time
  pub error_message : Option Message
  pub started_at : Option Time
  pub last_heartbeat_at : Option Time
  pub ended_at : Option Time
  pub created_at : Time

pub record ProvisioningOperation : Type 0 where
  pub id : Uuid
  pub environment_id : Uuid
  pub state : OperationState
  pub step : OperationState
  pub message : Option Message
  pub ended_at : Option Time
  pub idempotency_key : String
  pub worker_claim_token : Option String
  pub worker_claimed_at : Option Time
  pub created_at : Time
