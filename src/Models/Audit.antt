-- ===== src/Models/Audit.antt =====
-- `models.AuditEvent` and `write_audit_event` (src/sparkpilot/audit.py). The details are the values
-- that the call sites put into the dict, one constructor for each kind of call.
use spark_pilot.Prelude.{ℕ, String, Bool, Option, List, [], ◌∷◌, ◌++◌}
use spark_pilot.Models.States.{
  Uuid, Time, RunState, Engine, EnvironmentStatus, ProvisioningMode, Architecture,
}
use spark_pilot.Models.Accounts.{IdentityRole}
use spark_pilot.Models.Checkpoints.{Checkpoint}
use spark_pilot.Models.Policies.{RuleType, Enforcement}

pub data Details : Type 0 where
  no_details : Details
  policy_evaluated : String → RuleType → Enforcement → Bool → Uuid → Details
  policy_written : String → RuleType → Details
  preflight : (ready : Bool) → List String → Uuid → Details
  error : String → Option String → Details
  retry : String → Option String → (attempt max_attempts : ℕ) → Details
  dispatch_failure : String → Option String → (transient : Bool) → Details
  dispatched : Option String → Details
  reconciled : String → RunState → Details
  created : String → Details
  request : Option String → Details
  stage_checkpoint : (operation_id : Uuid) → Checkpoint → Details
  provisioned : (eks_cluster_arn emr_virtual_cluster_id : Option String) → Details
  dry_run_provisioned : Engine → Details
  operation : Option Uuid → Details
  environment_status : EnvironmentStatus → Details
  cost_reconciliation : (changed : ℕ) → (query_execution_id database table : String) → Details
  tenant_created : (name federation_type : String) → Details
  team_created : String → Details
  identity_written :
      (actor : String)
      → IdentityRole
      → (tenant_id team_id : Option Uuid) → (active : Bool) → Details
  scope_written : (team_id : Uuid) → (team_name : String) → (environment_id : Uuid) → Details
  invited : (email : String) → (expires_at : Time) → Details
  login_completed : (email : String) → Details
  mapped_user : Uuid → Details
  invite_delivery : (email provider : String) → Option String → Details
  environment_created :
      Engine
      → (region : String) → ProvisioningMode
      → Architecture
      → (eks_cluster_arn eks_namespace : String) → (warm_pool_enabled : Bool)
      → (max_concurrent_runs max_vcpu max_run_seconds : ℕ) → Details
  lite_identity : (identity_mode : String) → (addon_version : Option String) → Details
  lite_result : (eks_cluster_arn eks_namespace : Option String) → (outcome : String) → Details
  lite_collision :
      (eks_cluster_arn eks_namespace : Option String) → (cluster_id name state : String) → Details
  job_created : (name artifact_uri artifact_digest : String) → Details
  invite_failure : (email provider error_type : String) → Details

pub record AuditEvent : Type 0 where
  pub tenant_id : Option Uuid
  pub actor : String
  pub action : String
  pub source_ip : Option String
  pub entity_type : String
  pub entity_id : Uuid
  pub details_json : Details
  pub aws_request_id : Option String

-- `db.add(event)`: the log only grows, at its end.
abbrev pub write_audit_event : AuditEvent → List AuditEvent → List AuditEvent
write_audit_event event log = log ++ event ∷ []
