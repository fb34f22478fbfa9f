-- ===== src/Provisioning/Checkpoints.antt =====
-- Checkpoints: where a provisioning resumes, and how the audit log keeps them.
use spark_pilot.Prelude.{
  ℕ, ◌+◌, ◌-◌, String, Bool, ◌&&◌, ◌==◌, Option, none, some, List, [], ◌∷◌, ◌++◌, length, take,
  drop, filter, str_eq, if◌then◌else◌,
}
use spark_pilot.Models.{
  Uuid, Environment, ProvisioningOperation, OperationState, Stage, Artifact, Checkpoint, AuditEvent,
  Details, stage_checkpoint, write_audit_event,
}

abbrev pub steps : List Stage
steps =
    Stage.provisioning_network ∷ Stage.provisioning_eks ∷ Stage.provisioning_emr
    ∷ Stage.validating_bootstrap ∷ Stage.validating_runtime ∷ []

-- `PROVISIONING_STEPS.index(step)`
abbrev pub index : Stage → ℕ
index Stage.provisioning_network = 0
index Stage.provisioning_eks = 1
index Stage.provisioning_emr = 2
index Stage.validating_bootstrap = 3
index Stage.validating_runtime = 4

abbrev pub state_of : Stage → OperationState
state_of Stage.provisioning_network = OperationState.provisioning_network
state_of Stage.provisioning_eks = OperationState.provisioning_eks
state_of Stage.provisioning_emr = OperationState.provisioning_emr
state_of Stage.validating_bootstrap = OperationState.validating_bootstrap
state_of Stage.validating_runtime = OperationState.validating_runtime

abbrev pub stage_of : OperationState → Option Stage
stage_of OperationState.provisioning_network = some Stage.provisioning_network
stage_of OperationState.provisioning_eks = some Stage.provisioning_eks
stage_of OperationState.provisioning_emr = some Stage.provisioning_emr
stage_of OperationState.validating_bootstrap = some Stage.validating_bootstrap
stage_of OperationState.validating_runtime = some Stage.validating_runtime
stage_of _ = none

-- `_new_full_byoc_checkpoint`
abbrev pub new_checkpoint : Checkpoint
new_checkpoint = record {
  terraform_workspace = none;
  terraform_state_key = none;
  last_successful_stage = none;
  attempt_count_by_stage = λ _. 0;
  artifacts = [];
}

abbrev pub or_index : Option Stage → ℕ → ℕ
or_index none n = n
or_index (some stage) n = index stage

-- `_full_byoc_start_index`
unfoldable pub full_byoc_start_index : ProvisioningOperation → ℕ
full_byoc_start_index op = or_index (stage_of op.step) (or_index (stage_of op.state) 0)

-- `_checkpoint_resume_index`
abbrev pub resume_after : Option Stage → ProvisioningOperation → ℕ
resume_after none op = full_byoc_start_index op
resume_after (some last) op = index last + 1

unfoldable pub checkpoint_resume_index : Checkpoint → ProvisioningOperation → ℕ
checkpoint_resume_index checkpoint op = resume_after checkpoint.last_successful_stage op

abbrev pub set_attempt : Stage → ℕ → (Stage → ℕ) → Stage → ℕ
set_attempt stage n attempts other = if index stage == index other then n else attempts other

abbrev pub or_kept : Option String → Option String → Option String
or_kept none kept = kept
or_kept (some new) kept = some new

-- `_checkpoint_with_updates`
unfoldable pub checkpoint_with_updates :
    Checkpoint
    → (attempts : Stage → ℕ) → (last_successful_stage : Option Stage)
    → (workspace state_key : Option String) → Checkpoint
checkpoint_with_updates checkpoint attempts last_successful_stage workspace state_key = record {
  terraform_workspace = or_kept workspace checkpoint.terraform_workspace;
  terraform_state_key = or_kept state_key checkpoint.terraform_state_key;
  last_successful_stage = last_successful_stage;
  attempt_count_by_stage = attempts;
  artifacts = checkpoint.artifacts;
}

-- `artifacts[-40:]` where there are more than 40
abbrev pub last_forty : List Artifact → List Artifact
last_forty artifacts = drop (length artifacts - 40) artifacts

-- `_record_full_byoc_stage_artifact`, `_record_full_byoc_validation_artifact`
unfoldable pub record_artifact : Artifact → Checkpoint → Checkpoint
record_artifact artifact checkpoint = record checkpoint {
  artifacts = last_forty (checkpoint.artifacts ++ artifact ∷ []);
}

abbrev pub is_checkpoint_event : Uuid → AuditEvent → Bool
is_checkpoint_event env_id e =
    str_eq e.action "environment.full_byoc_checkpoint"
    && str_eq e.entity_type "environment"
    && e.entity_id == env_id

abbrev pub checkpoint_in : Uuid → Details → Option Checkpoint
checkpoint_in op_id (stage_checkpoint id checkpoint) = if id == op_id then some checkpoint else none
checkpoint_in op_id _ = none

-- `ORDER BY created_at DESC`
unfoldable pub newest_first : List AuditEvent → List AuditEvent
newest_first [] = []
newest_first (e ∷ log) = newest_first log ++ e ∷ []

abbrev pub or_next : Option Checkpoint → Checkpoint → Checkpoint
or_next none next = next
or_next (some checkpoint) next = checkpoint

unfoldable pub first_checkpoint : Uuid → List AuditEvent → Checkpoint
first_checkpoint op_id [] = new_checkpoint
first_checkpoint op_id (e ∷ events) =
    or_next (checkpoint_in op_id e.details_json) (first_checkpoint op_id events)

-- `_load_full_byoc_checkpoint`
unfoldable pub load_full_byoc_checkpoint : List AuditEvent → (op_id env_id : Uuid) → Checkpoint
load_full_byoc_checkpoint log op_id env_id =
    first_checkpoint op_id (take 25 (newest_first (filter (is_checkpoint_event env_id) log)))

-- `_write_full_byoc_checkpoint`
unfoldable pub write_full_byoc_checkpoint :
    (actor : String) → Environment → (op_id : Uuid) → Checkpoint → List AuditEvent → List AuditEvent
write_full_byoc_checkpoint actor env op_id checkpoint log =
    write_audit_event
      (record {
        tenant_id = some env.tenant_id;
        actor = actor;
        action = "environment.full_byoc_checkpoint";
        source_ip = none;
        entity_type = "environment";
        entity_id = env.id;
        details_json = stage_checkpoint op_id checkpoint;
        aws_request_id = none;
      })
      log
