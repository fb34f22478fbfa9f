-- ===== src/Models/Checkpoints.antt =====
-- The checkpoint of a full BYOC provisioning (src/sparkpilot/services/workers_provisioning.py), which
-- the audit log carries. An artifact keeps its stage, attempt, kind and result.
use spark_pilot.Prelude.{ℕ, String, Bool, Option, List}

-- `PROVISIONING_STEPS`, in their order
pub data Stage : Type 0 where
  provisioning_network provisioning_eks provisioning_emr : Stage
  validating_bootstrap validating_runtime : Stage

pub data ArtifactKind : Type 0 where
  plan apply validation : ArtifactKind

pub record Artifact : Type 0 where
  pub stage : Stage
  pub attempt : ℕ
  pub kind : ArtifactKind
  pub succeeded : Bool
  pub error : Option String

pub record Checkpoint : Type 0 where
  pub terraform_workspace : Option String
  pub terraform_state_key : Option String
  pub last_successful_stage : Option Stage
  pub attempt_count_by_stage : Stage → ℕ
  pub artifacts : List Artifact
