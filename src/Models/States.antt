-- ===== src/Models/States.antt =====
-- The texts of the state columns, as enumerations. A column that may hold any text keeps it in `other`.
use spark_pilot.Prelude.{ℕ, String, Bool, true, false}

abbrev pub Uuid : Type 0
Uuid = ℕ

abbrev pub Time : Type 0
Time = ℕ

-- The values that the program writes to `runs.state`.
pub data RunState : Type 0 where
  queued dispatching accepted running succeeded failed cancelled timed_out : RunState

-- `TERMINAL_RUN_STATES`
abbrev pub is_terminal : RunState → Bool
is_terminal RunState.succeeded = true
is_terminal RunState.failed = true
is_terminal RunState.cancelled = true
is_terminal RunState.timed_out = true
is_terminal _ = false

-- `ACTIVE_RUN_STATES`
abbrev pub is_active : RunState → Bool
is_active RunState.queued = true
is_active RunState.dispatching = true
is_active RunState.accepted = true
is_active RunState.running = true
is_active _ = false

pub data EnvironmentStatus : Type 0 where
  provisioning ready degraded upgrading deleting deleted failed : EnvironmentStatus

pub data Engine : Type 0 where
  emr_on_eks emr_serverless emr_on_ec2 databricks : Engine
  other : String → Engine

pub data ProvisioningMode : Type 0 where
  byoc_lite full : ProvisioningMode
  other : String → ProvisioningMode

pub data Architecture : Type 0 where
  x86_64 arm64 mixed : Architecture

-- `PROVISIONING_STEPS` with the states around them: the values of `state` and `step`.
pub data OperationState : Type 0 where
  queued : OperationState
  provisioning_network provisioning_eks provisioning_emr : OperationState
  validating_bootstrap validating_runtime : OperationState
  ready failed : OperationState
