-- ===== src/Workers/Cloud.antt =====
-- What the reconciler (src/sparkpilot/services/workers_reconciliation.py) asks the cloud and other
-- services, and the session that it writes.
use spark_pilot.Prelude.{ℕ, String, Bool, not, Option, List, Dict, is_blank, get_or}
use spark_pilot.Models.{Uuid, Time, Run, RunState, Environment, Architecture, AuditEvent}
use spark_pilot.Preflight.Checks.{Report}
use spark_pilot.Finops.Usage.{Ledger}
use spark_pilot.Workers.Faults.{Attempt}

-- The keys of `EMR_TO_PLATFORM_STATE`, and any other text.
pub data EmrState : Type 0 where
  pending submitted running completed failed cancelled cancel_pending : EmrState
  other : String → EmrState

abbrev pub emr_text : EmrState → String
emr_text EmrState.pending = "PENDING"
emr_text EmrState.submitted = "SUBMITTED"
emr_text EmrState.running = "RUNNING"
emr_text EmrState.completed = "COMPLETED"
emr_text EmrState.failed = "FAILED"
emr_text EmrState.cancelled = "CANCELLED"
emr_text EmrState.cancel_pending = "CANCEL_PENDING"
emr_text (EmrState.other s) = s

-- `EMR_TO_PLATFORM_STATE.get(emr_state, "failed")`
abbrev pub platform_state : EmrState → RunState
platform_state EmrState.pending = RunState.accepted
platform_state EmrState.submitted = RunState.accepted
platform_state EmrState.running = RunState.running
platform_state EmrState.completed = RunState.succeeded
platform_state EmrState.failed = RunState.failed
platform_state EmrState.cancelled = RunState.cancelled
platform_state EmrState.cancel_pending = RunState.running
platform_state (EmrState.other s) = RunState.failed

-- What the session holds while a run is reconciled.
pub record Session : Type 0 where
  pub audit : List AuditEvent
  pub ledger : Ledger
  pub diagnostics : List (Uuid × String)

-- The settings that the reconciler reads, and the calls that leave the program.
pub record Outside : Type 0 where
  pub dry_run_mode : Bool
  pub submitted_stale_minutes : ℕ
  pub accepted_stale_minutes : ℕ
  pub build_preflight : Environment → Uuid → Dict String → Attempt Report
  pub connect : Environment → Attempt (Unit {0})
  pub describe : Environment → Run → Attempt (EmrState × Option String)
  pub cancel : Environment → Run → Attempt (Option String)
  pub price : Architecture → (vcpu_seconds memory_gb_seconds : ℕ) → Attempt ℕ
  pub cost_center : Environment → Attempt String
  pub billing_period : Time → String
  pub diagnose : Run → Environment → List String

abbrev pub truthy : Option String → Bool
truthy o = not (is_blank (get_or o ""))
