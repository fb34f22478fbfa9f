-- ===== src/Models/Messages.antt =====
-- The texts that the program formats, by what they are formatted from.
use spark_pilot.Prelude.{ℕ, String, List}
use spark_pilot.Models.States.{OperationState}

-- Messages of the policy evaluators.
pub data PolicyMessage : Type 0 where
  no_effective_limit : PolicyMessage
  within_limit exceeds_limit : ℕ → ℕ → PolicyMessage
  no_required_tags all_tags_present : PolicyMessage
  missing_tags : List String → PolicyMessage
  no_restriction not_specified required_by_policy : PolicyMessage
  is_allowed not_allowed : String → PolicyMessage

-- `error_message(exc, include_type=...)`: with or without the class name in front.
pub data Message : Type 0 where
  text : String → Message
  typed : String → String → Message
  retry_scheduled : (previous_attempt max_attempts : ℕ) → String → (attempt : ℕ) → Message
  preflight_failed : List String → Message
  timeout_exceeded : Message
  submitted_stale accepted_stale : (minutes : ℕ) → Message
  queued_for_provisioning queued_for_retry : Message
  validating_lite lite_ready environment_ready dry_run_ready : Message
  validation_attempt terraform_attempt : OperationState → (attempt : ℕ) → Message
  step_validated : OperationState → Message
