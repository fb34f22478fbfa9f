-- ===== src/Provisioning/Stages.antt =====
-- One stage of a full BYOC provisioning, and the loop over the stages.
use spark_pilot.Prelude.{
  ℕ, ◌+◌, String, Bool, true, false, ◌||◌, Option, none, some, List, [], ◌∷◌, Dict, update, get_or,
  drop, is_empty, str_append, if◌then◌else◌,
}
use spark_pilot.Models.{
  Time, ProvisioningOperation, Stage, Artifact, ArtifactKind, Checkpoint, validation_attempt,
  terraform_attempt, step_validated,
}
use spark_pilot.Workers.Faults.{FaultKind, Attempt, raised, returned}
use spark_pilot.Provisioning.Checkpoints.{
  steps, state_of, set_attempt, checkpoint_with_updates, record_artifact,
  write_full_byoc_checkpoint, load_full_byoc_checkpoint, checkpoint_resume_index,
}
use spark_pilot.Provisioning.Validations.{
  Output, TerraformResult, Terraform, Checker, Work, Call, value_error, give, fail_with, ask,
  missing, assign_full_byoc_outputs, run_full_byoc_bootstrap_validation,
  run_full_byoc_runtime_validation, ◌>=>◌,
}

-- The stage's checkpoint where it fails, and the heartbeat that is committed with it.
abbrev pub set_operation : (ProvisioningOperation → ProvisioningOperation) → Work → Work
set_operation f w = record w { operation = f w.operation }

abbrev pub beat : Time → Work → Work
beat now w = set_operation (λ op. record op { worker_claimed_at = some now }) w

abbrev pub save_checkpoint : (actor : String) → Checkpoint → Work → Work
save_checkpoint actor checkpoint w = record w {
  audit = write_full_byoc_checkpoint actor w.environment w.operation.id checkpoint w.audit;
}

abbrev pub stage_text : Stage → String
stage_text Stage.provisioning_network = "provisioning_network"
stage_text Stage.provisioning_eks = "provisioning_eks"
stage_text Stage.provisioning_emr = "provisioning_emr"
stage_text Stage.validating_bootstrap = "validating_bootstrap"
stage_text Stage.validating_runtime = "validating_runtime"

abbrev pub artifact_of : Stage → ℕ → ArtifactKind → Bool → Option String → Artifact
artifact_of stage attempt kind succeeded error = record {
  stage = stage;
  attempt = attempt;
  kind = kind;
  succeeded = succeeded;
  error = error;
}

module _ (actor : String) (now : Time) (terraform : Terraform) (checker : Checker) where
  -- `_record_full_byoc_stage_failure`
  unfoldable pub record_stage_failure :
      Stage → (attempt : ℕ) → (phase message : String) → Checkpoint → {A : Type 0} → Call A
  record_stage_failure stage attempt phase message checkpoint w = (
    beat now (
        save_checkpoint actor
          (checkpoint_with_updates checkpoint
            (set_attempt stage attempt checkpoint.attempt_count_by_stage)
            checkpoint.last_successful_stage none none)
          w),
    raised (
        value_error (
          str_append "Full BYOC stage '" (
            str_append (stage_text stage)
              (str_append "' " (str_append phase (str_append " failed: " message)))))),
  )

  abbrev pub next_attempt : Stage → Checkpoint → ℕ
  next_attempt stage checkpoint = checkpoint.attempt_count_by_stage stage + 1

  -- What a stage that succeeds leaves.
  abbrev pub succeed : Stage → (workspace state_key : Option String) → Checkpoint → Checkpoint
  succeed stage workspace state_key checkpoint =
      checkpoint_with_updates checkpoint
        (set_attempt stage (next_attempt stage checkpoint) checkpoint.attempt_count_by_stage)
        (some stage) workspace state_key

  abbrev pub validate : Stage → Call (Unit {0})
  validate Stage.validating_bootstrap = run_full_byoc_bootstrap_validation checker
  validate Stage.validating_runtime = run_full_byoc_runtime_validation checker
  validate _ = fail_with "Unsupported full-BYOC validation step"

  -- A value error of a validation fails the stage, any other error the provisioning.
  abbrev pub after_validation :
      Stage → Checkpoint → Work × Attempt (Unit {0}) → Work × Attempt (Checkpoint × Dict Output)
  after_validation stage checkpoint (w, raised fault) = elim fault.kind [
    | FaultKind.value_error ↦
        record_stage_failure stage (next_attempt stage checkpoint) "validation" fault.message
          (record_artifact
            (artifact_of stage (next_attempt stage checkpoint) ArtifactKind.validation false
              (some fault.message))
            checkpoint)
          w
    | _ ↦ (w, raised fault)
  ]
  after_validation stage checkpoint (w, returned done) = (
    set_operation (λ op. record op { message = some (step_validated (state_of stage)) }) w,
    returned (
      succeed stage none none (
          record_artifact
            (artifact_of stage (next_attempt stage checkpoint) ArtifactKind.validation true none)
            checkpoint),
      [],
    ),
  )

  unfoldable pub validation_stage : Stage → Checkpoint → Call (Checkpoint × Dict Output)
  validation_stage stage checkpoint w = after_validation stage checkpoint (
      validate stage (
        set_operation
          (λ op. record op {
            message = some (validation_attempt (state_of stage) (next_attempt stage checkpoint));
          })
          w))

  abbrev pub failure_of : TerraformResult → String
  failure_of result = get_or result.error result.failure

  abbrev pub terraform_checkpoint : Stage → ArtifactKind → TerraformResult → Checkpoint → Checkpoint
  terraform_checkpoint stage kind result checkpoint =
      record_artifact
        (artifact_of stage (next_attempt stage checkpoint) kind result.succeeded result.error)
        checkpoint

  abbrev pub after_apply :
      Stage → String × String → Checkpoint → TerraformResult → Call (Checkpoint × Dict Output)
  after_apply stage (workspace, state_key) checkpoint result =
      let checkpoint' = terraform_checkpoint stage ArtifactKind.apply result checkpoint in
      if result.succeeded
      then give (succeed stage (some workspace) (some state_key) checkpoint', result.outputs)
      else record_stage_failure stage (next_attempt stage checkpoint) "apply" (failure_of result)
          checkpoint'

  abbrev pub after_plan :
      Stage → String × String → Checkpoint → TerraformResult → Call (Checkpoint × Dict Output)
  after_plan stage context checkpoint result =
      let checkpoint' = terraform_checkpoint stage ArtifactKind.plan result checkpoint in
      if result.succeeded
      then (ask (λ _. terraform.apply stage (next_attempt stage checkpoint))
          >=> after_apply stage context checkpoint')
      else record_stage_failure stage (next_attempt stage checkpoint) "plan" (failure_of result)
          checkpoint'

  abbrev pub announce : Stage → Checkpoint → Call (Unit {0})
  announce stage checkpoint w = (
    set_operation
        (λ op. record op {
          message = some (terraform_attempt (state_of stage) (next_attempt stage checkpoint));
        })
        w,
    returned tt,
  )

  unfoldable pub terraform_stage : Stage → Checkpoint → Call (Checkpoint × Dict Output)
  terraform_stage stage checkpoint =
      ask (terraform.build_stage_context stage (next_attempt stage checkpoint)) >=> λ context.
      announce stage checkpoint >=> λ _.
      ask (λ _. terraform.plan stage (next_attempt stage checkpoint))
      >=> after_plan stage context checkpoint

  -- `FULL_BYOC_TERRAFORM_STAGES`
  abbrev pub stage_body : Stage → Checkpoint → Call (Checkpoint × Dict Output)
  stage_body Stage.validating_bootstrap = validation_stage Stage.validating_bootstrap
  stage_body Stage.validating_runtime = validation_stage Stage.validating_runtime
  stage_body stage = terraform_stage stage

  -- `_run_full_byoc_step`
  unfoldable pub run_full_byoc_step : Stage → Checkpoint → Call (Checkpoint × Dict Output)
  run_full_byoc_step stage checkpoint w =
      stage_body stage checkpoint
        (set_operation (λ op. record op { state = state_of stage; step = state_of stage }) w)

  -- What follows a stage that returned: its outputs go to the environment, its checkpoint to the log.
  abbrev pub keep_outputs : Dict Output → Dict Output → Call (Dict Output)
  keep_outputs gathered outputs w =
      if is_empty outputs
      then give gathered w
      else (assign_full_byoc_outputs checker (update gathered outputs) >=> λ _.
            give (update gathered outputs))
          w

  abbrev pub commit_stage : Checkpoint → Dict Output → Call (Dict Output)
  commit_stage checkpoint gathered w =
      (beat now (save_checkpoint actor checkpoint w), returned gathered)

  -- The loop over the stages that are left.
  unfoldable pub run_stages : List Stage → Checkpoint → Dict Output → Call (Dict Output)
  run_stages [] checkpoint gathered w = give gathered w
  run_stages (stage ∷ stages) checkpoint gathered w =
      (run_full_byoc_step stage checkpoint >=> λ done.
      keep_outputs gathered done.1 >=> commit_stage done.0 >=> run_stages stages done.0)
        w

  abbrev pub last_outputs : Dict Output → Call (Unit {0})
  last_outputs gathered w =
      if missing w.environment.eks_cluster_arn || missing w.environment.emr_virtual_cluster_id
      then assign_full_byoc_outputs checker gathered w
      else give tt w

  -- `_run_full_byoc_provisioning`
  unfoldable pub run_full_byoc_provisioning : Call (Unit {0})
  run_full_byoc_provisioning w =
      let checkpoint = load_full_byoc_checkpoint w.audit w.operation.id w.environment.id in
      (run_stages (drop (checkpoint_resume_index checkpoint w.operation) steps) checkpoint []
          >=> last_outputs)
        w
