-- ===== src/Provisioning/Tests.antt =====
-- The provisioning worker on concrete operations.
use spark_pilot.Prelude.{ℕ, ◌<◌, ◌≡◌, ◌⊎◌, refl, true, false, none, some, [], ◌∷◌, arith}
use spark_pilot.Models.{
  Environment, EnvironmentStatus, ProvisioningMode, ProvisioningOperation, OperationState, Stage,
  Checkpoint, AuditEvent,
}
use spark_pilot.Workers.Faults.{Attempt, returned}
use spark_pilot.Provisioning.Checkpoints.{
  index, new_checkpoint, newest_first, first_checkpoint, checkpoint_resume_index,
  full_byoc_start_index, load_full_byoc_checkpoint, write_full_byoc_checkpoint,
}
use spark_pilot.Provisioning.Stages.{run_full_byoc_provisioning}
use spark_pilot.Provisioning.Validations.{Output, Terraform, TerraformResult, Checker, Work, give}
use spark_pilot.Provisioning.Process.{LiteSetup, process_operation}
use spark_pilot.Provisioning.Settled.{EndsAs, EndsReady, operation_is_settled}
use spark_pilot.Provisioning.Resume.{resume_repeats_no_stage}
use spark_pilot.Provisioning.Outputs.{network_stage_fails}
use spark_pilot.Samples.{env}

abbrev full_env : Environment
full_env = record env { provisioning_mode = ProvisioningMode.full; emr_virtual_cluster_id = none }

abbrev operation : ProvisioningOperation
operation = record {
  id = 30;
  environment_id = 1;
  state = OperationState.queued;
  step = OperationState.queued;
  message = none;
  ended_at = none;
  idempotency_key = "env";
  worker_claim_token = some "worker:1";
  worker_claimed_at = some 1000;
  created_at = 0;
}

abbrev fresh : Work
fresh = record { environment = full_env; operation = operation; audit = [] }

-- The network stage has a VPC to tell of, and no cluster yet.
abbrev network_outputs : TerraformResult
network_outputs = record {
  succeeded = true;
  failure = "";
  error = none;
  outputs = ("vpc_id", Output.plain "vpc-1") ∷ [];
}

abbrev terraform : Terraform
terraform = record {
  build_stage_context = λ _ _ _. returned ("workspace", "state");
  plan = λ _ _. returned network_outputs;
  apply = λ _ _. returned network_outputs;
}

abbrev checker : Checker
checker = record {
  dry_run_mode = false;
  dry_run_outputs = λ _. returned ("eks", "vc");
  virtual_cluster_namespace = λ _ _. returned "spark";
  oidc_associated = λ _. returned true;
  check_trust_policy = λ _. returned tt;
  dispatch_and_pass_role = λ _. returned (true, true);
  build_preflight = λ _ _. returned (record { run_id = none; is_ready = true; checks = [] });
}

abbrev setup : LiteSetup
setup = record { oidc_and_trust_setup = give tt; virtual_cluster_creation = give tt }

operation_is_settled_example :
    let w' = process_operation "worker" 2000 terraform checker setup fresh in
    (EndsReady 2000 w' ⊎ EndsAs EnvironmentStatus.failed OperationState.failed 2000 w')
    × (w'.operation.worker_claim_token ≡ none)
    × (w'.operation.worker_claimed_at ≡ none)
operation_is_settled_example = operation_is_settled "worker" 2000 terraform checker setup fresh

abbrev after_eks : Checkpoint
after_eks = record new_checkpoint { last_successful_stage = some Stage.provisioning_eks }

abbrev resumed : Work
resumed = record fresh { audit = write_full_byoc_checkpoint "worker" full_env 30 after_eks [] }

-- Another Terraform, whose network stage would raise.
abbrev plan_later : Stage → ℕ → Attempt TerraformResult
plan_later Stage.provisioning_network n = returned (record network_outputs { succeeded = false })
plan_later stage n = returned network_outputs

abbrev other : Terraform
other = record terraform { plan = plan_later }

agree_later :
    (stage : Stage)
    → index Stage.provisioning_eks < index stage
    → ((n : ℕ) (e : Environment)
        → terraform.build_stage_context stage n e ≡ other.build_stage_context stage n e)
      × ((n : ℕ) → terraform.plan stage n ≡ other.plan stage n)
      × ((n : ℕ) → terraform.apply stage n ≡ other.apply stage n)
agree_later Stage.provisioning_network h = absurd (omega arith)
agree_later Stage.provisioning_eks h = absurd (omega arith)
agree_later Stage.provisioning_emr h = (λ n e. refl, λ n. refl, λ n. refl)
agree_later Stage.validating_bootstrap h = (λ n e. refl, λ n. refl, λ n. refl)
agree_later Stage.validating_runtime h = (λ n e. refl, λ n. refl, λ n. refl)

resume_repeats_no_stage_example :
    run_full_byoc_provisioning "worker" 2000 terraform checker resumed
    ≡ run_full_byoc_provisioning "worker" 2000 other checker resumed
unfolding load_full_byoc_checkpoint write_full_byoc_checkpoint newest_first first_checkpoint
resume_repeats_no_stage_example =
    resume_repeats_no_stage "worker" 2000 terraform other checker resumed Stage.provisioning_eks
      refl agree_later

network_stage_fails_example :
    let w' = process_operation "worker" 2000 terraform checker setup fresh in
    (w'.environment.status ≡ EnvironmentStatus.failed)
    × ((event : AuditEvent) × (w'.audit ≡ event ∷ [])
        × (event.action ≡ "environment.provisioning_failed"))
unfolding load_full_byoc_checkpoint newest_first first_checkpoint checkpoint_resume_index
    full_byoc_start_index
network_stage_fails_example =
    network_stage_fails "worker" 2000 terraform checker setup fresh ("workspace", "state")
      network_outputs network_outputs refl refl refl refl refl refl refl refl refl refl refl
