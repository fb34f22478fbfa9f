-- ===== src/Provisioning/Outputs.antt =====
-- The outputs that a Terraform stage has to have.
use spark_pilot.Prelude.{
  ℕ, ◌+◌, ◌≡◌, refl, ap, sym, subst, ◌∙◌, String, Bool, true, false, none, some, List, [], ◌∷◌,
  ◌++◌, Dict, update, is_empty, is_blank, if◌then◌else◌, drop, starts_with, Bool-cases, inl, inr,
  ◌&&◌,
}
use spark_pilot.Models.{
  Time, Stage, Checkpoint, AuditEvent, EnvironmentStatus, ProvisioningMode, environment_ready,
  error,
}
use spark_pilot.Workers.Faults.{Fault, Attempt, raised, returned}
use spark_pilot.Provisioning.Checkpoints.{steps, load_full_byoc_checkpoint, checkpoint_resume_index}
use spark_pilot.Provisioning.Stages.{
  last_outputs, terraform_stage, run_full_byoc_step, run_stages, run_full_byoc_provisioning,
}
use spark_pilot.Provisioning.Validations.{
  Output, extract_terraform_output, Terraform, TerraformResult, Checker, Work, Call, continue,
  require, fail_with, assign_full_byoc_outputs,
}
use spark_pilot.Provisioning.Process.{
  LiteSetup, environment_event, includes_type, set_provisioning_failed, provision, provision_live,
  by_mode, runs_dry, declare_ready, or_failed, process_operation,
}

abbrev first_attempt : Work → ℕ
first_attempt w =
    (load_full_byoc_checkpoint w.audit w.operation.id w.environment.id).attempt_count_by_stage
      Stage.provisioning_network
    + 1

module _ (actor : String) (now : Time) (terraform : Terraform) (checker : Checker)
    (setup : LiteSetup) where
  assign-lacking :
      (outputs : Dict Output) (w : Work)
      → checker.dry_run_mode ≡ false
      → is_blank (extract_terraform_output outputs "emr_virtual_cluster_id") ≡ true
      → assign_full_byoc_outputs checker outputs w
        ≡ fail_with "Full BYOC Terraform apply completed but required outputs are missing" w
  unfolding assign_full_byoc_outputs
  assign-lacking outputs w live lacking =
      elim (Bool-cases (is_blank (extract_terraform_output outputs "eks_cluster_arn"))) [
        | inl e ↦ rw e (rw live refl)
        | inr e ↦ rw e (rw lacking (rw live refl))
      ]

  -- A network stage that succeeds writes nothing to the log.
  abbrev Applied : Work → Dict Output → Work × Attempt (Checkpoint × Dict Output) → Type 0
  Applied w outputs r =
      (w' : Work) × (checkpoint : Checkpoint) × (r ≡ (w', returned (checkpoint, outputs)))
      × (w'.audit ≡ w.audit)

  network-Applied :
      (checkpoint : Checkpoint) (w : Work) (context : String × String)
      (planned applied : TerraformResult)
      → let n = checkpoint.attempt_count_by_stage Stage.provisioning_network + 1 in
        terraform.build_stage_context Stage.provisioning_network n w.environment ≡ returned context
        → terraform.plan Stage.provisioning_network n ≡ returned planned
        → planned.succeeded ≡ true
        → terraform.apply Stage.provisioning_network n ≡ returned applied
        → applied.succeeded ≡ true
        → Applied w applied.outputs
            (run_full_byoc_step actor now terraform checker Stage.provisioning_network checkpoint w)
  unfolding run_full_byoc_step terraform_stage
  network-Applied checkpoint w context planned applied contexts plans plan_ok applies apply_ok =
      rw contexts (rw plans (rw plan_ok (rw applies (rw apply_ok (_, _, refl, refl)))))

  -- The loop ends with it, and writes nothing to the log either.
  abbrev Ended : Work → {A : Type 0} → Work × Attempt A → Type 0
  Ended w r = (fault : Fault) × (r.1 ≡ raised fault) × (r.0.audit ≡ w.audit)

  first_stage-Ended :
      (stage : Stage) (stages : List Stage) (checkpoint : Checkpoint) (w : Work)
      (outputs : Dict Output)
      → checker.dry_run_mode ≡ false
      → is_empty outputs ≡ false
      → is_blank (extract_terraform_output (update [] outputs) "emr_virtual_cluster_id") ≡ true
      → Applied w outputs (run_full_byoc_step actor now terraform checker stage checkpoint w)
      → Ended w (run_stages actor now terraform checker (stage ∷ stages) checkpoint [] w)
  unfolding run_stages
  first_stage-Ended stage stages checkpoint w outputs live nonempty lacking
        (w', checkpoint', done, log) =
      rw done (rw nonempty (rw (assign-lacking (update [] outputs) w' live lacking) (_, refl, log)))

  continue-Ended :
      {A B : Type 0} (w : Work) (r : Work × Attempt A) (k : A → Call B)
      → Ended w r
      → Ended w (continue r k)
  continue-Ended w (w', raised fault) k (_, _, log) = (fault, refl, log)
  continue-Ended w (w', returned a) k (_, same, log) = absurd (cc)

  abbrev FailsFirst : Work → Work → Type 0
  FailsFirst w w' =
      (w'.environment.status ≡ EnvironmentStatus.failed)
      × ((event : AuditEvent) × (w'.audit ≡ w.audit ++ event ∷ [])
          × (event.action ≡ "environment.provisioning_failed"))

  or_failed-FailsFirst :
      (w : Work) (r : Work × Attempt (Unit {0}))
      → Ended w r
      → FailsFirst w (or_failed actor now terraform checker setup r)
  unfolding set_provisioning_failed
  or_failed-FailsFirst w (w', raised fault) (_, _, log) =
      let reason = if includes_type fault.kind then some fault.class_name else none in
      let event =
        environment_event actor "environment.provisioning_failed" w'.environment
          (error fault.message reason) in
      (refl, (event, ap (λ (l : List AuditEvent). l ++ event ∷ []) log, refl))
  or_failed-FailsFirst w (w', returned done) (_, same, log) = absurd (cc)

  provision-live :
      (w : Work)
      → starts_with w.environment.customer_role_arn "arn:aws:iam::" ≡ true
      → checker.dry_run_mode ≡ false
      → provision actor now terraform checker setup w
        ≡ by_mode actor now terraform checker setup w.environment.provisioning_mode w
  unfolding provision
  provision-live w role live =
      ap
        (λ (b : Bool). continue (require b "Invalid customer role ARN." w) (λ _.
          provision_live actor now terraform checker setup
            (checker.dry_run_mode && runs_dry w.environment.engine)))
        role
      ∙ ap
          (λ (b : Bool).
            provision_live actor now terraform checker setup (b && runs_dry w.environment.engine) w)
          live

  full-Ended :
      (w : Work)
      → checkpoint_resume_index
          (load_full_byoc_checkpoint w.audit w.operation.id w.environment.id)
          w.operation
        ≡ 0
      → Ended w (
          run_stages actor now terraform checker steps
            (load_full_byoc_checkpoint w.audit w.operation.id w.environment.id)
            []
            w)
      → Ended w (by_mode actor now terraform checker setup ProvisioningMode.full w)
  unfolding run_full_byoc_provisioning
  full-Ended w start ended =
      let checkpoint = load_full_byoc_checkpoint w.audit w.operation.id w.environment.id in
      continue-Ended w _
        (declare_ready actor now terraform checker setup "environment.provisioned"
          environment_ready)
        (continue-Ended w _ (last_outputs actor now terraform checker) (
          subst
            (λ (n : ℕ).
              Ended w (run_stages actor now terraform checker (drop n steps) checkpoint [] w))
            (sym start) ended))

  -- Outside of a dry run, where a provisioning of a full environment starts with the network stage,
  -- and the stage is planned and applied but has outputs without an EMR virtual cluster, the
  -- environment is failed, and the log gets the failure and no checkpoint.
  pub network_stage_fails :
      (w : Work) (context : String × String) (planned applied : TerraformResult)
      → starts_with w.environment.customer_role_arn "arn:aws:iam::" ≡ true
      → checker.dry_run_mode ≡ false
      → w.environment.provisioning_mode ≡ ProvisioningMode.full
      → checkpoint_resume_index
          (load_full_byoc_checkpoint w.audit w.operation.id w.environment.id)
          w.operation
        ≡ 0
      → terraform.build_stage_context Stage.provisioning_network (first_attempt w) w.environment
        ≡ returned context
      → terraform.plan Stage.provisioning_network (first_attempt w) ≡ returned planned
      → planned.succeeded ≡ true
      → terraform.apply Stage.provisioning_network (first_attempt w) ≡ returned applied
      → applied.succeeded ≡ true
      → is_empty applied.outputs ≡ false
      → is_blank (extract_terraform_output (update [] applied.outputs) "emr_virtual_cluster_id")
        ≡ true
      → let w' = process_operation actor now terraform checker setup w in
        (w'.environment.status ≡ EnvironmentStatus.failed)
        × ((event : AuditEvent) × (w'.audit ≡ w.audit ++ event ∷ [])
            × (event.action ≡ "environment.provisioning_failed"))
  unfolding process_operation
  network_stage_fails w context planned applied role live mode start contexts plans plan_ok applies
        apply_ok outputs lacking =
      let checkpoint = load_full_byoc_checkpoint w.audit w.operation.id w.environment.id in
      let ended =
        first_stage-Ended Stage.provisioning_network (drop 1 steps) checkpoint w applied.outputs
          live outputs lacking
          (network-Applied checkpoint w context planned applied contexts plans plan_ok applies
            apply_ok) in
      or_failed-FailsFirst w (provision actor now terraform checker setup w) (
        subst (λ (r : Work × Attempt (Unit {0})). Ended w r) (sym (provision-live w role live))
          (subst (λ (m : ProvisioningMode). Ended w (by_mode actor now terraform checker setup m w))
            (sym mode) (full-Ended w start ended)))
