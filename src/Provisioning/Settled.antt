-- ===== src/Provisioning/Settled.antt =====
-- How the handler of an operation ends.
use spark_pilot.Prelude.{
  ◌≡◌, refl, ◌⊎◌, inl, inr, String, Bool, true, false, none, some, starts_with, ◌&&◌,
}
use spark_pilot.Models.{
  Time, EnvironmentStatus, OperationState, ProvisioningMode, lite_ready, environment_ready,
}
use spark_pilot.Workers.Claims.{release_claim}
use spark_pilot.Workers.Faults.{Attempt, raised, returned}
use spark_pilot.Provisioning.Stages.{run_full_byoc_provisioning}
use spark_pilot.Provisioning.Validations.{Terraform, Checker, Work, Call, continue, require}
use spark_pilot.Provisioning.Process.{
  LiteSetup, set_provisioning_ready, set_provisioning_failed, run_byoc_lite_provisioning,
  prepare_lite, lite_started, declare_ready, provision_live, by_mode, provision, runs_dry,
  or_failed, process_operation,
}

-- Both rows say the same, and when.
abbrev pub EndsAs : EnvironmentStatus → OperationState → Time → Work → Type 0
EndsAs status state now w =
    (w.environment.status ≡ status)
    × (w.operation.state ≡ state)
    × (w.operation.step ≡ state)
    × (w.operation.ended_at ≡ some now)

abbrev pub EndsReady : Time → Work → Type 0
EndsReady = EndsAs EnvironmentStatus.ready OperationState.ready

-- A call that returns only with a ready environment.
abbrev pub ReadyIfReturned : Time → Work × Attempt (Unit {0}) → Type 0
ReadyIfReturned now (w, raised fault) = Unit
ReadyIfReturned now (w, returned done) = EndsReady now w

continue-ready :
    {A : Type 0} (now : Time) (r : Work × Attempt A) (k : A → Call (Unit {0}))
    → ((a : A) (w : Work) → ReadyIfReturned now (k a w))
    → ReadyIfReturned now (continue r k)
continue-ready now (w, raised fault) k h = tt
continue-ready now (w, returned a) k h = h a w

module _ (actor : String) (now : Time) (terraform : Terraform) (checker : Checker)
    (setup : LiteSetup) where
  mode-ready :
      (mode : ProvisioningMode) (w : Work)
      → ReadyIfReturned now (by_mode actor now terraform checker setup mode w)
  unfolding run_byoc_lite_provisioning set_provisioning_ready
  mode-ready ProvisioningMode.byoc_lite w =
      continue-ready now
        (prepare_lite actor now terraform checker setup
          (lite_started actor now terraform checker setup w))
        (declare_ready actor now terraform checker setup "environment.byoc_lite_provisioned"
          lite_ready)
        (λ _ w. (refl, refl, refl, refl))
  mode-ready ProvisioningMode.full w =
      continue-ready now (run_full_byoc_provisioning actor now terraform checker w)
        (declare_ready actor now terraform checker setup "environment.provisioned"
          environment_ready)
        (λ _ w. (refl, refl, refl, refl))
  mode-ready (ProvisioningMode.other mode) w = tt

  live-ready :
      (dry : Bool) (w : Work)
      → ReadyIfReturned now (provision_live actor now terraform checker setup dry w)
  unfolding set_provisioning_ready
  live-ready true w = (refl, refl, refl, refl)
  live-ready false w = mode-ready w.environment.provisioning_mode w

  provision-ready : (w : Work) → ReadyIfReturned now (provision actor now terraform checker setup w)
  unfolding provision
  provision-ready w =
      continue-ready now
        (require (starts_with w.environment.customer_role_arn "arn:aws:iam::")
          "Invalid customer role ARN." w)
        (λ _.
          provision_live actor now terraform checker setup
            (checker.dry_run_mode && runs_dry w.environment.engine))
        (λ _ w'. live-ready (checker.dry_run_mode && runs_dry w.environment.engine) w')

  or_failed-settled :
      (r : Work × Attempt (Unit {0}))
      → ReadyIfReturned now r
      → let w' = or_failed actor now terraform checker setup r in
        EndsReady now w' ⊎ EndsAs EnvironmentStatus.failed OperationState.failed now w'
  unfolding set_provisioning_failed
  or_failed-settled (w, raised fault) h = inr (refl, refl, refl, refl)
  or_failed-settled (w, returned done) h = inl h

  -- However Terraform and AWS answer or raise, the handler of a claimed operation ends it: its
  -- environment and the operation are both ready or both failed, with the time of the end, and the
  -- operation's claim is released.
  pub operation_is_settled :
      (w : Work)
      → let w' = process_operation actor now terraform checker setup w in
        (EndsReady now w' ⊎ EndsAs EnvironmentStatus.failed OperationState.failed now w')
        × (w'.operation.worker_claim_token ≡ none)
        × (w'.operation.worker_claimed_at ≡ none)
  unfolding process_operation release_claim
  operation_is_settled w = (
    or_failed-settled (provision actor now terraform checker setup w) (provision-ready w),
    refl,
    refl,
  )
