-- ===== src/Provisioning/Process.antt =====
-- The handler of a claimed operation: `process_provisioning_once`. The setup of a BYOC-Lite
-- environment is a parameter, which Lite fills.
use spark_pilot.Prelude.{
  String, Bool, true, false, not, ◌&&◌, none, some, is_none, starts_with, if◌then◌else◌,
}
use spark_pilot.Models.{
  Time, Environment, EnvironmentStatus, Engine, ProvisioningMode, OperationState, AuditEvent,
  Details, write_audit_event, provisioned, dry_run_provisioned, preflight, error, Message,
  validating_lite, lite_ready, environment_ready, dry_run_ready,
}
use spark_pilot.Preflight.Checks.{Report, preflight_summary}
use spark_pilot.Workers.Claims.{operation_claims, release_claim}
use spark_pilot.Workers.Faults.{Fault, FaultKind, Attempt, raised, returned, error_message}
use spark_pilot.Provisioning.Stages.{set_operation, run_full_byoc_provisioning}
use spark_pilot.Provisioning.Validations.{
  Terraform, Checker, Work, Call, ◌>=>◌, continue, ask, give, require, fail_with, missing,
}

-- The two parts of BYOC-Lite that set things up in the account.
pub record LiteSetup : Type 0 where
  pub oidc_and_trust_setup : Call (Unit {0})
  pub virtual_cluster_creation : Call (Unit {0})

abbrev pub environment_event : String → String → Environment → Details → AuditEvent
environment_event actor action env details = record {
  tenant_id = some env.tenant_id;
  actor = actor;
  action = action;
  source_ip = none;
  entity_type = "environment";
  entity_id = env.id;
  details_json = details;
  aws_request_id = none;
}

abbrev pub finish_operation :
    EnvironmentStatus → OperationState → Message → Time → String → String → Details → Work → Work
finish_operation status state message now actor action details w = record {
  environment = record w.environment { status = status };
  operation = record w.operation {
    state = state;
    step = state;
    message = some message;
    ended_at = some now;
  };
  audit = write_audit_event (environment_event actor action w.environment details) w.audit;
}

-- `_set_provisioning_ready`
unfoldable pub set_provisioning_ready :
    Time → (actor action : String) → Message → Details → Work → Work
set_provisioning_ready now actor action message details w =
    finish_operation EnvironmentStatus.ready OperationState.ready message now actor action details w

-- Everything but the two named groups of exceptions is reported without its class.
abbrev pub includes_type : FaultKind → Bool
includes_type FaultKind.other = false
includes_type _ = true

-- `_set_provisioning_failed`
unfoldable pub set_provisioning_failed : Time → (actor : String) → Fault → Work → Work
set_provisioning_failed now actor fault w =
    finish_operation EnvironmentStatus.failed OperationState.failed
      (error_message fault (includes_type fault.kind)) now actor "environment.provisioning_failed"
      (error fault.message (if includes_type fault.kind then some fault.class_name else none)) w

abbrev pub runs_dry : Engine → Bool
runs_dry Engine.emr_serverless = true
runs_dry Engine.emr_on_ec2 = true
runs_dry _ = false

module _ (actor : String) (now : Time) (terraform : Terraform) (checker : Checker)
    (setup : LiteSetup) where
  abbrev pub lite_started : Work → Work
  lite_started w =
      set_operation
        (λ op. record op {
          state = OperationState.validating_runtime;
          step = OperationState.validating_runtime;
          message = some validating_lite;
        })
        w

  abbrev pub note_prerequisites : Report → Call (Unit {0})
  note_prerequisites report w = (
    record w {
      audit =
          write_audit_event
            (environment_event actor "environment.byoc_lite_prerequisites_evaluated" w.environment (
              preflight report.is_ready (preflight_summary true false report.checks)
                w.environment.id))
            w.audit;
    },
    returned tt,
  )

  abbrev pub unless : (Environment → Bool) → Call (Unit {0}) → Call (Unit {0})
  unless test call w = if test w.environment then give tt w else call w

  -- The call of `_set_provisioning_ready`, with the environment's two references as details.
  abbrev pub declare_ready : (action : String) → Message → Unit {0} → Call (Unit {0})
  declare_ready action message done w = (
    set_provisioning_ready now actor action message
        (provisioned w.environment.eks_cluster_arn w.environment.emr_virtual_cluster_id) w,
    returned tt,
  )

  abbrev pub prepare_lite : Call (Unit {0})
  prepare_lite = ask (λ env. checker.build_preflight env false) >=> λ report.
      note_prerequisites report >=> λ _.
      require report.is_ready "BYOC-Lite prerequisites failed" >=> λ _.
      unless (λ env. not (is_none env.emr_virtual_cluster_id)) setup.oidc_and_trust_setup >=> λ _.
      unless (λ env. not (missing env.emr_virtual_cluster_id)) setup.virtual_cluster_creation

  -- `_run_byoc_lite_provisioning`
  unfoldable pub run_byoc_lite_provisioning : Call (Unit {0})
  run_byoc_lite_provisioning w =
      (prepare_lite >=> declare_ready "environment.byoc_lite_provisioned" lite_ready)
        (lite_started w)

  abbrev pub by_mode : ProvisioningMode → Call (Unit {0})
  by_mode ProvisioningMode.byoc_lite = run_byoc_lite_provisioning
  by_mode ProvisioningMode.full =
      run_full_byoc_provisioning actor now terraform checker
      >=> declare_ready "environment.provisioned" environment_ready
  by_mode (ProvisioningMode.other mode) = fail_with "Unsupported provisioning_mode"

  abbrev pub provision_live : Bool → Call (Unit {0})
  provision_live true w = (
    set_provisioning_ready now actor "environment.dry_run_provisioned" dry_run_ready
        (dry_run_provisioned w.environment.engine) w,
    returned tt,
  )
  provision_live false w = by_mode w.environment.provisioning_mode w

  -- The `try` block.
  unfoldable pub provision : Call (Unit {0})
  provision w =
      continue
        (require (starts_with w.environment.customer_role_arn "arn:aws:iam::")
          "Invalid customer role ARN." w)
        (λ _. provision_live (checker.dry_run_mode && runs_dry w.environment.engine))

  abbrev pub or_failed : Work × Attempt (Unit {0}) → Work
  or_failed (w, raised fault) = set_provisioning_failed now actor fault w
  or_failed (w, returned done) = w

  -- One round of the loop, with its handlers and its `finally` block.
  unfoldable pub process_operation : Work → Work
  process_operation w = set_operation (release_claim operation_claims) (or_failed (provision w))
