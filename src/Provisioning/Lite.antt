-- ===== src/Provisioning/Lite.antt =====
-- The setup of a BYOC-Lite environment: `_run_byoc_lite_oidc_and_trust_setup` and
-- `_run_byoc_lite_virtual_cluster_creation` of src/sparkpilot/services/workers_provisioning.py. The
-- client of EMR on EKS is a parameter; the text of an answer stands for it in the audit log.
use spark_pilot.Prelude.{String, Bool, true, false, ◌&&◌, Option, none, some, if◌then◌else◌}
use spark_pilot.Models.{
  Environment, Details, write_audit_event, lite_identity, lite_result, lite_collision,
}
use spark_pilot.Workers.Faults.{FaultKind, Attempt, raised, returned}
use spark_pilot.Provisioning.Validations.{Call, ◌>=>◌, continue, ask, change, require, fail_with}
use spark_pilot.Provisioning.Process.{LiteSetup, environment_event}

pub record PodIdentity : Type 0 where
  pub addon_installed : Bool
  -- `addon_status == "ACTIVE"`
  pub is_active : Bool
  pub addon_version : String

pub record Oidc : Type 0 where
  pub associated : Bool
  pub text : String

pub record Collision : Type 0 where
  pub id : String
  pub name : String
  pub state : String

-- The calls of `EmrEksClient` that the setup makes.
pub record EmrClient : Type 0 where
  pub check_pod_identity_agent : Environment → Attempt PodIdentity
  pub check_oidc_provider_association : Environment → Attempt Oidc
  pub update_execution_role_trust_policy : Environment → Attempt String
  pub find_namespace_virtual_cluster_collision : Environment → Attempt (Option Collision)
  pub create_virtual_cluster : Environment → Attempt String

abbrev pub is_value_error : FaultKind → Bool
is_value_error FaultKind.value_error = true
is_value_error _ = false

-- Any exception of the check counts as no agent.
abbrev pub detected : Attempt PodIdentity → Option PodIdentity
detected (raised fault) = none
detected (returned agent) = if agent.addon_installed && agent.is_active then some agent else none

abbrev pub set_identity_mode : String → Environment → Environment
set_identity_mode mode env = record env { identity_mode = some mode }

module _ (actor : String) (emr : EmrClient) where
  abbrev pub note : (action : String) → (Environment → Details) → Call (Unit {0})
  note action details w = (
    record w {
      audit =
          write_audit_event (environment_event actor action w.environment (details w.environment))
            w.audit;
    },
    returned tt,
  )

  abbrev pub outcome : String → Environment → Details
  outcome text env = lite_result env.eks_cluster_arn env.eks_namespace text

  abbrev pub record_identity : Option PodIdentity → Call (Unit {0})
  record_identity none =
      note "environment.byoc_lite_identity_detected" (λ _. lite_identity "irsa" none) >=> λ _.
      change (set_identity_mode "irsa")
  record_identity (some agent) =
      note "environment.byoc_lite_identity_detected"
        (λ _. lite_identity "pod_identity" (some agent.addon_version))
      >=> λ _. change (set_identity_mode "pod_identity")

  -- Only a `ValueError` of the update is audited; every exception is raised again.
  abbrev pub audited_trust : Attempt String → Call (Unit {0})
  audited_trust (returned text) w =
      note "environment.byoc_lite_trust_policy_updated" (outcome text) w
  audited_trust (raised fault) w =
      if is_value_error fault.kind
      then continue (note "environment.byoc_lite_trust_policy_failed" (outcome fault.message) w)
          (λ _ w'. (w', raised fault))
      else (w, raised fault)

  abbrev pub update_trust : Call (Unit {0})
  update_trust w = audited_trust (emr.update_execution_role_trust_policy w.environment) w

  abbrev pub detect_identity : Call (Unit {0})
  detect_identity w = record_identity (detected (emr.check_pod_identity_agent w.environment)) w

  -- `_run_byoc_lite_oidc_and_trust_setup`
  unfoldable pub oidc_and_trust_setup : Call (Unit {0})
  oidc_and_trust_setup = detect_identity >=> λ _.
      ask emr.check_oidc_provider_association >=> λ oidc.
      note "environment.byoc_lite_oidc_checked" (outcome oidc.text) >=> λ _.
      require oidc.associated "OIDC provider is not associated for the target EKS cluster." >=> λ _.
      update_trust

  abbrev pub set_virtual_cluster : String → Environment → Environment
  set_virtual_cluster id env = record env { emr_virtual_cluster_id = some id }

  abbrev pub unless_collision : Option Collision → Call (Unit {0})
  unless_collision none = ask emr.create_virtual_cluster >=> λ id. change (set_virtual_cluster id)
  unless_collision (some found) =
      note "environment.byoc_lite_namespace_collision" (λ env.
        lite_collision env.eks_cluster_arn env.eks_namespace found.id found.name found.state)
      >=> λ _. fail_with "BYOC-Lite namespace collision detected"

  -- `_run_byoc_lite_virtual_cluster_creation`
  unfoldable pub virtual_cluster_creation : Call (Unit {0})
  virtual_cluster_creation = ask emr.find_namespace_virtual_cluster_collision >=> unless_collision

  abbrev pub lite_setup : LiteSetup
  lite_setup = record {
    oidc_and_trust_setup = oidc_and_trust_setup;
    virtual_cluster_creation = virtual_cluster_creation;
  }
