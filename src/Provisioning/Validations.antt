-- ===== src/Provisioning/Validations.antt =====
-- The calls of a provisioning, and its two validations. Terraform and the calls of AWS are parameters.
-- The session is not rolled back on an error, so a call that raises keeps what it wrote. The text of
-- an error is its first clause.
use spark_pilot.Prelude.{
  ℕ, String, Bool, true, false, not, ◌&&◌, ◌||◌, Option, none, some, List, [], ◌∷◌, Dict, lookup,
  get_or, filter, contains, is_blank, if◌then◌else◌,
}
use spark_pilot.Prelude.Strip.{strip}
use spark_pilot.Models.{Environment, ProvisioningOperation, Stage, AuditEvent}
use spark_pilot.Preflight.Checks.{Report, Check, ready}
use spark_pilot.Workers.Faults.{Fault, FaultKind, Attempt, raised, returned}

-- An output of a stage, as far as it is read: a text, a dict whose `value` is a text, or any other.
pub data Output : Type 0 where
  plain wrapped : String → Output
  opaque : Output

-- `_extract_terraform_output`
abbrev pub text_of : Option Output → String
text_of none = ""
text_of (some (Output.plain s)) = strip s
text_of (some (Output.wrapped s)) = strip s
text_of (some Output.opaque) = ""

abbrev pub extract_terraform_output : Dict Output → String → String
extract_terraform_output outputs key = text_of (lookup key outputs)

-- What a stage's commands end with: the failure text where it did not succeed.
pub record TerraformResult : Type 0 where
  pub succeeded : Bool
  pub failure : String
  pub error : Option String
  -- After an apply, the outputs by their names.
  pub outputs : Dict Output

-- `TerraformOrchestrator`: the workspace and state key of a stage's context, its plan and its apply.
pub record Terraform : Type 0 where
  pub build_stage_context : Stage → (attempt : ℕ) → Environment → Attempt (String × String)
  pub plan : Stage → (attempt : ℕ) → Attempt TerraformResult
  pub apply : Stage → (attempt : ℕ) → Attempt TerraformResult

-- The checks of `EmrEksClient`, the preflight, and the outputs of a dry run.
pub record Checker : Type 0 where
  pub dry_run_mode : Bool
  pub dry_run_outputs : Environment → Attempt (String × String)
  pub virtual_cluster_namespace : Environment → (require_running : Bool) → Attempt String
  pub oidc_associated : Environment → Attempt Bool
  pub check_trust_policy : Environment → Attempt (Unit {0})
  pub dispatch_and_pass_role : Environment → Attempt (Bool × Bool)
  pub build_preflight : Environment → (require_virtual_cluster : Bool) → Attempt Report

-- The session of the handler.
pub record Work : Type 0 where
  pub environment : Environment
  pub operation : ProvisioningOperation
  pub audit : List AuditEvent

-- A call on a session, which may raise.
abbrev pub Call : Type 0 → Type 0
Call A = Work → Work × Attempt A

module _ {A B : Type 0} where
  infixl 5 ◌>=>◌
  abbrev pub continue : Work × Attempt A → (A → Call B) → Work × Attempt B
  continue (w, raised fault) k = (w, raised fault)
  continue (w, returned a) k = k a w

  -- One call after another.
  abbrev pub ◌>=>◌ : Call A → (A → Call B) → Call B
  (call >=> k) w = continue (call w) k

abbrev pub value_error : String → Fault
value_error text = record {
  kind = FaultKind.value_error;
  class_name = "ValueError";
  message = text;
  aws_code = none;
}

abbrev pub give : {A : Type 0} → A → Call A
give a w = (w, returned a)

abbrev pub fail_with : {A : Type 0} → String → Call A
fail_with text w = (w, raised (value_error text))

-- `if not test: raise ValueError(text)`
abbrev pub require : Bool → String → Call (Unit {0})
require test text = if test then give tt else fail_with text

-- A call that does not write.
abbrev pub ask : {A : Type 0} → (Environment → Attempt A) → Call A
ask f w = (w, f w.environment)

abbrev pub change : (Environment → Environment) → Call (Unit {0})
change f w = (record w { environment = f w.environment }, returned tt)

abbrev pub missing : Option String → Bool
missing o = is_blank (get_or o "")

-- `_assign_full_byoc_outputs`: what is missing is made up in a dry run and an error otherwise.
abbrev pub assigned : (eks emr : String) → Environment → Environment
assigned eks emr env = record env { eks_cluster_arn = some eks; emr_virtual_cluster_id = some emr }

abbrev pub or_made_up : String → String → String
or_made_up value made_up = if is_blank value then made_up else value

unfoldable pub assign_full_byoc_outputs : Checker → Dict Output → Call (Unit {0})
assign_full_byoc_outputs checker outputs =
    let eks = extract_terraform_output outputs "eks_cluster_arn" in
    let emr = extract_terraform_output outputs "emr_virtual_cluster_id" in
    if not (is_blank eks || is_blank emr)
    then change (assigned eks emr)
    else if checker.dry_run_mode
    then (ask checker.dry_run_outputs >=> λ made_up.
        change (assigned (or_made_up eks made_up.0) (or_made_up emr made_up.1)))
    else fail_with "Full BYOC Terraform apply completed but required outputs are missing"

abbrev pub set_namespace : String → Environment → Environment
set_namespace namespace env =
    if is_blank namespace then env else record env { eks_namespace = some namespace }

-- The namespace that the virtual cluster has, and that there is one in the end.
abbrev pub infer_namespace : Checker → (require_running : Bool) → String → Call (Unit {0})
infer_namespace checker require_running text =
    ask (λ env. checker.virtual_cluster_namespace env require_running) >=> λ namespace.
    change (set_namespace namespace) >=> λ _.
    λ w. if missing w.environment.eks_namespace then fail_with text w else give tt w

abbrev pub dry_outputs : Checker → Call (Unit {0})
dry_outputs checker w =
    if checker.dry_run_mode
      && (missing w.environment.eks_cluster_arn || missing w.environment.emr_virtual_cluster_id)
    then assign_full_byoc_outputs checker [] w
    else give tt w

abbrev pub require_outputs : Call (Unit {0})
require_outputs w =
    if missing w.environment.eks_cluster_arn || missing w.environment.emr_virtual_cluster_id
    then fail_with "Full BYOC bootstrap validation failed: required Terraform outputs are missing" w
    else give tt w

-- `_run_full_byoc_bootstrap_validation`
unfoldable pub run_full_byoc_bootstrap_validation : Checker → Call (Unit {0})
run_full_byoc_bootstrap_validation checker = dry_outputs checker >=> λ _. require_outputs >=> λ _.
    infer_namespace checker false
      "Full BYOC bootstrap validation failed: EKS namespace could not be inferred from the EMR virtual cluster."
    >=> λ _. ask checker.oidc_associated >=> λ associated.
        require associated
          "Full BYOC bootstrap validation failed: EKS OIDC provider association is missing."
        >=> λ _. ask checker.check_trust_policy

-- `FULL_BYOC_RUNTIME_PREFLIGHT_CODES`
abbrev pub runtime_codes : List String
runtime_codes =
    "config.execution_role" ∷ "config.log_group_prefix" ∷ "config.emr_release_label"
    ∷ "environment.customer_role_arn" ∷ "environment.virtual_cluster" ∷ []

abbrev pub runtime_checks : Report → List Check
runtime_checks report = filter (λ (c : Check). contains runtime_codes c.code) report.checks

-- `_run_full_byoc_runtime_validation`
unfoldable pub run_full_byoc_runtime_validation : Checker → Call (Unit {0})
run_full_byoc_runtime_validation checker =
    infer_namespace checker true "Full BYOC runtime validation failed: EKS namespace is missing."
    >=> λ _. ask (λ env. checker.build_preflight env true) >=> λ report.
        require (ready (runtime_checks report)) "Full BYOC runtime validation failed" >=> λ _.
        ask checker.check_trust_policy >=> λ _. ask checker.dispatch_and_pass_role >=> λ allowed.
        require (allowed.0 && allowed.1)
          "Full BYOC runtime validation failed: customer role dispatch readiness is incomplete."
