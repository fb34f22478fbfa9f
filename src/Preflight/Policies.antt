-- ===== src/Preflight/Policies.antt =====
-- `_add_policy_engine_checks` of src/sparkpilot/services/preflight.py: what it emits for the results
-- of the policy engine. How texts are formatted from a message, a remediation and an id is a
-- parameter.
use spark_pilot.Prelude.{
  ◌≡◌, refl, ◌∙◌, String, Option, none, some, List, [], ◌∷◌, map, is_empty, str_append, Dict,
  if◌then◌else◌, Bool-cases, inl, inr, arith,
}
use spark_pilot.Models.{Uuid, RuleType, PolicyMessage, Run, Environment}
use spark_pilot.Policy.Evaluators.{Remediation, Parameters}
use spark_pilot.Policy.Engine.{PolicyResult}
use spark_pilot.Runs.Create.{is_hard, is_hard_failure, hard_failures}
use spark_pilot.Preflight.Checks.{Check, Status, ready, is_fail, add_checks}
use spark_pilot.Preflight.Ready.{ready_exact}

abbrev pub rule_name : RuleType → String
rule_name RuleType.max_runtime_seconds = "max_runtime_seconds"
rule_name RuleType.max_vcpu = "max_vcpu"
rule_name RuleType.max_memory_gb = "max_memory_gb"
rule_name RuleType.required_tags = "required_tags"
rule_name RuleType.allowed_golden_paths = "allowed_golden_paths"
rule_name RuleType.allowed_release_labels = "allowed_release_labels"
rule_name RuleType.allowed_instance_types = "allowed_instance_types"
rule_name RuleType.allowed_security_configurations = "allowed_security_configurations"
rule_name (RuleType.other name) = name

-- The parameters of a stored run: `run` has no `golden_path_name`, so there is never a golden path.
unfoldable pub preflight_parameters : Environment → Option Run → Option (Dict String) → Parameters
preflight_parameters env none spark_conf = record {
  timeout_seconds = none;
  requested_resources = none;
  spark_conf = spark_conf;
  golden_path = none;
  release_label = none;
  security_configuration_id = env.security_configuration_id;
}
preflight_parameters env (some run) spark_conf = record {
  timeout_seconds = some run.timeout_seconds;
  requested_resources = some run.requested_resources_json;
  spark_conf = spark_conf;
  golden_path = none;
  release_label = none;
  security_configuration_id = env.security_configuration_id;
}

module _ (render : PolicyMessage → String) (advise : Option Remediation → Option String)
    (show_id : Uuid → String) where
  abbrev pub policy_details : PolicyResult → Dict String
  policy_details r = ("policy_id", show_id r.policy_id) ∷ ("policy_name", r.policy_name) ∷ []

  -- The body of the loop over the results.
  unfoldable pub policy_check : PolicyResult → Check
  policy_check r =
      if r.passed
      then record {
        code = str_append "policy." (rule_name r.rule_type);
        status = Status.pass;
        message = render r.message;
        remediation = none;
        details = policy_details r;
      }
      else record {
        code = str_append "policy." (rule_name r.rule_type);
        status = if is_hard r.enforcement then Status.fail else Status.warning;
        message = render r.message;
        remediation = advise r.remediation;
        details = policy_details r;
      }

  policy_check-fail : (r : PolicyResult) → is_fail (policy_check r).status ≡ is_hard_failure r
  unfolding policy_check
  policy_check-fail r = ground arith

  ready-policy_checks :
      (results : List PolicyResult)
      → ready (map policy_check results) ≡ is_empty (hard_failures results)
  ready-policy_checks [] = refl
  ready-policy_checks (r ∷ results) =
      rw (policy_check-fail r) (elim (Bool-cases (is_hard_failure r)) [
        | inl e ↦ rw e
        | inr e ↦ rw e (ready-policy_checks results)
      ])

  -- The checks of the policy engine leave a preflight ready exactly when no policy with hard
  -- enforcement failed: the same test by which a submission is refused.
  pub policies_block_exactly :
      (results : List PolicyResult)
      → ready (add_checks [] (map policy_check results)) ≡ is_empty (hard_failures results)
  policies_block_exactly results =
      ready_exact (map policy_check results) ∙ ready-policy_checks results
