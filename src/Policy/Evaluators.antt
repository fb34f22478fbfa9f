-- ===== src/Policy/Evaluators.antt =====
-- `_evaluate_*` of src/sparkpilot/policy_engine.py. An evaluator's dict is a `Verdict`.
use spark_pilot.Prelude.{
  ℕ, ◌+◌, ◌*◌, String, Bool, true, false, not, ◌&&◌, Option, none, some, List, [], ◌∷◌, ◌++◌, Dict,
  lookup, contains, is_blank, is_empty, str_eq, str_append, get_or, ◌==◌, if◌then◌else◌,
}
use spark_pilot.Prelude.Int.{ℤ, pos, pos_part, ltb_ℤ, leb_ℤ}
use spark_pilot.Models.{
  Policy, Resources, no_resources, PolicyMessage, no_effective_limit, within_limit, exceeds_limit,
  no_required_tags, all_tags_present, missing_tags, no_restriction, not_specified,
  required_by_policy, is_allowed, not_allowed,
}

pub data Remediation : Type 0 where
  reduce_to : ℕ → Remediation
  add_required_tags : Remediation
  use_one_of : List String → Remediation

pub record Verdict : Type 0 where
  pub passed : Bool
  pub message : PolicyMessage
  pub remediation : Option Remediation

-- The keyword arguments of the evaluators.
pub record Parameters : Type 0 where
  pub timeout_seconds : Option ℕ
  pub requested_resources : Option Resources
  pub spark_conf : Option (Dict String)
  pub golden_path : Option String
  pub release_label : Option String
  pub security_configuration_id : Option String

abbrev pub pass : PolicyMessage → Verdict
pass m = record { passed = true; message = m; remediation = none }

abbrev pub refuse : PolicyMessage → Remediation → Verdict
refuse m r = record { passed = false; message = m; remediation = some r }

-- `timeout_seconds or 7200`
abbrev pub or_default : Option ℕ → ℕ → ℕ
or_default none d = d
or_default (some n) d = if n == 0 then d else n

abbrev pub or_empty : Option (Dict String) → Dict String
or_empty o = get_or o []

-- What the three limits share: no effective limit, above it, or within it.
abbrev pub against_limit : ℤ → ℕ → Verdict
against_limit limit used =
    if leb_ℤ limit (pos 0)
    then pass no_effective_limit
    else if ltb_ℤ limit (pos used)
    then refuse (exceeds_limit used (pos_part limit)) (reduce_to (pos_part limit))
    else pass (within_limit used (pos_part limit))

unfoldable pub evaluate_max_runtime_seconds : Policy → Parameters → Verdict
evaluate_max_runtime_seconds policy req =
    against_limit (get_or policy.config_json.max_seconds (pos 0))
      (or_default req.timeout_seconds 7200)

abbrev pub total_vcpu : Option Resources → ℕ
total_vcpu o =
    let r = get_or o no_resources in
    get_or r.driver_vcpu 1 + get_or r.executor_vcpu 1 * get_or r.executor_instances 1

unfoldable pub evaluate_max_vcpu : Policy → Parameters → Verdict
evaluate_max_vcpu policy req =
    against_limit (get_or policy.config_json.max_vcpu (pos 0)) (total_vcpu req.requested_resources)

abbrev pub total_memory : Option Resources → ℕ
total_memory o =
    let r = get_or o no_resources in
    get_or r.driver_memory_gb 4 + get_or r.executor_memory_gb 4 * get_or r.executor_instances 1

unfoldable pub evaluate_max_memory_gb : Policy → Parameters → Verdict
evaluate_max_memory_gb policy req =
    against_limit (get_or policy.config_json.max_memory_gb (pos 0))
      (total_memory req.requested_resources)

abbrev pub label_key : String → String
label_key tag_key = str_append "spark.kubernetes.driver.label." tag_key

-- The body of the loop over `required.items()`: what it appends to `missing`.
unfoldable pub missing_tag : Dict String → String → String → Option String
missing_tag conf tag_key expected =
    let actual = get_or (lookup (label_key tag_key) conf) "" in
    if not (is_blank expected) && not (str_eq actual expected)
    then some (str_append tag_key (str_append "=" expected))
    else if is_blank expected && is_blank actual
    then some tag_key
    else none

abbrev pub append_missing : List String → Option String → List String
append_missing missing none = missing
append_missing missing (some t) = missing ++ t ∷ []

unfoldable pub collect_missing : Dict String → Dict String → List String → List String
collect_missing conf [] missing = missing
collect_missing conf ((tag_key, expected) ∷ required) missing =
    collect_missing conf required (append_missing missing (missing_tag conf tag_key expected))

abbrev pub tags_verdict : List String → Verdict
tags_verdict [] = pass all_tags_present
tags_verdict (t ∷ missing) = refuse (missing_tags (t ∷ missing)) add_required_tags

unfoldable pub evaluate_required_tags : Policy → Parameters → Verdict
evaluate_required_tags policy req =
    if is_empty policy.config_json.tags
    then pass no_required_tags
    else tags_verdict (collect_missing (or_empty req.spark_conf) policy.config_json.tags [])

abbrev pub golden_verdict : Bool → List String → String → Verdict
golden_verdict required allowed golden_path =
    if is_empty allowed
    then pass no_restriction
    else if is_blank golden_path
    then (if required then refuse required_by_policy (use_one_of allowed) else pass not_specified)
    else if not (contains allowed golden_path)
    then refuse (not_allowed golden_path) (use_one_of allowed)
    else pass (is_allowed golden_path)

unfoldable pub evaluate_allowed_golden_paths : Policy → Parameters → Verdict
evaluate_allowed_golden_paths policy req =
    golden_verdict policy.config_json.require_golden_path policy.config_json.allowed
      (get_or req.golden_path "")

-- The part that release labels and instance types share.
abbrev pub among_allowed : List String → String → Verdict
among_allowed allowed value =
    if is_empty allowed
    then pass no_restriction
    else if is_blank value
    then pass not_specified
    else if not (contains allowed value)
    then refuse (not_allowed value) (use_one_of allowed)
    else pass (is_allowed value)

unfoldable pub evaluate_allowed_release_labels : Policy → Parameters → Verdict
evaluate_allowed_release_labels policy req =
    among_allowed policy.config_json.allowed (get_or req.release_label "")

abbrev pub node_selector_key : String
node_selector_key = "spark.kubernetes.node.selector.node.kubernetes.io/instance-type"

unfoldable pub evaluate_allowed_instance_types : Policy → Parameters → Verdict
evaluate_allowed_instance_types policy req =
    among_allowed policy.config_json.allowed
      (get_or (lookup node_selector_key (or_empty req.spark_conf)) "")

abbrev pub security_verdict : Bool → List String → String → Verdict
security_verdict required allowed configuration =
    if is_empty allowed && not required
    then pass no_restriction
    else if is_blank configuration
    then (if required then refuse required_by_policy (use_one_of allowed) else pass not_specified)
    else if not (is_empty allowed) && not (contains allowed configuration)
    then refuse (not_allowed configuration) (use_one_of allowed)
    else pass (is_allowed configuration)

unfoldable pub evaluate_allowed_security_configurations : Policy → Parameters → Verdict
evaluate_allowed_security_configurations policy req =
    security_verdict policy.config_json.require_security_configuration policy.config_json.allowed
      (get_or req.security_configuration_id "")
