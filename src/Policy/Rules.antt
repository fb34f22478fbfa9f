-- ===== src/Policy/Rules.antt =====
-- What each rule of a policy asks for, and its evaluator.
use spark_pilot.Prelude.{◌≡◌, ◌↔◌, true, some, some-injective, subst, get_or, lookup, All}
use spark_pilot.Models.{Policy, RuleType}
use spark_pilot.Policy.Evaluators.{
  Parameters, Verdict, or_default, or_empty, total_vcpu, total_memory, node_selector_key,
}
use spark_pilot.Policy.Engine.{rule_evaluators}
use spark_pilot.Policy.Limits.{Within, limits_exact}
use spark_pilot.Policy.Tags.{Carries, required_tags_exact}
use spark_pilot.Policy.Allowed.{
  Permitted, GoldenPermitted, SecurityPermitted, allowed_exact, golden_paths_exact,
  security_configurations_exact,
}

-- Whether a run's parameters keep a policy of the rule.
abbrev pub Meets : RuleType → Policy → Parameters → Type 0
Meets RuleType.max_runtime_seconds policy req =
    Within policy.config_json.max_seconds (or_default req.timeout_seconds 7200)
Meets RuleType.max_vcpu policy req =
    Within policy.config_json.max_vcpu (total_vcpu req.requested_resources)
Meets RuleType.max_memory_gb policy req =
    Within policy.config_json.max_memory_gb (total_memory req.requested_resources)
Meets RuleType.required_tags policy req =
    All (Carries (or_empty req.spark_conf)) policy.config_json.tags
Meets RuleType.allowed_golden_paths policy req =
    GoldenPermitted policy.config_json.require_golden_path policy.config_json.allowed
      (get_or req.golden_path "")
Meets RuleType.allowed_release_labels policy req =
    Permitted policy.config_json.allowed (get_or req.release_label "")
Meets RuleType.allowed_instance_types policy req =
    Permitted policy.config_json.allowed
      (get_or (lookup node_selector_key (or_empty req.spark_conf)) "")
Meets RuleType.allowed_security_configurations policy req =
    SecurityPermitted policy.config_json.require_security_configuration policy.config_json.allowed
      (get_or req.security_configuration_id "")
Meets (RuleType.other _) policy req = ⊥

module _ (policy : Policy) (req : Parameters) where
  abbrev IsExact : RuleType → (Policy → Parameters → Verdict) → Type 0
  IsExact rule evaluate = ((evaluate policy req).passed ≡ true) ↔ Meets rule policy req

  exact :
      (rule : RuleType) (evaluate : Policy → Parameters → Verdict)
      → rule_evaluators rule ≡ some evaluate
      → IsExact rule evaluate
  unfolding rule_evaluators
  exact RuleType.max_runtime_seconds evaluate h =
      subst (IsExact RuleType.max_runtime_seconds) (some-injective _ _ h)
        (limits_exact policy req).0
  exact RuleType.max_vcpu evaluate h =
      subst (IsExact RuleType.max_vcpu) (some-injective _ _ h) (limits_exact policy req).1
  exact RuleType.max_memory_gb evaluate h =
      subst (IsExact RuleType.max_memory_gb) (some-injective _ _ h) (limits_exact policy req).2
  exact RuleType.required_tags evaluate h =
      subst (IsExact RuleType.required_tags) (some-injective _ _ h) (required_tags_exact policy req)
  exact RuleType.allowed_golden_paths evaluate h =
      subst (IsExact RuleType.allowed_golden_paths) (some-injective _ _ h)
        (golden_paths_exact policy req)
  exact RuleType.allowed_release_labels evaluate h =
      subst (IsExact RuleType.allowed_release_labels) (some-injective _ _ h)
        (allowed_exact policy req).0
  exact RuleType.allowed_instance_types evaluate h =
      subst (IsExact RuleType.allowed_instance_types) (some-injective _ _ h)
        (allowed_exact policy req).1
  exact RuleType.allowed_security_configurations evaluate h =
      subst (IsExact RuleType.allowed_security_configurations) (some-injective _ _ h)
        (security_configurations_exact policy req)
  exact (RuleType.other name) evaluate h = cc

  -- The evaluator of a policy's rule passes exactly when the run's parameters meet it: a limit that is
  -- missing or not positive, or not passed (the timeout, of which a missing one or 0 counts as 7200
  -- seconds, the cores, the memory); every tag carried; a listed or absent release label or instance
  -- type, or nothing listed; a golden path that is listed, or absent and not required, or nothing listed
  -- (whether or not one is required); and a security configuration that is listed, or any where nothing
  -- is listed, or none where none is required.
  pub rules_exact :
      (evaluate : Policy → Parameters → Verdict)
      → rule_evaluators policy.rule_type ≡ some evaluate
      → ((evaluate policy req).passed ≡ true) ↔ Meets policy.rule_type policy req
  rules_exact evaluate h = exact policy.rule_type evaluate h
