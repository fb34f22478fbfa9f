-- ===== src/Policy/Engine.antt =====
-- `evaluate_policies` of src/sparkpilot/policy_engine.py, with the query for the policies that apply.
use spark_pilot.Prelude.{
  String, Bool, true, false, ◌&&◌, ◌==◌, Option, none, some, List, [], ◌∷◌, ◌++◌, filter,
}
use spark_pilot.Models.{
  Uuid, Policy, RuleType, Enforcement, Scope, PolicyMessage, Environment, AuditEvent,
  write_audit_event, policy_evaluated,
}
use spark_pilot.Policy.Evaluators.{
  Verdict, Remediation, Parameters, evaluate_max_runtime_seconds, evaluate_max_vcpu,
  evaluate_max_memory_gb, evaluate_required_tags, evaluate_allowed_golden_paths,
  evaluate_allowed_release_labels, evaluate_allowed_instance_types,
  evaluate_allowed_security_configurations,
}

-- SQL's `column = value`, which is not true of a null column.
abbrev pub matches_id : Option Uuid → Uuid → Bool
matches_id none v = false
matches_id (some u) v = u == v

abbrev pub in_scope : Scope → Option Uuid → Environment → Bool
in_scope Scope.global scope_id env = true
in_scope Scope.tenant scope_id env = matches_id scope_id env.tenant_id
in_scope Scope.environment scope_id env = matches_id scope_id env.id

unfoldable pub applies : Environment → Policy → Bool
applies env policy = policy.active && in_scope policy.scope policy.scope_id env

-- `_resolve_applicable_policies`. The query has no ORDER BY: the list stands for the table in the
-- order in which the database returns it.
unfoldable pub resolve_applicable_policies : List Policy → Environment → List Policy
unfolding applies
resolve_applicable_policies policies env = filter (applies env) policies

-- `_RULE_EVALUATORS.get(rule_type)`
unfoldable pub rule_evaluators : RuleType → Option (Policy → Parameters → Verdict)
rule_evaluators RuleType.max_runtime_seconds = some evaluate_max_runtime_seconds
rule_evaluators RuleType.max_vcpu = some evaluate_max_vcpu
rule_evaluators RuleType.max_memory_gb = some evaluate_max_memory_gb
rule_evaluators RuleType.required_tags = some evaluate_required_tags
rule_evaluators RuleType.allowed_golden_paths = some evaluate_allowed_golden_paths
rule_evaluators RuleType.allowed_release_labels = some evaluate_allowed_release_labels
rule_evaluators RuleType.allowed_instance_types = some evaluate_allowed_instance_types
rule_evaluators RuleType.allowed_security_configurations =
    some evaluate_allowed_security_configurations
rule_evaluators (RuleType.other _) = none

pub record PolicyResult : Type 0 where
  pub policy_id : Uuid
  pub policy_name : String
  pub rule_type : RuleType
  pub enforcement : Enforcement
  pub passed : Bool
  pub message : PolicyMessage
  pub remediation : Option Remediation

abbrev pub result_entry : Policy → Verdict → PolicyResult
result_entry policy verdict = record {
  policy_id = policy.id;
  policy_name = policy.name;
  rule_type = policy.rule_type;
  enforcement = policy.enforcement;
  passed = verdict.passed;
  message = verdict.message;
  remediation = verdict.remediation;
}

abbrev pub evaluated_event : String → Option String → Environment → Policy → Verdict → AuditEvent
evaluated_event actor source_ip env policy verdict = record {
  tenant_id = none;
  actor = actor;
  action = "policy.evaluated";
  source_ip = source_ip;
  entity_type = "policy";
  entity_id = policy.id;
  details_json =
      policy_evaluated policy.name policy.rule_type policy.enforcement verdict.passed env.id;
  aws_request_id = none;
}

module _ (env : Environment) (req : Parameters) (actor : String) (source_ip : Option String) where
  abbrev pub record_verdict :
      Policy
      → Option (Policy → Parameters → Verdict)
      → List PolicyResult × List AuditEvent
      → List PolicyResult × List AuditEvent
  record_verdict policy none acc = acc
  record_verdict policy (some evaluator) (results, log) =
      let verdict = evaluator policy req in
      (
        results ++ result_entry policy verdict ∷ [],
        write_audit_event (evaluated_event actor source_ip env policy verdict) log,
      )

  -- One round of the loop: an unknown rule is skipped, a known one appends a result and an event.
  unfoldable pub evaluate_one :
      Policy → List PolicyResult × List AuditEvent → List PolicyResult × List AuditEvent
  evaluate_one policy acc = record_verdict policy (rule_evaluators policy.rule_type) acc

  unfoldable pub evaluate_loop :
      List Policy → List PolicyResult × List AuditEvent → List PolicyResult × List AuditEvent
  evaluate_loop [] acc = acc
  evaluate_loop (policy ∷ policies) acc = evaluate_loop policies (evaluate_one policy acc)

  -- `evaluate_policies` on the policy table and the audit log.
  unfoldable pub evaluate_policies :
      List Policy → List AuditEvent → List PolicyResult × List AuditEvent
  evaluate_policies policies log =
      evaluate_loop (resolve_applicable_policies policies env) ([], log)
