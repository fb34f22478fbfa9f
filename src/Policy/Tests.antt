-- ===== src/Policy/Tests.antt =====
-- The theorems on policies at concrete policies and parameters.
use spark_pilot.Prelude.{◌≡◌, ◌↔◌, refl, Option, none, [], ◌∷◌, true, false, map}
use spark_pilot.Models.{Policy, RuleType, Enforcement, Scope}
use spark_pilot.Policy.Evaluators.{evaluate_allowed_golden_paths}
use spark_pilot.Policy.Engine.{evaluate_policies, rule_evaluators}
use spark_pilot.Policy.Table.{PolicyDb, create_policy}
use spark_pilot.Policy.Rules.{Meets, rules_exact}
use spark_pilot.Policy.Selection.{result_event}
use spark_pilot.Policy.Reports.{Reports, evaluate_policies-Reports}
use spark_pilot.Samples.{
  env, core_policy, foreign_policy, five_core_parameters, policy_for, no_config,
}

abbrev tag_policy : Policy
tag_policy =
    policy_for RuleType.required_tags
      (record no_config { tags = ("team", "core") ∷ ("owner", "") ∷ [] })

abbrev path_policy : Policy
path_policy =
    policy_for RuleType.allowed_golden_paths (record no_config { allowed = "small" ∷ "large" ∷ [] })

abbrev policy_db : PolicyDb
policy_db = record { policies = core_policy ∷ foreign_policy ∷ []; audit = [] }

abbrev idle_policy : Policy
idle_policy = record core_policy { active = false }

evaluate_policies-Reports_example :
    let policies = core_policy ∷ idle_policy ∷ foreign_policy ∷ [] in
    let (results, log') = evaluate_policies env five_core_parameters "ada" none policies [] in
    Reports env five_core_parameters policies results
    × (log' ≡ map (result_event "ada" none env) results)
evaluate_policies-Reports_example =
    evaluate_policies-Reports env five_core_parameters "ada" none
      (core_policy ∷ idle_policy ∷ foreign_policy ∷ []) []

abbrev created : Option (Policy × PolicyDb)
created =
    create_policy 22 "tags" Scope.global none RuleType.required_tags tag_policy.config_json
      Enforcement.soft true none none policy_db

abbrev created_policy : Policy
created_policy = record tag_policy { id = 22; name = "tags"; enforcement = Enforcement.soft }

rules_exact_example :
    ((evaluate_allowed_golden_paths path_policy five_core_parameters).passed ≡ true)
    ↔ Meets RuleType.allowed_golden_paths path_policy five_core_parameters
unfolding rule_evaluators
rules_exact_example =
    rules_exact path_policy five_core_parameters evaluate_allowed_golden_paths refl
