-- ===== src/CostCenter/Tests.antt =====
-- A policy that names a namespace.
use spark_pilot.Prelude.Strip.{strip_right, strip_left, strip, is_space}
use spark_pilot.Prelude.{◌≡◌, refl, [], ◌∷◌}
use spark_pilot.Finops.Query.{valid}
use spark_pilot.CostCenter.{
  validate_entries, resolve_from_policy, prefix, parse_cost_center_policy, normalize_value,
  all_supported, Field, Payload, Json, resolve_cost_center_for_environment,
}
use spark_pilot.CostCenter.Bounds.{IsCostCenter, resolved-IsCostCenter}
use spark_pilot.Samples.{env}

abbrev by_namespace_json : Json
by_namespace_json = record {
  loads = λ raw. Payload.object (
      ("by_namespace", Field.mapping (("spark ", " analytics ") ∷ []))
      ∷ ("default", Field.scalar "other")
      ∷ []);
  str_of = λ entries. "{}";
}

resolves :
    resolve_cost_center_for_environment by_namespace_json (λ _. "1") "{}" env ≡ valid "analytics"
unfolding resolve_cost_center_for_environment parse_cost_center_policy strip strip_left strip_right
    is_space all_supported validate_entries normalize_value resolve_from_policy prefix
resolves = refl

resolved-IsCostCenter_example : IsCostCenter "analytics"
resolved-IsCostCenter_example =
    resolved-IsCostCenter by_namespace_json (λ _. "1") "{}" env "analytics" resolves
