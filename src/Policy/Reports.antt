-- ===== src/Policy/Reports.antt =====
-- What `evaluate_policies` reports, against a description that uses neither the query nor the table of
-- evaluators.
use spark_pilot.Prelude.{
  ◌≡◌, ◌↔◌, refl, ap, inl, inr, String, true, false, Option, none, some, List, [], ◌∷◌, ◌++◌, map,
  filter, Bool-cases, ==_iff, arith,
}
use spark_pilot.Models.{Uuid, Policy, RuleType, Scope, Environment, AuditEvent}
use spark_pilot.Policy.Evaluators.{Parameters, Verdict}
use spark_pilot.Policy.Engine.{
  PolicyResult, in_scope, applies, rule_evaluators, result_entry, evaluate_policies,
}
use spark_pilot.Policy.Rules.{Meets, rules_exact}
use spark_pilot.Policy.Selection.{expect_one, expected_results, result_event, evaluate_policies_lem}

-- The environments that a policy of a scope is for.
abbrev pub Covers : Scope → Option Uuid → Environment → Type 0
Covers Scope.global scope_id env = Unit
Covers Scope.tenant scope_id env = scope_id ≡ some env.tenant_id
Covers Scope.environment scope_id env = scope_id ≡ some env.id

abbrev pub IsKnown : RuleType → Type 0
IsKnown (RuleType.other _) = ⊥
IsKnown _ = Unit

-- A policy that is to be evaluated: active, for the environment, and of a rule that there is.
abbrev pub Governs : Environment → Policy → Type 0
Governs env p = (p.active ≡ true) × Covers p.scope p.scope_id env × IsKnown p.rule_type

-- The result names the policy, and has passed exactly when the parameters meet the policy's rule.
abbrev pub IsResultOf : Policy → Parameters → PolicyResult → Type 0
IsResultOf p req r =
    (r.policy_id ≡ p.id)
    × (r.policy_name ≡ p.name)
    × (r.rule_type ≡ p.rule_type)
    × (r.enforcement ≡ p.enforcement)
    × ((r.passed ≡ true) ↔ Meets p.rule_type p req)

-- One result for each policy that governs, in the order of the policies, and none for any other.
pub data Reports (env : Environment) (req : Parameters)
    : List Policy → List PolicyResult → Type 0 where
  done : Reports env req [] []
  reported :
      {ps : List Policy} {rs : List PolicyResult} (p : Policy) (r : PolicyResult)
      → Governs env p
      → IsResultOf p req r
      → Reports env req ps rs
      → Reports env req (p ∷ ps) (r ∷ rs)
  passed_over :
      {ps : List Policy} {rs : List PolicyResult} (p : Policy)
      → (Governs env p → ⊥)
      → Reports env req ps rs
      → Reports env req (p ∷ ps) rs

Covers-sound :
    (s : Scope) (id : Option Uuid) (env : Environment) → in_scope s id env ≡ true → Covers s id env
Covers-sound Scope.global id env h = tt
Covers-sound Scope.tenant none env h = cc
Covers-sound Scope.tenant (some t) env h = ap (λ (x : Uuid). some x) ((==_iff t env.tenant_id).0 h)
Covers-sound Scope.environment none env h = cc
Covers-sound Scope.environment (some e) env h = ap (λ (x : Uuid). some x) ((==_iff e env.id).0 h)

Covers-complete :
    (s : Scope) (id : Option Uuid) (env : Environment) → Covers s id env → in_scope s id env ≡ true
Covers-complete Scope.global id env h = refl
Covers-complete Scope.tenant id env h = rw h ((==_iff env.tenant_id env.tenant_id).1 refl)
Covers-complete Scope.environment id env h = rw h ((==_iff env.id env.id).1 refl)

no_evaluator : (rule : RuleType) → rule_evaluators rule ≡ none → IsKnown rule → ⊥
unfolding rule_evaluators
no_evaluator RuleType.max_runtime_seconds h k = cc
no_evaluator RuleType.max_vcpu h k = cc
no_evaluator RuleType.max_memory_gb h k = cc
no_evaluator RuleType.required_tags h k = cc
no_evaluator RuleType.allowed_golden_paths h k = cc
no_evaluator RuleType.allowed_release_labels h k = cc
no_evaluator RuleType.allowed_instance_types h k = cc
no_evaluator RuleType.allowed_security_configurations h k = cc
no_evaluator (RuleType.other _) h k = k

has_evaluator :
    (rule : RuleType) (f : Policy → Parameters → Verdict)
    → rule_evaluators rule ≡ some f
    → IsKnown rule
unfolding rule_evaluators
has_evaluator RuleType.max_runtime_seconds f h = tt
has_evaluator RuleType.max_vcpu f h = tt
has_evaluator RuleType.max_memory_gb f h = tt
has_evaluator RuleType.required_tags f h = tt
has_evaluator RuleType.allowed_golden_paths f h = tt
has_evaluator RuleType.allowed_release_labels f h = tt
has_evaluator RuleType.allowed_instance_types f h = tt
has_evaluator RuleType.allowed_security_configurations f h = tt
has_evaluator (RuleType.other _) f h = cc

module _ (env : Environment) (req : Parameters) where
  applied :
      (p : Policy) (ps : List Policy) (rs : List PolicyResult)
      → applies env p ≡ true
      → Reports env req ps rs
      → (known : Option (Policy → Parameters → Verdict)) → rule_evaluators p.rule_type ≡ known
      → Reports env req (p ∷ ps) (expect_one env req p known rs)
  unfolding applies
  applied p ps rs h rest none e =
      Reports.passed_over p (λ governs. no_evaluator p.rule_type e governs.2) rest
  applied p ps rs h rest (some f) e =
      Reports.reported p (result_entry p (f p req))
        (
          ground arith,
          Covers-sound p.scope p.scope_id env (ground arith),
          has_evaluator p.rule_type f e,
        )
        (refl, refl, refl, refl, rules_exact p req f e) rest

  expected-Reports :
      (policies : List Policy)
      → Reports env req policies (expected_results env req (filter (applies env) policies))
  unfolding applies
  expected-Reports [] = Reports.done
  expected-Reports (p ∷ ps) = elim (Bool-cases (applies env p)) [
    | inl e ↦ rw e (applied p ps _ e (expected-Reports ps) (rule_evaluators p.rule_type) refl)
    | inr e ↦ rw e (Reports.passed_over p (λ governs. idle p e governs) (expected-Reports ps))
  ]
    where
      idle : (p : Policy) → applies env p ≡ false → Governs env p → ⊥
      idle p e (active, covers, known) =
          ground (arith, active, Covers-complete p.scope p.scope_id env covers)

  -- `evaluate_policies` reports one result for each policy that is active, whose scope covers the
  -- environment and whose rule is known, in the table's order, and none for any other; a result has passed
  -- exactly when the run's parameters meet the policy's rule; and the audit log grows by exactly one
  -- event for each result, which records its verdict.
  pub evaluate_policies-Reports :
      (actor : String) (source_ip : Option String) (policies : List Policy) (log : List AuditEvent)
      → let (results, log') = evaluate_policies env req actor source_ip policies log in
        Reports env req policies results
        × (log' ≡ log ++ map (result_event actor source_ip env) results)
  evaluate_policies-Reports actor source_ip policies log =
      rw (evaluate_policies_lem env req actor source_ip policies log)
        (expected-Reports policies, refl)
