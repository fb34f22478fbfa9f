-- ===== src/Policy/Lifecycle.antt =====
-- Creating and deleting policies, and what that changes for the evaluation.
use spark_pilot.Prelude.{
  ◌+◌, length-append, ◌≡◌, refl, String, Bool, true, false, ◌==◌, if◌then◌else◌, Option, none, some,
  List, [], ◌∷◌, ◌++◌, filter, length, Bool-cases, Option-cases, arith, is_some, inl, inr,
}
use spark_pilot.Models.{
  Uuid, Policy, PolicyConfig, RuleType, Enforcement, Scope, Environment, AuditEvent,
}
use spark_pilot.Prelude.Table.{get_row, modify_row}
use spark_pilot.Policy.Evaluators.{Parameters}
use spark_pilot.Policy.Engine.{
  evaluate_policies, resolve_applicable_policies, applies, rule_evaluators,
}
use spark_pilot.Policy.Table.{
  PolicyDb, is_known_rule, create_policy, get_policy, deactivate, delete_policy,
}

-- The rows without the key.
abbrev pub others : Uuid → List Policy → List Policy
others id = filter (λ p. if p.id == id then false else true)

-- A policy can be created exactly when the engine has an evaluator for its rule.
known_rule_lem : (r : RuleType) → is_known_rule r ≡ is_some (rule_evaluators r)
unfolding rule_evaluators
known_rule_lem RuleType.max_vcpu = refl
known_rule_lem _ = refl

-- What a row with one key replaced leaves to choose from is what is chosen without the row.
deactivate-applies :
    (env : Environment) (id : Uuid) (ps : List Policy)
    → filter (applies env) (deactivate id ps) ≡ filter (applies env) (others id ps)
unfolding modify_row applies
deactivate-applies env id [] = refl
deactivate-applies env id (p ∷ ps) = elim (Bool-cases (p.id == id)) [
  | inl e ↦ rw e (deactivate-applies env id ps)
  | inr e ↦ rw e (rw (deactivate-applies env id ps))
]

others-absent : (id : Uuid) (ps : List Policy) → get_policy id ps ≡ none → others id ps ≡ ps
unfolding get_row
others-absent id [] h = refl
others-absent id (p ∷ ps) h = ground (arith, others-absent id ps)

module _ (env : Environment) (req : Parameters) (id : Uuid) (actor source_ip : Option String) where
  -- Deleting a policy returns whether the table has its row, and audits exactly in that case; from
  -- then on every environment is judged as if the row were not there.
  pub delete_policy_lem :
      (evaluator : String) (log : List AuditEvent) (db : PolicyDb)
      → let (found, db') = delete_policy id actor source_ip db in
        (found ≡ is_some (get_policy id db.policies))
        × (length db'.audit ≡ length db.audit + (if found then 1 else 0))
        × (evaluate_policies env req evaluator source_ip db'.policies log
            ≡ evaluate_policies env req evaluator source_ip (others id db.policies) log)
  unfolding delete_policy evaluate_policies resolve_applicable_policies
  delete_policy_lem evaluator log db = elim (Option-cases (get_policy id db.policies)) [
    | inl absent ↦ rw absent (refl, omega arith, rw (others-absent id db.policies absent))
    | inr (p, present) ↦
        rw present (refl, length-append db.audit _, rw (deactivate-applies env id db.policies))
  ]

filter-append {ℓ} :
    {A : Type ℓ} (q : A → Bool) (xs ys : List A) → filter q (xs ++ ys) ≡ filter q xs ++ filter q ys
filter-append q [] ys = refl
filter-append q (x ∷ xs) ys = elim (Bool-cases (q x)) [
  | inl e ↦ rw e (rw (filter-append q xs ys))
  | inr e ↦ rw e (filter-append q xs ys)
]

-- A policy that `create_policy` returns has a rule with an evaluator (any other rule raises), and
-- the policies that apply to an environment are then those from before, with the new one behind
-- them where it applies.
pub create_policy_lem :
    (env : Environment) (new_id : Uuid) (name : String) (scope : Scope) (scope_id : Option Uuid)
    (rule_type : RuleType) (config : PolicyConfig) (enforcement : Enforcement) (active : Bool)
    (actor source_ip : Option String) (db db' : PolicyDb) (p : Policy)
    → create_policy new_id name scope scope_id rule_type config enforcement active actor source_ip
        db
      ≡ some (p, db')
    → (is_some (rule_evaluators rule_type) ≡ true)
      × (resolve_applicable_policies db'.policies env
          ≡ resolve_applicable_policies db.policies env ++ filter (applies env) (p ∷ []))
unfolding create_policy resolve_applicable_policies
create_policy_lem env new_id name scope scope_id rule_type config enforcement active actor source_ip
      db db' p made =
    (
      rw (← known_rule_lem rule_type) (ground arith),
      rw (appended) (filter-append (applies env) db.policies (p ∷ [])),
    )
  where
    appended : db'.policies ≡ db.policies ++ p ∷ []
    appended = ground arith
