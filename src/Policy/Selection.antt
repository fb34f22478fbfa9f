-- ===== src/Policy/Selection.antt =====
-- Which policies `evaluate_policies` evaluates, and what it reports and audits of them.
use spark_pilot.Prelude.{
  ◌≡◌, ◌≢◌, ◌⊎◌, inl, inr, ◌∙◌, String, Bool, false, Option, none, some, List, [], ◌∷◌, ◌++◌, map,
  filter, append_assoc, append-nil, Option-cases, arith,
}
use spark_pilot.Models.{Policy, Scope, Environment, AuditEvent, policy_evaluated}
use spark_pilot.Policy.Evaluators.{Parameters, Verdict}
use spark_pilot.Policy.Engine.{
  PolicyResult, applies, resolve_applicable_policies, rule_evaluators, result_entry, evaluate_one,
  evaluate_loop, evaluate_policies,
}

module _ (env : Environment) (req : Parameters) where
  abbrev pub expect_one :
      Policy → Option (Policy → Parameters → Verdict) → List PolicyResult → List PolicyResult
  expect_one p none rest = rest
  expect_one p (some evaluator) rest = result_entry p (evaluator p req) ∷ rest

  -- A result for each policy with a known rule, in the table's order.
  abbrev pub expected_results : List Policy → List PolicyResult
  expected_results [] = []
  expected_results (p ∷ ps) = expect_one p (rule_evaluators p.rule_type) (expected_results ps)

-- The audit event that a result calls for.
abbrev pub result_event : String → Option String → Environment → PolicyResult → AuditEvent
result_event actor source_ip env r = record {
  tenant_id = none;
  actor = actor;
  action = "policy.evaluated";
  source_ip = source_ip;
  entity_type = "policy";
  entity_id = r.policy_id;
  details_json = policy_evaluated r.policy_name r.rule_type r.enforcement r.passed env.id;
  aws_request_id = none;
}

module _ (env : Environment) (req : Parameters) (actor : String) (source_ip : Option String) where
  abbrev events : List PolicyResult → List AuditEvent
  events results = map (result_event actor source_ip env) results

  evaluate_loop_lem :
      (policies : List Policy) (results : List PolicyResult) (log : List AuditEvent)
      → evaluate_loop env req actor source_ip policies (results, log) ≡ (
        results ++ expected_results env req policies,
        log ++ events (expected_results env req policies),
      )
  unfolding evaluate_loop evaluate_one
  evaluate_loop_lem [] results log = simp append-nil
  evaluate_loop_lem (p ∷ ps) results log = elim (Option-cases (rule_evaluators p.rule_type)) [
    | inl unknown ↦ rw (unknown, evaluate_loop) (evaluate_loop_lem ps results log)
    | inr (f, known) ↦
        rw (known, evaluate_loop)
          (evaluate_loop_lem ps (results ++ result_entry p (f p req) ∷ [])
              (log ++ result_event actor source_ip env (result_entry p (f p req)) ∷ [])
            ∙ simp append_assoc)
  ]

  -- `evaluate_policies` reports one result for each active policy in scope whose rule is known, in
  -- the table's order, with that rule's verdict on the run's parameters; and the audit log grows by
  -- exactly one event for each result, which records its verdict.
  pub evaluate_policies_lem :
      (policies : List Policy) (log : List AuditEvent)
      → let results = expected_results env req (filter (applies env) policies) in
        evaluate_policies env req actor source_ip policies log
        ≡ (results, log ++ map (result_event actor source_ip env) results)
  unfolding evaluate_policies resolve_applicable_policies
  evaluate_policies_lem policies log = evaluate_loop_lem (filter (applies env) policies) [] log

-- A policy that says nothing of this environment.
abbrev pub Foreign : Environment → Policy → Type 0
Foreign env p =
    (p.active ≡ false)
    ⊎ ((p.scope ≡ Scope.tenant) × (p.scope_id ≢ some env.tenant_id))
    ⊎ ((p.scope ≡ Scope.environment) × (p.scope_id ≢ some env.id))

Foreign-not_applies : (env : Environment) (p : Policy) → Foreign env p → applies env p ≡ false
unfolding applies
Foreign-not_applies env p h = ground arith

filter-skip {ℓ} :
    {A : Type ℓ} (q : A → Bool) (x : A) (xs ys : List A)
    → q x ≡ false
    → filter q (xs ++ x ∷ ys) ≡ filter q (xs ++ ys)
filter-skip q x [] ys h = rw h
filter-skip q x (z ∷ xs) ys h = rw (filter-skip q x xs ys h)

-- A policy that is inactive, or bound to another tenant or another environment, changes neither the
-- results nor the audit log, wherever it stands in the table.
pub evaluate_policies_isolated :
    (env : Environment) (req : Parameters) (actor : String) (source_ip : Option String)
    (before after : List Policy) (p : Policy) (log : List AuditEvent)
    → Foreign env p
    → evaluate_policies env req actor source_ip (before ++ p ∷ after) log
      ≡ evaluate_policies env req actor source_ip (before ++ after) log
unfolding evaluate_policies resolve_applicable_policies
evaluate_policies_isolated env req actor source_ip before after p log foreign =
    rw (filter-skip (applies env) p before after (Foreign-not_applies env p foreign))
