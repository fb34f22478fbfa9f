-- ===== src/Finops/Once.antt =====
-- A run's usage is recorded, and recorded once.
use spark_pilot.Prelude.{
  ℕ, ◌≡◌, refl, subst, ◌==◌, ==_refl, String, true, is_some, List, [], ◌∷◌, ◌++◌, find, Bool-cases,
  inl, inr, arith,
}
use spark_pilot.Models.{Uuid, Time, Run, Environment, Architecture, UsageRecord}
use spark_pilot.Workers.Faults.{Attempt, returned, >>=-eq-returned, returned-injective}
use spark_pilot.Finops.Usage.{
  Ledger, usage_of, usage_record, resource_seconds, total_vcpu, total_memory, allocate,
  record_usage_if_needed,
}

found_last :
    (id : Uuid) (rows : List UsageRecord) (u : UsageRecord)
    → (u.run_id == id) ≡ true
    → is_some (find (usage_of id) (rows ++ u ∷ [])) ≡ true
found_last id [] u h = rw h
found_last id (x ∷ rows) u h = ground (arith, found_last id rows u)

recorded-unchanged :
    (price : Architecture → (vcpu_seconds memory_gb_seconds : ℕ) → Attempt ℕ)
    (cost_center : Environment → Attempt String) (billing_period : Time → String) (now : Time)
    (run : Run) (env : Environment) (ledger : Ledger)
    → is_some (find (usage_of run.id) ledger.usage) ≡ true
    → record_usage_if_needed price cost_center billing_period now run env ledger ≡ returned ledger
unfolding record_usage_if_needed
recorded-unchanged price cost_center billing_period now run env ledger recorded = rw recorded refl

module _ (price : Architecture → (vcpu_seconds memory_gb_seconds : ℕ) → Attempt ℕ)
    (cost_center : Environment → Attempt String) (billing_period : Time → String) where
  pub record_usage-recorded :
      (now : Time) (run : Run) (env : Environment) (ledger once : Ledger)
      → record_usage_if_needed price cost_center billing_period now run env ledger ≡ returned once
      → is_some (find (usage_of run.id) once.usage) ≡ true
  unfolding record_usage_if_needed
  record_usage-recorded now run env ledger once h =
      elim (Bool-cases (is_some (find (usage_of run.id) ledger.usage))) [
        | inl e ↦ ground arith
        | inr e ↦
            let (cost, _, h1) =
              >>=-eq-returned
                (price env.instance_architecture (resource_seconds total_vcpu run)
                  (resource_seconds total_memory run))
                _ (rw e at h) in
            let u = usage_record run env cost in
            let (allocations, _, h2) =
              >>=-eq-returned
                (allocate price cost_center billing_period now run env u ledger.allocations) _ h1 in
            subst (λ (l : Ledger). is_some (find (usage_of run.id) l.usage) ≡ true)
              (returned-injective h2) (found_last run.id ledger.usage u (==_refl run.id))
      ]

  -- Once a run's usage is recorded, recording it again returns and changes neither table: not at a
  -- later time, not with the run's columns as they are then, and whatever the price and the cost
  -- centre are then, or raise.
  pub usage_recorded_once :
      (later_price : Architecture → (vcpu_seconds memory_gb_seconds : ℕ) → Attempt ℕ)
      (later_cost_center : Environment → Attempt String) (now later : Time) (run run' : Run)
      (env : Environment) (ledger once : Ledger)
      → run'.id ≡ run.id
      → record_usage_if_needed price cost_center billing_period now run env ledger ≡ returned once
      → record_usage_if_needed later_price later_cost_center billing_period later run' env once
        ≡ returned once
  usage_recorded_once later_price later_cost_center now later run run' env ledger once same h =
      recorded-unchanged later_price later_cost_center billing_period later run' env once
        (rw same (record_usage-recorded now run env ledger once h))
