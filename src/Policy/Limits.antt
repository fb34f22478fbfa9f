-- ===== src/Policy/Limits.antt =====
-- The numeric evaluators against what a limit means.
use spark_pilot.Prelude.{ℕ, ◌≡◌, ◌↔◌, ◌⊎◌, true, Option, none, some, get_or, arith}
use spark_pilot.Prelude.Int.{ℤ, pos, negsuc, ◌≤ℤ◌}
use spark_pilot.Models.{Policy}
use spark_pilot.Policy.Evaluators.{
  Parameters, against_limit, or_default, total_vcpu, total_memory, evaluate_max_runtime_seconds,
  evaluate_max_vcpu, evaluate_max_memory_gb,
}

-- What a configured limit allows: anything if it is missing, zero or negative.
abbrev pub Within : Option ℤ → ℕ → Type 0
Within none used = Unit
Within (some limit) used = (limit ≤ℤ pos 0) ⊎ (pos used ≤ℤ limit)

against_limit_lem :
    (limit : Option ℤ) (used : ℕ)
    → ((against_limit (get_or limit (pos 0)) used).passed ≡ true) ↔ Within limit used
against_limit_lem none used = (λ _. tt, λ _. ground arith)
against_limit_lem (some (pos n)) used = (λ h. ground arith, λ h. ground arith)
against_limit_lem (some (negsuc n)) used = (λ h. ground arith, λ h. ground arith)

-- Each numeric rule passes exactly when its limit is missing or not positive, or when what the run
-- asks for is at most the limit: the timeout, where a missing one or 0 counts as 7200 seconds, the
-- driver's and executors' cores, and their memory.
pub limits_exact :
    (policy : Policy) (req : Parameters)
    → (((evaluate_max_runtime_seconds policy req).passed ≡ true)
        ↔ Within policy.config_json.max_seconds (or_default req.timeout_seconds 7200))
      × (((evaluate_max_vcpu policy req).passed ≡ true)
          ↔ Within policy.config_json.max_vcpu (total_vcpu req.requested_resources))
      × (((evaluate_max_memory_gb policy req).passed ≡ true)
          ↔ Within policy.config_json.max_memory_gb (total_memory req.requested_resources))
unfolding evaluate_max_runtime_seconds evaluate_max_vcpu evaluate_max_memory_gb
limits_exact policy req = (
  against_limit_lem policy.config_json.max_seconds (or_default req.timeout_seconds 7200),
  against_limit_lem policy.config_json.max_vcpu (total_vcpu req.requested_resources),
  against_limit_lem policy.config_json.max_memory_gb (total_memory req.requested_resources),
)
