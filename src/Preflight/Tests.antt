-- ===== src/Preflight/Tests.antt =====
-- The theorems on preflights at concrete checks and caches.
use spark_pilot.Prelude.{
  ℕ, ◌≡◌, refl, String, true, false, Option, none, some, List, [], ◌∷◌, map, arith, ◌==◌,
}
use spark_pilot.Models.{RuleType, Enforcement, no_restriction}
use spark_pilot.Policy.Engine.{PolicyResult}
use spark_pilot.Preflight.Checks.{Check, Status, Report, add_checks, ready}
use spark_pilot.Preflight.Cache.{Entry, build_preflight_cached, trim_preflight_cache, cache_get}
use spark_pilot.Preflight.Ready.{ready_exact}
use spark_pilot.Preflight.Policies.{policy_check, policies_block_exactly}
use spark_pilot.Preflight.Hits.{cached_report_is_first_runs}

abbrev check : String → Status → Check
check message status = record {
  code = "config.quota";
  status = status;
  message = message;
  remediation = none;
  details = [];
}

-- The second call merges into the first one's place and is outweighed.
abbrev emitted : List Check
emitted = check "above" Status.fail ∷ check "within" Status.pass ∷ []

ready_exact_example : ready (add_checks [] emitted) ≡ false
ready_exact_example = ready_exact emitted

abbrev result : Enforcement → PolicyResult
result enforcement = record {
  policy_id = 20;
  policy_name = "guard";
  rule_type = RuleType.max_vcpu;
  enforcement = enforcement;
  passed = false;
  message = no_restriction;
  remediation = none;
}

policies_block_exactly_example :
    ready (
      add_checks [] (
        map
          (policy_check (λ _. "refused") (λ _. none) (λ _. "20"))
          (result Enforcement.soft ∷ result Enforcement.hard ∷ [])))
    ≡ false
policies_block_exactly_example =
    policies_block_exactly (λ _. "refused") (λ _. none) (λ _. "20")
      (result Enforcement.soft ∷ result Enforcement.hard ∷ [])

-- A preflight that only run 7 passes.
abbrev build : Option ℕ → Report
build none = record { run_id = none; is_ready = false; checks = [] }
build (some id) = record { run_id = some id; is_ready = id == 7; checks = [] }

abbrev old_entry : Entry
old_entry = record { cache_key = 3; cached_at = 0; report = build (some 3) }

cached_report_is_first_runs_example :
    (build_preflight_cached build 3 400000001
      (some 8)
      (build_preflight_cached build 3 400000000 (some 7) (old_entry ∷ [])).1).0
    ≡ record { run_id = some 8; is_ready = true; checks = [] }
unfolding trim_preflight_cache cache_get
cached_report_is_first_runs_example =
    cached_report_is_first_runs build 3 400000000 400000001 (some 7) (some 8) (old_entry ∷ []) refl
      (omega arith)
