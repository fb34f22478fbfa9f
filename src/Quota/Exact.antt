-- ===== src/Quota/Exact.antt =====
-- The quota test is exact, and admitting a run keeps an environment within its quotas.
use spark_pilot.Prelude.{
  ◌+◌, ◌≤◌, ◌<◌, ◌≡◌, ◌≢◌, ◌↔◌, ◌⊎◌, ap, refl, true, false, List, [], ◌∷◌, ◌++◌, length,
  length-append, Bool-cases, inl, inr, arith,
}
use spark_pilot.Models.{Run, Environment, Resources, is_active}
use spark_pilot.Errors.{ok}
use spark_pilot.Quota.{run_vcpu, counts, active_runs, sum_vcpu, enforce_quota_for_run}

-- The environment's active runs are within its two quotas.
pub record WithinQuota (env : Environment) (runs : List Run) : Type 0 where
  pub runs_fit : length (active_runs env runs) ≤ env.max_concurrent_runs
  pub vcpu_fit : sum_vcpu (active_runs env runs) ≤ env.max_vcpu

-- A run is admitted exactly when fewer runs are active than the environment allows and the active
-- runs' vCPUs together with the requested ones do not pass its vCPU quota.
pub enforce_quota_exact :
    (runs : List Run) (env : Environment) (requested : Resources)
    → (enforce_quota_for_run runs env requested ≡ ok tt) ↔ (
        (length (active_runs env runs) < env.max_concurrent_runs)
        × (sum_vcpu (active_runs env runs) + run_vcpu requested ≤ env.max_vcpu))
unfolding enforce_quota_for_run
enforce_quota_exact runs env requested = (λ h. ground arith, λ h. ground arith)

sum_vcpu-append : (xs ys : List Run) → sum_vcpu (xs ++ ys) ≡ sum_vcpu xs + sum_vcpu ys
unfolding sum_vcpu
sum_vcpu-append [] ys = omega arith
sum_vcpu-append (x ∷ xs) ys = omega (arith, sum_vcpu-append xs ys)

active_runs-append :
    (env : Environment) (xs ys : List Run)
    → active_runs env (xs ++ ys) ≡ active_runs env xs ++ active_runs env ys
active_runs-append env [] ys = refl
active_runs-append env (x ∷ xs) ys = elim (Bool-cases (counts env x)) [
  | inl e ↦ rw e (rw (active_runs-append env xs ys))
  | inr e ↦ rw e (active_runs-append env xs ys)
]

count-append :
    (env : Environment) (xs ys : List Run)
    → length (active_runs env (xs ++ ys))
      ≡ length (active_runs env xs) + length (active_runs env ys)
count-append env xs ys = rw (active_runs-append env xs ys) (length-append (active_runs env xs) _)

vcpu-append :
    (env : Environment) (xs ys : List Run)
    → sum_vcpu (active_runs env (xs ++ ys))
      ≡ sum_vcpu (active_runs env xs) + sum_vcpu (active_runs env ys)
vcpu-append env xs ys = rw (active_runs-append env xs ys) (sum_vcpu-append (active_runs env xs) _)

one_counts :
    (env : Environment) (run : Run)
    → (length (active_runs env (run ∷ [])) ≤ 1)
      × (sum_vcpu (active_runs env (run ∷ [])) ≤ run_vcpu run.requested_resources_json)
unfolding sum_vcpu
one_counts env run = ground arith

none_counts :
    (env : Environment) (run : Run) → run.environment_id ≢ env.id → active_runs env (run ∷ []) ≡ []
none_counts env run elsewhere = ground arith

none_vcpu :
    (env : Environment) (run : Run)
    → run.environment_id ≢ env.id
    → sum_vcpu (active_runs env (run ∷ [])) ≡ 0
unfolding sum_vcpu
none_vcpu env run elsewhere = rw (none_counts env run elsewhere)

-- Admitting a run that passes the test leaves the environment within its quotas.
pub admit-WithinQuota :
    (env : Environment) (runs : List Run) (run : Run)
    → enforce_quota_for_run runs env run.requested_resources_json ≡ ok tt
    → WithinQuota env (runs ++ run ∷ [])
admit-WithinQuota env runs run passed =
    let (room, cores) = (enforce_quota_exact runs env run.requested_resources_json).0 passed in
    let (one, its_cores) = one_counts env run in
    record {
      runs_fit = omega (arith, count-append env runs (run ∷ []));
      vcpu_fit = omega (arith, vcpu-append env runs (run ∷ []));
    }

-- A run of another environment does not count.
pub admit_elsewhere-WithinQuota :
    (env : Environment) (runs : List Run) (run : Run)
    → run.environment_id ≢ env.id
    → WithinQuota env runs
    → WithinQuota env (runs ++ run ∷ [])
admit_elsewhere-WithinQuota env runs run elsewhere h =
    let uncounted = none_counts env run elsewhere in
    record {
      runs_fit = omega (
        arith,
        h.runs_fit,
        count-append env runs (run ∷ []),
        ap (λ (l : List Run). length l) uncounted,
      );
      vcpu_fit =
          omega (arith, h.vcpu_fit, vcpu-append env runs (run ∷ []), none_vcpu env run elsewhere);
    }

-- A row that changes, but neither its environment nor its resources, and that is not activated.
pub record Settles (x y : Run) : Type 0 where
  pub environment : y.environment_id ≡ x.environment_id
  pub resources : y.requested_resources_json ≡ x.requested_resources_json
  pub activity : (is_active x.state ≡ true) ⊎ (is_active y.state ≡ false)

head_counts :
    (env : Environment) (x y : Run) (after : List Run)
    → Settles x y
    → (length (active_runs env (y ∷ after)) ≤ length (active_runs env (x ∷ after)))
      × (sum_vcpu (active_runs env (y ∷ after)) ≤ sum_vcpu (active_runs env (x ∷ after)))
unfolding sum_vcpu
head_counts env x y after h = ground (arith, ap run_vcpu h.resources)

pub replace-WithinQuota :
    (env : Environment) (before after : List Run) (x y : Run)
    → Settles x y
    → WithinQuota env (before ++ x ∷ after)
    → WithinQuota env (before ++ y ∷ after)
replace-WithinQuota env before after x y settles h =
    let (fewer, less) = head_counts env x y after settles in
    record {
      runs_fit = omega (
        arith,
        h.runs_fit,
        count-append env before (x ∷ after),
        count-append env before (y ∷ after),
      );
      vcpu_fit = omega (
        arith,
        h.vcpu_fit,
        vcpu-append env before (x ∷ after),
        vcpu-append env before (y ∷ after),
      );
    }
