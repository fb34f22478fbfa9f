-- ===== src/Runs/Admission.antt =====
-- What an admitted run has passed, and what its admission changes.
use spark_pilot.Prelude.{
  ◌≡◌, ◌≢◌, ◌⊎◌, inl, inr, refl, String, Bool, true, false, not, Option, some, List, [], ◌∷◌, Dict,
  All, filter, is_empty, Bool-cases, arith,
}
use spark_pilot.Prelude.Table.{get_row}
use spark_pilot.Models.{Job, Enforcement, Uuid, Time, Environment, Details}
use spark_pilot.Errors.{ok}
use spark_pilot.Database.{Db, environment_key, require_job, require_environment}
use spark_pilot.Policy.Engine.{PolicyResult, evaluate_policies}
use spark_pilot.Quota.{enforce_quota_for_run}
use spark_pilot.Runs.Configuration.{
  RunCreateRequest, insert_sorted, sorted_set, keys, is_forbidden,
  validate_custom_spark_conf_policy, resolve_run_configuration, resolve_timeout_seconds,
}
use spark_pilot.Runs.Create.{Admitted, admit, is_hard_failure, hard_failures, is_ready, parameters}

empty_nil {ℓ} : {A : Type ℓ} (xs : List A) → not (is_empty xs) ≡ false → xs ≡ []
empty_nil [] h = refl
empty_nil (x ∷ xs) h = cc

module _ (nulls_first : Bool) (lf_context : Environment → Option Details) (new_id : Uuid)
    (now : Time) (actor : String) (source_ip : Option String) (job_id : Uuid)
    (req : RunCreateRequest) (db : Db) (a : Admitted) where
  -- Everything that `admit` checked.
  pub record Checked : Type 0 where
    pub stored : get_row environment_key a.job.environment_id db.environments ≡ some a.env
    pub ready : is_ready a.env.status ≡ true
    pub configured :
        resolve_run_configuration nulls_first db.golden_paths a.env req
        ≡ ok (a.golden_path, a.requested, a.spark_conf)
    pub allowed_keys : validate_custom_spark_conf_policy a.spark_conf ≡ []
    pub no_hard_failure :
        hard_failures
          (evaluate_policies a.env
            (parameters req a.requested a.spark_conf)
            actor
            source_ip
            db.policies
            db.audit).0
        ≡ []
    pub in_quota : enforce_quota_for_run db.runs a.env a.requested ≡ ok tt
    pub in_time : resolve_timeout_seconds req a.job a.env a.golden_path ≡ ok a.timeout_seconds

  pub admit-Checked :
      admit nulls_first lf_context new_id now actor source_ip job_id req db ≡ ok a → Checked
  unfolding admit require_environment
  admit-Checked h = ground arith

  pub admit-job :
      admit nulls_first lf_context new_id now actor source_ip job_id req db ≡ ok a
      → get_row (λ (j : Job). j.id) job_id db.jobs ≡ some a.job
  unfolding admit require_job
  admit-job h = ground arith

-- `sorted(set(…))` is empty only for an empty list.
insert_sorted-ne : (k : String) (ks : List String) → insert_sorted k ks ≢ []
unfolding insert_sorted
insert_sorted-ne k [] = λ h. cc
insert_sorted-ne k (x ∷ ks) = λ h. ground arith

pub NoneForbidden_of_nil :
    (conf : Dict String)
    → validate_custom_spark_conf_policy conf ≡ []
    → All (λ k. is_forbidden k ≡ false) (keys conf)
unfolding validate_custom_spark_conf_policy sorted_set
NoneForbidden_of_nil [] h = tt
NoneForbidden_of_nil ((k, v) ∷ conf) h = elim (Bool-cases (is_forbidden k)) [
  | inl e ↦ absurd (insert_sorted-ne k (sorted_set (filter is_forbidden (keys conf))) (rw e at h))
  | inr e ↦ (e, NoneForbidden_of_nil conf (rw e at h))
]

-- A result that does not stop a run: it passed, or its policy is a soft one.
abbrev pub Harmless : PolicyResult → Type 0
Harmless r = (r.passed ≡ true) ⊎ (r.enforcement ≡ Enforcement.soft)

pub Harmless-of_nil :
    (results : List PolicyResult) → hard_failures results ≡ [] → All Harmless results
Harmless-of_nil [] h = tt
Harmless-of_nil (r ∷ results) h = elim (Bool-cases (is_hard_failure r)) [
  | inl e ↦ absurd (∷-ne r (hard_failures results) (rw e at h))
  | inr e ↦ (harmless r e, Harmless-of_nil results (rw e at h))
]
  where
    harmless : (r : PolicyResult) → is_hard_failure r ≡ false → Harmless r
    harmless r e = ground arith

    ∷-ne : (r : PolicyResult) (rs : List PolicyResult) → (r ∷ rs ≡ []) → ⊥
    ∷-ne r rs h = cc
