-- ===== src/Runs/Submission.antt =====
-- `create_run` as its callers rely on it: what holds of a new run, and of a repeated submission.
use spark_pilot.Prelude.{
  ℕ, ◌≤◌, ◌≡◌, ap, subst, ◌∙◌, refl, String, Bool, true, false, Option, none, some, [], ◌∷◌, ◌++◌,
  All, find, arith,
}
use spark_pilot.Prelude.Table.{get_row, get_row-key}
use spark_pilot.Models.{
  Uuid, Time, Run, RunState, Job, Environment, EnvironmentStatus, GoldenPath, Details,
}
use spark_pilot.Errors.{ok, >>=-eq-ok, ok-injective}
use spark_pilot.Database.{Db, environment_key}
use spark_pilot.Policy.Engine.{evaluate_policies}
use spark_pilot.Quota.Exact.{WithinQuota, admit-WithinQuota}
use spark_pilot.Runs.Configuration.{RunCreateRequest, keys, is_forbidden, resolve_timeout_seconds}
use spark_pilot.Runs.Create.{
  Admitted, create_run, insert_run, same_submission, parameters, is_ready,
}
use spark_pilot.Runs.Admission.{
  Checked, admit-Checked, NoneForbidden_of_nil, Harmless, Harmless-of_nil,
}

timeout-le :
    (req : RunCreateRequest) (job : Job) (env : Environment) (path : Option GoldenPath) (t : ℕ)
    → resolve_timeout_seconds req job env path ≡ ok t
    → t ≤ env.max_run_seconds
unfolding resolve_timeout_seconds
timeout-le req job env path t h = ground arith

ready_lem : (s : EnvironmentStatus) → is_ready s ≡ true → s ≡ EnvironmentStatus.ready
ready_lem s h = ground arith

module _ (nulls_first : Bool) (lf_context : Environment → Option Details) (new_id : Uuid)
    (now : Time) (actor : String) (source_ip : Option String) (job_id : Uuid) (key : String)
    (req : RunCreateRequest) (db : Db) where
  -- What is promised of a run that was added.
  pub record Submission (run : Run) (db' : Db) : Type 0 where
    pub env : Environment
    pub stored : get_row environment_key run.environment_id db.environments ≡ some env
    pub ready : env.status ≡ EnvironmentStatus.ready
    pub added : db'.runs ≡ db.runs ++ run ∷ []
    pub identifier : run.id ≡ new_id
    pub environments_kept : db'.environments ≡ db.environments
    pub queued : run.state ≡ RunState.queued
    pub first_attempt : run.attempt ≡ 1
    pub in_quota : WithinQuota env db'.runs
    pub in_time : run.timeout_seconds ≤ env.max_run_seconds
    pub allowed_keys : All (λ k. is_forbidden k ≡ false) (keys run.spark_conf_overrides_json)
    pub no_hard_failure :
        All Harmless
          (evaluate_policies env
            (parameters req run.requested_resources_json run.spark_conf_overrides_json)
            actor
            source_ip
            db.policies
            db.audit).0

  insert-Submission :
      (a : Admitted)
      → Checked nulls_first lf_context new_id now actor source_ip job_id req db a
      → let (run, db') =
          insert_run nulls_first lf_context new_id now actor source_ip key req a db in
        Submission run db'
  insert-Submission a c = record {
    env = a.env;
    stored =
        ap (λ (i : ℕ). get_row environment_key i db.environments)
          (get_row-key environment_key a.job.environment_id db.environments a.env c.stored)
        ∙ c.stored;
    ready = ready_lem a.env.status c.ready;
    added = refl;
    identifier = refl;
    environments_kept = refl;
    queued = refl;
    first_attempt = refl;
    in_quota = admit-WithinQuota a.env db.runs _ c.in_quota;
    in_time = timeout-le req a.job a.env a.golden_path a.timeout_seconds c.in_time;
    allowed_keys = NoneForbidden_of_nil a.spark_conf c.allowed_keys;
    no_hard_failure = Harmless-of_nil _ c.no_hard_failure;
  }

  -- A submission that succeeds where no run has its job and key adds one run at the end of the
  -- table: queued, on its first attempt, of an environment that is ready and, with the new run, is
  -- within its quotas; its timeout is within the environment's, no key of its Spark configuration
  -- is forbidden, and of the policies that apply only soft ones failed on its parameters.
  pub create_run_admits :
      (run : Run) (db' : Db)
      → create_run nulls_first lf_context new_id now actor source_ip job_id key req db
        ≡ ok (run, db')
      → find (same_submission job_id key) db.runs ≡ none
      → Submission run db'
  unfolding create_run
  create_run_admits run db' made fresh =
      let (a, admitted, finished) = >>=-eq-ok _ _ made in
      let checked =
        admit-Checked nulls_first lf_context new_id now actor source_ip job_id req db a admitted in
      subst (λ (r : Run × Db). Submission r.0 r.1) (ok-injective (rw fresh at finished))
        (insert-Submission a checked)
