-- ===== src/System/Waiting.antt =====
-- Runs of an environment that is not provisioned, whatever else happens to the runs.
use spark_pilot.Prelude.{
  ◌≡◌, refl, sym, ap, ◌∙◌, inl, inr, String, Bool, Option, none, List, find, Bool-cases,
  Option-cases,
}
use spark_pilot.Prelude.Table.{get_row}
use spark_pilot.Models.{
  Uuid, Time, Run, Tenant, Job, Environment, ProvisioningOperation, Details, is_terminal,
}
use spark_pilot.Errors.{ok, err, conflict, >>=-eq-ok, ok-injective}
use spark_pilot.Database.{Db, environment_key, require_environment, require_job, require_run}
use spark_pilot.Runs.Configuration.{RunCreateRequest}
use spark_pilot.Runs.Create.{create_run, admit, same_submission}
use spark_pilot.Runs.Cancel.{cancel_run}
use spark_pilot.Environments.Create.{
  Settings, EnvironmentCreateRequest, create_environment, create_job,
}
use spark_pilot.Environments.FirstRun.{job_key, first_rows}
use spark_pilot.System.{Step, Reach}
use spark_pilot.System.Writes.{Step-Writes}

cancel-jobs :
    (now : Time) (actor : String) (source_ip : Option String) (id : Uuid) (db db' : Db) (run : Run)
    → cancel_run now actor source_ip id db ≡ ok (run, db')
    → db'.jobs ≡ db.jobs
unfolding cancel_run
cancel-jobs now actor source_ip id db db' run h =
    let (r, _, h1) = >>=-eq-ok (require_run db id) _ h in
    let (env, _, h2) = >>=-eq-ok (require_environment db r.environment_id) _ h1 in
    elim (Bool-cases (is_terminal r.state)) [
      | inl e ↦ sym (ap (λ (x : Run × Db). x.1.jobs) (ok-injective (rw e at h2)))
      | inr e ↦ sym (ap (λ (x : Run × Db). x.1.jobs) (ok-injective (rw e at h2)))
    ]

submit-jobs :
    (nulls_first : Bool) (lf_context : Environment → Option Details) (new_id : Uuid) (now : Time)
    (actor : String) (source_ip : Option String) (job_id : Uuid) (key : String)
    (req : RunCreateRequest) (db db' : Db) (run : Run)
    → create_run nulls_first lf_context new_id now actor source_ip job_id key req db ≡ ok (run, db')
    → db'.jobs ≡ db.jobs
unfolding create_run
submit-jobs nulls_first lf_context new_id now actor source_ip job_id key req db db' run h =
    let (a, _, h1) =
      >>=-eq-ok (admit nulls_first lf_context new_id now actor source_ip job_id req db) _ h in
    elim (Option-cases (find (same_submission job_id key) db.runs)) [
      | inl e ↦ sym (ap (λ (x : Run × Db). x.1.jobs) (ok-injective (rw e at h1)))
      | inr (r, e) ↦ sym (ap (λ (x : Run × Db). x.1.jobs) (ok-injective (rw e at h1)))
    ]

Step-jobs : {db db' : Db} → Step db db' → db'.jobs ≡ db.jobs
Step-jobs {db}
      (Step.submitted nulls_first lf_context new_id now actor source_ip job_id key req run db' fresh
        made) =
    submit-jobs nulls_first lf_context new_id now actor source_ip job_id key req db db' run made
Step-jobs {db} (Step.cancelled now actor source_ip id run db' done) =
    cancel-jobs now actor source_ip id db db' run done
Step-jobs {db} (Step.claimed worker order token id cutoff now) = refl
Step-jobs {db} (Step.scheduled clients build_preflight actor now env job id run found queued) = refl
Step-jobs {db} (Step.reconciled outside actor now env job ledger diagnostics id run found cloud) =
    refl

-- No step on the runs writes a job or an environment.
Reach-keeps : {db e : Db} → Reach db e → (e.jobs ≡ db.jobs) × (e.environments ≡ db.environments)
Reach-keeps Reach.here = (refl, refl)
Reach-keeps (Reach.later r step) =
    let (jobs, environments) = Reach-keeps r in
    (Step-jobs step ∙ jobs, (Step-Writes step).0 ∙ environments)

-- After an environment and then a job of it are created, every submission of the job is refused,
-- whatever it asks for and whatever submissions, cancellations, claims and rounds of the scheduler and
-- the reconciler come in between, if their identifiers are new.
pub new_environment_takes_no_run :
    (settings : Settings) (new_id op_id : Uuid) (now later : Time) (actor submitter : String)
    (source_ip submitter_ip : Option String) (key : String) (req : EnvironmentCreateRequest)
    (tenants : List Tenant) (env : Environment) (op : ProvisioningOperation) (job made : Job)
    (db db' db'' e : Db) (nulls_first : Bool) (lf_context : Environment → Option Details)
    (run_id : Uuid) (run_key : String) (run_req : RunCreateRequest)
    → get_row environment_key new_id db.environments ≡ none
    → get_row job_key job.id db.jobs ≡ none
    → job.environment_id ≡ new_id
    → create_environment settings new_id op_id now actor source_ip key req tenants db
      ≡ ok ((env, op), db')
    → create_job actor source_ip job db' ≡ ok (made, db'')
    → Reach db'' e
    → create_run nulls_first lf_context run_id later submitter submitter_ip job.id run_key run_req e
      ≡ err (conflict "Environment is not ready.")
unfolding create_run admit require_job require_environment
new_environment_takes_no_run settings new_id op_id now later actor submitter source_ip submitter_ip
      key req tenants env op job made db db' db'' e nulls_first lf_context run_id run_key run_req
      fresh new_job own created h r =
    let (stored_job, stored) =
      first_rows settings new_id op_id now actor source_ip key req tenants env op job made db db'
        db'' fresh new_job created h in
    let (jobs, environments) = Reach-keeps r in
    rw (jobs, stored_job, own, environments, stored) refl
