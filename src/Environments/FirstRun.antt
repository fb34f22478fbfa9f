-- ===== src/Environments/FirstRun.antt =====
-- A job of an environment that has just been created.
use spark_pilot.Prelude.{
  ℕ, ◌≡◌, refl, ==_refl, String, Option, none, some, List, [], ◌∷◌, ◌++◌, arith,
}
use spark_pilot.Prelude.Table.{get_row}
use spark_pilot.Models.{Uuid, Time, Tenant, Job, Environment, ProvisioningOperation}
use spark_pilot.Errors.{ok, >>=-eq-ok}
use spark_pilot.Database.{Db, environment_key, require_environment}
use spark_pilot.Environments.Create.{
  Settings, EnvironmentCreateRequest, new_environment, create_environment, create_job,
}
use spark_pilot.Environments.Creation.{Created-parts, create_environment_lem}

abbrev pub job_key : Job → ℕ
job_key j = j.id

appended_job :
    (job : Job) (jobs : List Job)
    → get_row job_key job.id jobs ≡ none
    → get_row job_key job.id (jobs ++ job ∷ []) ≡ some job
unfolding get_row
appended_job job [] h = rw (==_refl job.id) refl
appended_job job (j ∷ jobs) h = ground (arith, appended_job job jobs)

job-parts :
    (actor : String) (source_ip : Option String) (job made : Job) (db db' : Db)
    → create_job actor source_ip job db ≡ ok (made, db')
    → (db'.jobs ≡ db.jobs ++ job ∷ []) × (db'.environments ≡ db.environments)
unfolding create_job
job-parts actor source_ip job made db db' h =
    let (env, _, rest) = >>=-eq-ok (require_environment db job.environment_id) _ h in ground arith

-- The rows that a creation of an environment and then of a job of it leave, if their identifiers are
-- new.
pub first_rows :
    (settings : Settings) (new_id op_id : Uuid) (now : Time) (actor : String)
    (source_ip : Option String) (key : String) (req : EnvironmentCreateRequest)
    (tenants : List Tenant) (env : Environment) (op : ProvisioningOperation) (job made : Job)
    (db db' db'' : Db)
    → get_row environment_key new_id db.environments ≡ none
    → get_row job_key job.id db.jobs ≡ none
    → create_environment settings new_id op_id now actor source_ip key req tenants db
      ≡ ok ((env, op), db')
    → create_job actor source_ip job db' ≡ ok (made, db'')
    → (get_row job_key job.id db''.jobs ≡ some job)
      × (get_row environment_key new_id db''.environments ≡ some (new_environment new_id req))
first_rows settings new_id op_id now actor source_ip key req tenants env op job made db db' db''
      fresh new_job created h =
    let (_, (_, _, same_jobs)) =
      Created-parts settings new_id op_id now actor source_ip key req tenants db env op db'
        created in
    let (stored, _) =
      create_environment_lem settings new_id op_id now actor source_ip key req tenants db env op db'
        fresh created in
    let (jobs, environments) = job-parts actor source_ip job made db' db'' h in
    (rw (jobs, same_jobs) (appended_job job db.jobs new_job), rw environments stored)
