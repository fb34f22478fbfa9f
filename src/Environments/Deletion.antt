-- ===== src/Environments/Deletion.antt =====
-- What a deletion asks for, and what follows it.
use spark_pilot.Prelude.{
  ◌≡◌, refl, subst, ◌⊎◌, inl, inr, String, Bool, true, false, Option, some, List, any,
  if◌then◌else◌, arith,
}
use spark_pilot.Prelude.Table.{get_row, modify_row, get-modify_row_self}
use spark_pilot.Models.{Uuid, Time, Job, Environment, EnvironmentStatus, Details, AuditEvent}
use spark_pilot.Errors.{ServiceError, raise_if, ok, err, conflict, ◌>>◌, >>=-eq-ok, ok-injective}
use spark_pilot.Database.{Db, environment_key, require_environment, require_job}
use spark_pilot.Runs.Configuration.{RunCreateRequest}
use spark_pilot.Runs.Create.{admit, create_run}
use spark_pilot.Environments.{is_deleted, works_on, runs_on, set_status, delete_environment}

-- What holds after a deletion that succeeds.
abbrev pub Deleted : Uuid → Db → Type 0
Deleted id db =
    (env : Environment) × (get_row environment_key id db.environments ≡ some env)
    × (env.status ≡ EnvironmentStatus.deleted)

deleted_lem : (s : EnvironmentStatus) → is_deleted s ≡ true → s ≡ EnvironmentStatus.deleted
deleted_lem s h = ground arith

stored_environment :
    (db : Db) (id : Uuid) (env : Environment)
    → require_environment db id ≡ ok env
    → get_row environment_key id db.environments ≡ some env
unfolding require_environment
stored_environment db id env h = ground arith

module _ (actor : String) (source_ip : Option String) (id : Uuid) (db : Db) where
  -- What is promised of a deletion.
  abbrev pub Deletion : Db → Type 0
  Deletion db' =
      Deleted id db'
      × (db'.jobs ≡ db.jobs)
      × (db'.runs ≡ db.runs)
      × (db'.operations ≡ db.operations)
      × (Deleted id db
          ⊎ (any (runs_on id) db.runs ≡ false) × (any (works_on id) db.operations ≡ false))

  tests-Deletion :
      (old : Environment) (log : List AuditEvent) (no_runs no_work : ServiceError)
      (gone runs works : Bool)
      → is_deleted old.status ≡ gone
      → any (runs_on id) db.runs ≡ runs
      → any (works_on id) db.operations ≡ works
      → get_row environment_key id db.environments ≡ some old
      → (result : Environment × Db)
      → (if gone
          then ok (old, db)
          else (raise_if runs no_runs
              >> (raise_if works no_work
                  >> ok (
                    set_status EnvironmentStatus.deleted old,
                    record db {
                      environments =
                          modify_row environment_key id
                            (set_status EnvironmentStatus.deleted)
                            db.environments;
                      audit = log;
                    },
                  ))))
        ≡ ok result
      → Deletion result.1
  tests-Deletion old log no_runs no_work true runs works gone r o found result done =
      let before : Deleted id db = (old, found, deleted_lem old.status gone) in
      subst (λ (x : Environment × Db). Deletion x.1) (ok-injective done)
        (before, refl, refl, refl, inl before)
  tests-Deletion old log no_runs no_work false true works gone r o found result done = absurd (cc)
  tests-Deletion old log no_runs no_work false false true gone r o found result done = absurd (cc)
  tests-Deletion old log no_runs no_work false false false gone r o found result done =
      subst (λ (x : Environment × Db). Deletion x.1) (ok-injective done)
        (
          (
            set_status EnvironmentStatus.deleted old,
            get-modify_row_self environment_key id (set_status EnvironmentStatus.deleted)
                db.environments old (λ y. refl) found,
            refl,
          ),
          refl,
          refl,
          refl,
          inr (r, o),
        )

  -- A deletion that succeeds leaves the environment's row deleted, and the jobs, the runs and the
  -- operations as they are; where it was not deleted before, none of its runs was active and no
  -- operation of it was queued or at work.
  pub delete_environment_lem :
      (db' : Db) (env : Environment)
      → delete_environment actor source_ip id db ≡ ok (env, db')
      → Deletion db'
  unfolding delete_environment
  delete_environment_lem db' env done =
      let (old, looked_up, rest) = >>=-eq-ok (require_environment db id) _ done in
      tests-Deletion old _ _ _ (is_deleted old.status) _ _ refl refl refl
        (stored_environment db id old looked_up) (env, db') rest

  -- Once an environment is deleted, every submission of a job of it is refused, whatever it asks for.
  pub deleted_environment_takes_no_run :
      (db' : Db) (env : Environment) (job : Job) (nulls_first : Bool)
      (lf_context : Environment → Option Details) (new_id : Uuid) (now : Time) (submitter : String)
      (submitter_ip : Option String) (job_id : Uuid) (key : String) (req : RunCreateRequest)
      → delete_environment actor source_ip id db ≡ ok (env, db')
      → get_row (λ (j : Job). j.id) job_id db.jobs ≡ some job
      → job.environment_id ≡ id
      → create_run nulls_first lf_context new_id now submitter submitter_ip job_id key req db'
        ≡ err (conflict "Environment is not ready.")
  unfolding create_run admit require_job require_environment
  deleted_environment_takes_no_run db' env job nulls_first lf_context new_id now submitter
        submitter_ip job_id key req done stored owned =
      let ((row, found, gone), jobs, _, _, _) = delete_environment_lem db' env done in
      rw jobs (rw stored (rw owned (rw found (rw gone refl))))
