-- ===== src/System.antt =====
-- The runs' life cycle: the operations of the API and of the workers as steps on one database. A step
-- is one transaction, which reads the rows that it writes; the row locks of `_claim_runs` and of
-- `lock_environment_for_quota` serialize those on one run and the submissions to one environment.
pub mod Writes
pub mod Ended
pub mod Sound
pub mod Waiting
mod Tests
use spark_pilot.Prelude.{ℕ, String, Bool, Option, none, some, List, ◌≡◌, Dict, true, false}
use spark_pilot.Prelude.Table.{get_row, modify_row}
use spark_pilot.Models.{Uuid, Time, Run, RunState, Job, Environment, Details, AuditEvent}
use spark_pilot.Errors.{ok}
use spark_pilot.Database.{Db, run_key}
use spark_pilot.Finops.Usage.{Ledger}
use spark_pilot.Preflight.Checks.{Report}
use spark_pilot.Runs.Configuration.{RunCreateRequest}
use spark_pilot.Runs.Create.{create_run}
use spark_pilot.Runs.Cancel.{cancel_run}
use spark_pilot.Workers.Claims.{run_claims, claim_update}
use spark_pilot.Workers.Exclusive.{run_in}
use spark_pilot.Workers.Faults.{Attempt}
use spark_pilot.Workers.Scheduler.{Clients, Handled, schedule_run}
use spark_pilot.Workers.Scheduler.Retries.{is_queued}
use spark_pilot.Workers.Reconciler.{reconcile_run}
use spark_pilot.Workers.Cloud.{Outside, Session}
use spark_pilot.Workers.Reconciler.Outcome.{at_cloud}

pub data Worker : Type 0 where
  scheduler reconciler : Worker

-- The states that a worker claims.
abbrev pub claims : Worker → RunState → Bool
claims Worker.scheduler = is_queued
claims Worker.reconciler = at_cloud

-- A claimed run and the log, written back.
abbrev pub write_run : Uuid → Handled → Db → Db
write_run id handled db = record db {
  runs = modify_row run_key id (λ _. handled.0) db.runs;
  audit = handled.1;
}

abbrev pub session_of : Db → Ledger → List (Uuid × String) → Session
session_of db ledger diagnostics = record {
  audit = db.audit;
  ledger = ledger;
  diagnostics = diagnostics;
}

abbrev pub handled_of : Run × Session → Handled
handled_of (run, session) = (run, session.audit)

pub data Step (db : Db) : Db → Type 0 where
  -- A submission that succeeds, where the database draws an identifier that no run has.
  submitted :
      (nulls_first : Bool) (lf_context : Environment → Option Details) (new_id : Uuid) (now : Time)
      (actor : String) (source_ip : Option String) (job_id : Uuid) (key : String)
      (req : RunCreateRequest) (run : Run) (db' : Db)
      → get_row run_key new_id db.runs ≡ none
      → create_run nulls_first lf_context new_id now actor source_ip job_id key req db
        ≡ ok (run, db')
      → Step db db'
  -- A cancellation that succeeds.
  cancelled :
      (now : Time) (actor : String) (source_ip : Option String) (id : Uuid) (run : Run) (db' : Db)
      → cancel_run now actor source_ip id db ≡ ok (run, db')
      → Step db db'
  -- A worker's update of one candidate.
  claimed :
      (worker : Worker) (order : List Run → List Run) (token : String) (id : Uuid)
      (cutoff now : Time)
      → Step db (record db {
        runs = claim_update run_claims (run_in (claims worker)) order token id cutoff now db.runs;
      })
  -- A round of the scheduler on a queued run.
  scheduled :
      (clients : Clients) (build_preflight : Environment → Uuid → Dict String → Attempt Report)
      (actor : String) (now : Time) (env : Environment) (job : Job) (id : Uuid) (run : Run)
      → get_row run_key id db.runs ≡ some run
      → is_queued run.state ≡ true
      → Step db
          (write_run id (schedule_run clients build_preflight actor now env job (run, db.audit)) db)
  -- A round of the reconciler on an accepted or running run.
  reconciled :
      (outside : Outside) (actor : String) (now : Time) (env : Environment) (job : Job)
      (ledger : Ledger) (diagnostics : List (Uuid × String)) (id : Uuid) (run : Run)
      → get_row run_key id db.runs ≡ some run
      → at_cloud run.state ≡ true
      → Step db (
          write_run id
            (handled_of
              (reconcile_run outside actor now env job (run, session_of db ledger diagnostics)))
            db)

-- The databases that are reached from one.
pub data Reach (start : Db) : Db → Type 0 where
  here : Reach start start
  later : {db db' : Db} → Reach start db → Step db db' → Reach start db'
