-- ===== src/Runs/Cancellation.antt =====
-- `cancel_run` on every state of a run.
use spark_pilot.Prelude.{String, ◌≡◌, ◌⊎◌, true, false, Option, some, [], ◌∷◌, ◌++◌, arith}
use spark_pilot.Prelude.Table.{get_row, modify_row}
use spark_pilot.Models.{Uuid, Time, Run, RunState, Environment, is_terminal}
use spark_pilot.Errors.{ok}
use spark_pilot.Database.{Db, run_key, require_run, require_environment}
use spark_pilot.Runs.Cancel.{request_cancel, cancel_event, cancel_run}

-- The specification, state by state.
abbrev pub cancelled_in : RunState → Time → Run → Run
cancelled_in RunState.queued now run = record run {
  state = RunState.cancelled;
  ended_at = some now;
}
cancelled_in RunState.dispatching now run = record run {
  state = RunState.cancelled;
  ended_at = some now;
}
cancelled_in RunState.accepted now run = record run { cancellation_requested = true }
cancelled_in RunState.running now run = record run { cancellation_requested = true }
cancelled_in _ now run = run

-- A cancellation that succeeds returns the run as the specification says, by its state. If the run
-- has ended the database is as before; otherwise that run's row is written and nothing else of the
-- runs, and one event with the actor's request is audited.
pub cancel_run_lem :
    (now : Time) (actor : String) (source_ip : Option String) (id : Uuid) (db : Db) (run : Run)
    (env : Environment) (result : Run × Db)
    → get_row run_key id db.runs ≡ some run
    → require_environment db run.environment_id ≡ ok env
    → cancel_run now actor source_ip id db ≡ ok result
    → (result.0 ≡ cancelled_in run.state now run)
      × ((is_terminal run.state ≡ true) × (result.1 ≡ db)
          ⊎ (is_terminal run.state ≡ false)
            × (result.1.runs ≡ modify_row run_key run.id (request_cancel now) db.runs)
            × (result.1.audit ≡ db.audit ++ cancel_event actor source_ip env run.id ∷ []))
unfolding cancel_run require_run request_cancel
cancel_run_lem now actor source_ip id db run env result found here done = ground arith
