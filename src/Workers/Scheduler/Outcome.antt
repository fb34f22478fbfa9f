-- ===== src/Workers/Scheduler/Outcome.antt =====
-- What one round of the scheduler does to a run.
use spark_pilot.Prelude.{
  ◌+◌, ◌≤◌, ◌≡◌, ◌⊎◌, inl, inr, refl, String, Bool, true, false, none, some, List, Dict, Bool-cases,
  if◌then◌else◌, arith,
}
use spark_pilot.Models.{Uuid, Time, Run, RunState, Job, Environment, Engine, AuditEvent}
use spark_pilot.Preflight.Checks.{Report}
use spark_pilot.Workers.Faults.{Fault, Attempt, raised, returned}
use spark_pilot.Workers.Claims.{release_claim}
use spark_pilot.Workers.Scheduler.{
  Dispatch, Clients, Handled, handle_dispatch_failure, dispatch_run, dispatch_on, with_run,
  databricks_fields, apply_dispatch_result, apply_on, finish_dispatch, after_preflight,
  try_schedule, schedule_run, merged_spark_conf,
}

-- The columns that no round writes.
abbrev pub SameSubmission : Run → Run → Type 0
SameSubmission run run' =
    (run'.id ≡ run.id)
    × (run'.job_id ≡ run.job_id)
    × (run'.environment_id ≡ run.environment_id)
    × (run'.requested_resources_json ≡ run.requested_resources_json)
    × (run'.timeout_seconds ≡ run.timeout_seconds)

-- The four ways in which a round ends.
abbrev pub Ends : Time → Job → Run → Run → Type 0
Ends now job run run' =
    ((run'.state ≡ RunState.queued)
      × (run'.attempt ≡ run.attempt + 1)
      × (run'.attempt ≤ job.retry_max_attempts))
    ⊎ ((run'.state ≡ RunState.accepted)
        × (run'.attempt ≡ run.attempt)
        × (run'.started_at ≡ some now))
    ⊎ ((run'.state ≡ RunState.failed) × (run'.attempt ≡ run.attempt) × (run'.ended_at ≡ some now))
    ⊎ ((run'.state ≡ RunState.cancelled)
        × (run'.attempt ≡ run.attempt)
        × (run'.ended_at ≡ some now))

abbrev pub Goes : Time → Job → Run → Run → Type 0
Goes now job run run' = SameSubmission run run' × Ends now job run run'

module _ (actor : String) (now : Time) (env : Environment) (job : Job) where
  failure-Goes :
      (fault : Fault) (handled : Handled)
      → Goes now job handled.0 (handle_dispatch_failure now actor env job fault handled).0
  unfolding handle_dispatch_failure
  failure-Goes fault (run, log) = ground arith

  apply-Goes :
      (engine : Engine) (d : Dispatch) (run : Run) → Goes now job run (apply_on engine now d run)
  apply-Goes Engine.databricks d run = ground arith
  apply-Goes _ d run = ground arith

  abbrev Kept : Run → Run → Type 0
  Kept run run' = SameSubmission run run' × (run'.attempt ≡ run.attempt)

  abbrev KeptBy : Run → Attempt (Run × Dispatch) → Type 0
  KeptBy run (raised fault) = Unit
  KeptBy run (returned (run', d)) = Kept run run'

  with_run-Kept : (run : Run) (a : Attempt Dispatch) → KeptBy run (with_run run a)
  with_run-Kept run (raised fault) = tt
  with_run-Kept run (returned d) = ground arith

  databricks-Kept : (run : Run) (a : Attempt Dispatch) → KeptBy run (databricks_fields run a)
  databricks-Kept run (raised fault) = tt
  databricks-Kept run (returned d) = ground arith

  dispatch-Kept :
      (engine : Engine) (clients : Clients) (run : Run)
      → KeptBy run (dispatch_on engine clients env job run)
  dispatch-Kept Engine.emr_on_eks clients run =
      with_run-Kept run (clients.start_emr_eks env job run)
  dispatch-Kept Engine.emr_serverless clients run =
      with_run-Kept run (clients.start_emr_serverless env job run)
  dispatch-Kept Engine.emr_on_ec2 clients run =
      with_run-Kept run (clients.start_emr_ec2 env job run)
  dispatch-Kept Engine.databricks clients run =
      databricks-Kept run (clients.submit_databricks env job run)
  dispatch-Kept (Engine.other name) clients run = tt

  finish-Goes :
      (clients : Clients) (build_preflight : Environment → Uuid → Dict String → Attempt Report)
      (run : Run) (log : List AuditEvent) (a : Attempt (Run × Dispatch))
      → KeptBy run a
      → Goes now job run (finish_dispatch clients build_preflight actor now env job a (run, log)).0
  unfolding apply_dispatch_result
  finish-Goes clients build_preflight run log (raised fault) k = failure-Goes fault (run, log)
  finish-Goes clients build_preflight run log (returned (run', d)) k =
      ground (arith, apply-Goes env.engine d run')

  module _ (clients : Clients)
      (build_preflight : Environment → Uuid → Dict String → Attempt Report) where
    after-Goes :
        (a : Attempt Report) (handled : Handled)
        → Goes now job handled.0
            (after_preflight clients build_preflight actor now env job a handled).0
    unfolding dispatch_run
    after-Goes (raised fault) handled = failure-Goes fault handled
    after-Goes (returned report) (run, log) = elim (Bool-cases report.is_ready) [
      | inl e ↦
          let dispatching = record run { state = RunState.dispatching } in
          rw e (
            finish-Goes clients build_preflight dispatching _
              (dispatch_on env.engine clients env job dispatching)
              (dispatch-Kept env.engine clients dispatching))
      | inr e ↦ rw e (ground arith)
    ]

    try-Goes :
        (run : Run) (log : List AuditEvent)
        → Goes now job run (try_schedule clients build_preflight actor now env job (run, log)).0
    unfolding try_schedule
    try-Goes run log = on_request run.cancellation_requested
      where
        on_request :
            (b : Bool)
            → Goes now job run
                (if b
                  then (record run { state = RunState.cancelled; ended_at = some now }, log)
                  else after_preflight clients build_preflight actor now env job
                      (build_preflight env run.id (merged_spark_conf job run))
                      (run, log)).0
        on_request true = ground arith
        on_request false =
            after-Goes (build_preflight env run.id (merged_spark_conf job run)) (run, log)

    -- A round of the scheduler puts a run back into the queue with its next attempt, which the job
    -- allows, or accepts, fails or cancels it on the same attempt, with the time at which it started
    -- or ended. It never leaves it dispatching; it releases the claim, and it keeps the identity,
    -- the resources and the timeout that were admitted.
    pub schedule_run_outcome :
        (run : Run) (log : List AuditEvent)
        → let run' = (schedule_run clients build_preflight actor now env job (run, log)).0 in
          SameSubmission run run'
          × Ends now job run run'
          × (run'.worker_claim_token ≡ none)
          × (run'.worker_claimed_at ≡ none)
    unfolding schedule_run release_claim
    schedule_run_outcome run log = let (same, ends) = try-Goes run log in (same, ends, refl, refl)
