-- ===== src/Workers/Scheduler/Retries.antt =====
-- Rounds of the scheduler on one run.
use spark_pilot.Prelude.{
  ℕ, zero, suc, ◌+◌, ◌≤◌, ◌≡◌, ◌⊎◌, inl, inr, refl, String, Bool, true, false, List, Dict,
  if◌then◌else◌, arith,
}
use spark_pilot.Models.{Uuid, Time, Run, RunState, Job, Environment, AuditEvent}
use spark_pilot.Preflight.Checks.{Report}
use spark_pilot.Workers.Faults.{Attempt}
use spark_pilot.Workers.Scheduler.{Clients, Handled, schedule_run}
use spark_pilot.Workers.Scheduler.Outcome.{Ends, schedule_run_outcome}

abbrev pub is_queued : RunState → Bool
is_queued RunState.queued = true
is_queued _ = false

module _ (clients : ℕ → Clients)
    (build_preflight : ℕ → Environment → Uuid → Dict String → Attempt Report) (actor : String)
    (clock : ℕ → Time) (env : Environment) (job : Job) where
  -- A round on a queued run; any other run is not claimed by the scheduler.
  abbrev pub round : ℕ → Handled → Handled
  round n (run, log) =
      if is_queued run.state
      then schedule_run (clients n) (build_preflight n) actor (clock n) env job (run, log)
      else (run, log)

  -- The last `n` rounds, the clouds and the clock answering anew in each.
  unfoldable pub rounds : ℕ → Handled → Handled
  rounds zero handled = handled
  rounds (suc n) handled = rounds n (round n handled)

  rounds-settled :
      (n : ℕ) (run : Run) (log : List AuditEvent)
      → is_queued run.state ≡ false
      → rounds n (run, log) ≡ (run, log)
  unfolding rounds
  rounds-settled zero run log h = refl
  rounds-settled (suc n) run log h = rw h (rounds-settled n run log h)

  Progress : Run → Run → Type 0
  Progress run run' =
      (is_queued run'.state ≡ false)
      ⊎ ((run'.attempt ≡ run.attempt + 1) × (run'.attempt ≤ job.retry_max_attempts))

  Ends-Progress : (now : Time) (run run' : Run) → Ends now job run run' → Progress run run'
  unfolding Progress
  Ends-Progress now run run' h = ground arith

  round-Progress : (n : ℕ) (run : Run) (log : List AuditEvent) → Progress run (round n (run, log)).0
  unfolding Progress
  round-Progress n run log = on_state (is_queued run.state) refl
    where
      on_state :
          (b : Bool)
          → is_queued run.state ≡ b
          → Progress run
              (if b
                then schedule_run (clients n) (build_preflight n) actor (clock n) env job (run, log)
                else (run, log)).0
      on_state true e =
          Ends-Progress (clock n) run
            (schedule_run (clients n) (build_preflight n) actor (clock n) env job (run, log)).0
            (schedule_run_outcome actor (clock n) env job (clients n) (build_preflight n) run log).1
      on_state false e = inl e

  -- Whatever the backends, the preflight and the clock answer, a run has left the queue for good
  -- after one round for each attempt that its job still allows, and one more.
  pub queue_is_left :
      (n : ℕ) (run : Run) (log : List AuditEvent)
      → job.retry_max_attempts ≤ run.attempt + n
      → is_queued (rounds (suc n) (run, log)).0.state ≡ false
  unfolding rounds Progress
  queue_is_left zero run log h = elim (round-Progress zero run log) [
    | inl settled ↦ settled
    | inr again ↦ absurd (omega arith)
  ]
  queue_is_left (suc m) run log h =
      let (run', log') = round (suc m) (run, log) in
      elim (round-Progress (suc m) run log) [
        | inl settled ↦ rw (rounds-settled (suc m) run' log' settled) settled
        | inr (next, allowed) ↦ queue_is_left m run' log' (omega arith)
      ]
