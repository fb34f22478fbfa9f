-- ===== src/Workers/Tests.antt =====
-- The theorems on the workers at concrete runs and clients.
use spark_pilot.Prelude.{
  ℕ, ◌≤◌, ◌≡◌, inl, inr, refl, true, false, none, some, List, [], ◌∷◌, All, length, filter, ◌==◌,
  arith,
}
use spark_pilot.Models.{Run, RunState}
use spark_pilot.Workers.Claims.{
  run_claims, claim_rows, claim_update, claim_rowcount, claim_cutoff_time, claim_matches,
  claim_available, release_claim,
}
use spark_pilot.Workers.Exclusive.{
  run_claims-ClaimLaws, run_in, ClaimedBy, claim_exclusive, claim_rows_claimed,
}
use spark_pilot.Workers.Faults.{Attempt, raised, returned}
use spark_pilot.Workers.Scheduler.{schedule_run}
use spark_pilot.Workers.Scheduler.Outcome.{SameSubmission, Ends, schedule_run_outcome}
use spark_pilot.Workers.Scheduler.Gate.{gated_run_reaches_no_backend}
use spark_pilot.Workers.Scheduler.Retries.{is_queued, rounds, queue_is_left}
use spark_pilot.Workers.Reconciler.{timed_out_run, plain_event, reconcile_run}
use spark_pilot.Workers.Cloud.{EmrState, Session, Outside}
use spark_pilot.Workers.Reconciler.Outcome.{Reconciled, reconcile_run_outcome}
use spark_pilot.Finops.Usage.{Ledger, record_usage_if_needed}
use spark_pilot.Workers.Reconciler.Overdue.{overdue_run_waits_for_cancel, overdue_run_times_out}
use spark_pilot.Samples.{
  env, job, no_ledger, queued_run, accepted_run, working_clients, throttled_clients, throttled,
  preflight_of, session, outside_with,
}

abbrev as_found : List Run → List Run
as_found runs = runs

abbrev two_runs : List Run
two_runs = queued_run ∷ record queued_run { id = 8 } ∷ []

claim_exclusive_example :
    claim_rowcount run_claims
      (run_in is_queued)
      as_found
      "second"
      7
      1000
      (claim_update run_claims (run_in is_queued) as_found "first" 7 0 2000 two_runs)
    ≡ 0
unfolding claim_rowcount claim_matches claim_available
claim_exclusive_example =
    claim_exclusive run_claims (run_in is_queued) (run_claims-ClaimLaws is_queued) as_found "first"
      "second" 7 0 2000 1000 two_runs refl (omega arith)

two_runs_unique : (j : ℕ) → length (filter (λ (run : Run). run.id == j) two_runs) ≤ 1
two_runs_unique j = ground arith

claim_rows_claimed_example :
    All
      (ClaimedBy run_claims
        (run_in is_queued)
        (run_claims-ClaimLaws is_queued)
        as_found
        "first"
        (claim_cutoff_time 1000)
        2000)
      (claim_rows run_claims (run_in is_queued) as_found "first" (some 20) 1000 2000 two_runs).1
claim_rows_claimed_example =
    claim_rows_claimed run_claims (run_in is_queued) (run_claims-ClaimLaws is_queued) as_found
      "first" (some 20) 1000 2000 two_runs (λ P xs h. h) two_runs_unique

schedule_run_outcome_example :
    let run' =
      (schedule_run throttled_clients (preflight_of true) "worker" 50 env job (queued_run, [])).0 in
    SameSubmission queued_run run'
    × Ends 50 job queued_run run'
    × (run'.worker_claim_token ≡ none)
    × (run'.worker_claimed_at ≡ none)
schedule_run_outcome_example =
    schedule_run_outcome "worker" 50 env job throttled_clients (preflight_of true) queued_run []

gated_run_reaches_no_backend_example :
    schedule_run working_clients (preflight_of false) "worker" 50 env job (queued_run, [])
    ≡ schedule_run throttled_clients (preflight_of false) "worker" 50 env job (queued_run, [])
gated_run_reaches_no_backend_example =
    gated_run_reaches_no_backend working_clients throttled_clients (preflight_of false) "worker" 50
      env job queued_run []
      (inr (inl (record { run_id = some 7; is_ready = false; checks = [] }, refl, refl)))

queue_is_left_example :
    is_queued
      (rounds
        (λ _. throttled_clients)
        (λ _. preflight_of true)
        "worker"
        (λ n. n)
        env
        job
        2
        (queued_run, [])).0.state
    ≡ false
queue_is_left_example =
    queue_is_left (λ _. throttled_clients) (λ _. preflight_of true) "worker" (λ n. n) env job 1
      queued_run [] (omega arith)

abbrev finished : Outside
finished = outside_with (returned (EmrState.completed, none)) (returned none)

reconcile_run_outcome_example :
    let (run', session') =
      reconcile_run finished "worker" 100000000 env job (accepted_run, session) in
    Reconciled accepted_run (run', session')
    × (run'.worker_claim_token ≡ none)
    × (run'.worker_claimed_at ≡ none)
reconcile_run_outcome_example =
    reconcile_run_outcome finished "worker" 100000000 env job accepted_run session refl

abbrev refusing : Outside
refusing = outside_with (returned (EmrState.running, none)) (raised throttled)

abbrev audited : Session
audited = record session {
  audit = plain_event refusing "worker" 0 env job "run.preflight_passed" accepted_run none ∷ [];
}

overdue_run_waits_for_cancel_example :
    reconcile_run refusing "worker" 3600000001 env job (accepted_run, audited)
    ≡ (accepted_run, audited)
unfolding release_claim
overdue_run_waits_for_cancel_example =
    overdue_run_waits_for_cancel refusing "worker" 3600000001 env job accepted_run audited throttled
      refl refl refl refl

abbrev ledger_of : Attempt Ledger → Ledger
ledger_of (raised fault) = no_ledger
ledger_of (returned ledger) = ledger

abbrev timed_out_ledger : Ledger
timed_out_ledger = ledger_of (
    record_usage_if_needed finished.price finished.cost_center finished.billing_period 3600000001
      (timed_out_run finished "worker" 3600000001 env job accepted_run) env audited.ledger)

timed_out_usage :
    record_usage_if_needed finished.price finished.cost_center finished.billing_period 3600000001
      (timed_out_run finished "worker" 3600000001 env job accepted_run)
      env
      audited.ledger
    ≡ returned timed_out_ledger
unfolding record_usage_if_needed
timed_out_usage = refl

overdue_run_times_out_example :
    let (run', session') =
      reconcile_run finished "worker" 3600000001 env job (accepted_run, audited) in
    (run'.state ≡ RunState.timed_out)
    × (run'.ended_at ≡ some 3600000001)
    × (run'.cancellation_requested ≡ true)
    × (session'.ledger ≡ timed_out_ledger)
overdue_run_times_out_example =
    overdue_run_times_out finished "worker" 3600000001 env job accepted_run audited none
      timed_out_ledger refl refl refl timed_out_usage
