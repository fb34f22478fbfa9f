-- ===== src/Workers/Reconciler/Overdue.antt =====
-- Runs that are past their timeout.
use spark_pilot.Prelude.{◌≡◌, refl, true, String, Option, some, Bool-cases, inl, inr}
use spark_pilot.Models.{Time, Run, RunState, Job, Environment}
use spark_pilot.Workers.Claims.{run_claims, release_claim}
use spark_pilot.Workers.Faults.{Fault, raised, returned}
use spark_pilot.Workers.Reconciler.{
  timed_out_run, has_preflight_audit, emit_preflight_diagnostic, mark_run_timed_out, has_run_longer,
  reconcile_body, reconcile_run,
}
use spark_pilot.Finops.Usage.{Ledger, record_usage_if_needed}
use spark_pilot.Workers.Cloud.{truthy, Outside, Session}

module _ (outside : Outside) (actor : String) (now : Time) (env : Environment) (job : Job) where
  abbrev pub requested : Run → Run
  requested run = record run { cancellation_requested = true }

  -- The body of a round on such a run.
  overdue_body :
      (run : Run) (session : Session)
      → has_preflight_audit session.audit run.id ≡ true
      → has_run_longer outside actor now env job run.started_at run.timeout_seconds ≡ true
      → reconcile_body outside actor now env job run session
        ≡ mark_run_timed_out outside actor now env job run session
  unfolding reconcile_body emit_preflight_diagnostic
  overdue_body run session audited overdue = rw audited (rw overdue refl)

  -- A run past its timeout, which the cloud knows and whose preflight is in the audit log, is left
  -- as it is but for the claim, with nothing written, in each round in which the call that cancels
  -- it raises: it does not time out.
  pub overdue_run_waits_for_cancel :
      (run : Run) (session : Session) (fault : Fault)
      → has_preflight_audit session.audit run.id ≡ true
      → has_run_longer outside actor now env job run.started_at run.timeout_seconds ≡ true
      → truthy run.emr_job_run_id ≡ true
      → outside.cancel env (requested run) ≡ raised fault
      → reconcile_run outside actor now env job (run, session)
        ≡ (release_claim run_claims run, session)
  unfolding reconcile_run mark_run_timed_out
  overdue_run_waits_for_cancel run session fault audited overdue known fails =
      rw (overdue_body run session audited overdue) (rw known (rw fails refl))

  -- A run past its timeout whose preflight is in the audit log is timed out in the round in which
  -- the call that cancels it returns and its usage is recorded without a raise, with the time and the
  -- request for cancellation on the run, and the ledger is the recorded one.
  pub overdue_run_times_out :
      (run : Run) (session : Session) (request_id : Option String) (ledger : Ledger)
      → has_preflight_audit session.audit run.id ≡ true
      → has_run_longer outside actor now env job run.started_at run.timeout_seconds ≡ true
      → outside.cancel env (requested run) ≡ returned request_id
      → record_usage_if_needed outside.price outside.cost_center outside.billing_period now
          (timed_out_run outside actor now env job run)
          env
          session.ledger
        ≡ returned ledger
      → let (run', session') = reconcile_run outside actor now env job (run, session) in
        (run'.state ≡ RunState.timed_out)
        × (run'.ended_at ≡ some now)
        × (run'.cancellation_requested ≡ true)
        × (session'.ledger ≡ ledger)
  unfolding reconcile_run mark_run_timed_out release_claim
  overdue_run_times_out run session request_id ledger audited overdue cancels records =
      rw (overdue_body run session audited overdue) (elim (Bool-cases (truthy run.emr_job_run_id)) [
        | inl known ↦ rw known (rw cancels (rw records (refl, refl, refl, refl)))
        | inr unknown ↦ rw unknown (rw records (refl, refl, refl, refl))
      ])
