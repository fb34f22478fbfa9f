-- ===== src/Workers/Scheduler/Gate.antt =====
-- What keeps the scheduler from a backend, and how often it tries one.
use spark_pilot.Prelude.{◌≡◌, ◌⊎◌, inl, inr, refl, String, true, false, List, Dict, arith}
use spark_pilot.Models.{Uuid, Time, Run, Job, Environment, AuditEvent}
use spark_pilot.Preflight.Checks.{Report}
use spark_pilot.Workers.Faults.{Fault, Attempt, raised, returned}
use spark_pilot.Workers.Scheduler.{
  Clients, Handled, after_preflight, try_schedule, schedule_run, merged_spark_conf,
}

-- A run that must not reach a backend: it is to be cancelled, or its preflight is not ready or fails.
abbrev pub Barred :
    (Environment → Uuid → Dict String → Attempt Report) → Environment → Job → Run → Type 0
Barred build_preflight env job run =
    (run.cancellation_requested ≡ true)
    ⊎ ((report : Report) × (build_preflight env run.id (merged_spark_conf job run)
          ≡ returned report)
        × (report.is_ready ≡ false))
    ⊎ ((fault : Fault) × (build_preflight env run.id (merged_spark_conf job run) ≡ raised fault))

module _ (clients other : Clients)
    (build_preflight : Environment → Uuid → Dict String → Attempt Report) (actor : String)
    (now : Time) (env : Environment) (job : Job) where
  after-gated :
      (a : Attempt Report) (handled : Handled)
      → ((report : Report) × (a ≡ returned report) × (report.is_ready ≡ false))
        ⊎ ((fault : Fault) × (a ≡ raised fault))
      → after_preflight clients build_preflight actor now env job a handled
        ≡ after_preflight other build_preflight actor now env job a handled
  after-gated (raised fault) handled h = refl
  after-gated (returned report) handled (inl (r, e, not_ready)) =
      let same : report ≡ r = cc in rw same (rw not_ready)
  after-gated (returned report) handled (inr (fault, e)) = cc

  -- A run that is to be cancelled, or whose preflight is not ready or raises, is handled in the same
  -- way whatever the clients of the backends would do: none of them is called for it.
  pub gated_run_reaches_no_backend :
      (run : Run) (log : List AuditEvent)
      → Barred build_preflight env job run
      → schedule_run clients build_preflight actor now env job (run, log)
        ≡ schedule_run other build_preflight actor now env job (run, log)
  unfolding schedule_run try_schedule
  gated_run_reaches_no_backend run log h =
      ground
        (arith, after-gated (build_preflight env run.id (merged_spark_conf job run)) (run, log))
