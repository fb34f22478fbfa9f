-- ===== src/Workers/Reconciler/Outcome.antt =====
-- What one round of the reconciler does to a run.
use spark_pilot.Prelude.{
  ◌≡◌, refl, ◌⊎◌, inl, inr, Bool, true, false, String, Option, none, some, is_some, find, arith,
}
use spark_pilot.Models.{Time, Run, RunState, Job, Environment, Message, is_terminal}
use spark_pilot.Finops.Usage.{Ledger, usage_of, record_usage_if_needed}
use spark_pilot.Finops.Once.{record_usage-recorded}
use spark_pilot.Workers.Claims.{release_claim}
use spark_pilot.Workers.Faults.{Attempt, raised, returned, ◌>>=◌}
use spark_pilot.Workers.Scheduler.Outcome.{SameSubmission}
use spark_pilot.Workers.Reconciler.{
  timed_out_run, reconciled_run, ending_if, record_run_diagnostics_if_needed, apply_stale_overrides,
  record_reconciled_run_state, record_ending, mark_run_timed_out, cancel_at_cloud, end_by_timeout,
  record_answer, or_now, dispatch_run_cancel_if_requested, describe_job_run,
  emit_preflight_diagnostic, after_timeout_test, has_run_longer, reconcile_body, or_rollback,
  reconcile_run,
}
use spark_pilot.Workers.Cloud.{Outside, Session, EmrState, platform_state}

-- The states of the runs that the reconciler claims.
abbrev pub at_cloud : RunState → Bool
at_cloud RunState.accepted = true
at_cloud RunState.running = true
at_cloud _ = false

-- A run that is still at the cloud, or that has ended, with the time and its usage recorded.
abbrev pub Settled : Run → Session → Type 0
Settled run session =
    (at_cloud run.state ≡ true)
    ⊎ ((is_terminal run.state ≡ true)
        × (is_some run.ended_at ≡ true)
        × (is_some (find (usage_of run.id) session.ledger.usage) ≡ true))

abbrev pub Reconciled : Run → Run × Session → Type 0
Reconciled run (run', session') =
    SameSubmission run run' × (run'.attempt ≡ run.attempt) × Settled run' session'

abbrev pub IfReturned : {A : Type 0} → (A → Type 0) → Attempt A → Type 0
IfReturned P (raised fault) = Unit
IfReturned P (returned a) = P a

bind-IfReturned :
    {A B : Type 0} (P : B → Type 0) (a : Attempt A) (f : A → Attempt B)
    → ((x : A) → IfReturned P (f x))
    → IfReturned P (a >>= f)
bind-IfReturned P (raised fault) f h = tt
bind-IfReturned P (returned x) f h = h x

-- What a reported state may be written as.
abbrev Reported : RunState → Type 0
Reported state = (at_cloud state ≡ true) ⊎ (is_terminal state ≡ true)

platform_state-Reported : (emr_state : EmrState) → Reported (platform_state emr_state)
platform_state-Reported EmrState.pending = inl refl
platform_state-Reported EmrState.submitted = inl refl
platform_state-Reported EmrState.running = inl refl
platform_state-Reported EmrState.completed = inr refl
platform_state-Reported EmrState.failed = inr refl
platform_state-Reported EmrState.cancelled = inr refl
platform_state-Reported EmrState.cancel_pending = inl refl
platform_state-Reported (EmrState.other s) = inr refl

or_now-is_some :
    (outside : Outside) (actor : String) (now : Time) (env : Environment) (job : Job)
    (t : Option Time)
    → is_some (or_now outside actor now env job t) ≡ true
or_now-is_some outside actor now env job none = refl
or_now-is_some outside actor now env job (some t) = refl

module _ (outside : Outside) (actor : String) (now : Time) (env : Environment) (job : Job) where
  stale-Reported :
      (run : Run) (emr_state : EmrState) (state : RunState) (error : Option Message)
      → Reported state
      → Reported (apply_stale_overrides outside actor now env job run emr_state state error).0
  unfolding apply_stale_overrides
  stale-Reported run emr_state state error h = ground arith

  -- Where the usage of a run is recorded, it is in the session.
  abbrev HasUsage : Run → Session → Type 0
  HasUsage run session = is_some (find (usage_of run.id) session.ledger.usage) ≡ true

  ending-HasUsage :
      (run : Run) (session : Session)
      → IfReturned (HasUsage run) (record_ending outside actor now env job run session)
  ending-HasUsage run session =
      go
        (record_usage_if_needed outside.price outside.cost_center outside.billing_period now run env
          session.ledger)
        refl
    where
      go :
          (a : Attempt Ledger)
          → record_usage_if_needed outside.price outside.cost_center outside.billing_period now run
              env session.ledger
            ≡ a
          → IfReturned (HasUsage run) (
              a >>= λ ledger. returned (record session {
                ledger = ledger;
                diagnostics =
                    record_run_diagnostics_if_needed outside actor now env job run
                      session.diagnostics;
              }))
      go (raised fault) e = tt
      go (returned once) e =
          record_usage-recorded outside.price outside.cost_center outside.billing_period now run env
            session.ledger once e

  ending_if-HasUsage :
      (b : Bool) (run : Run) (session : Session)
      → b ≡ true
      → IfReturned (HasUsage run) (ending_if outside actor now env job b run session)
  ending_if-HasUsage true run session h = ending-HasUsage run session
  ending_if-HasUsage false run session h = cc

  bind-HasUsage :
      {B : Type 0} (P : B → Type 0) (run : Run) (a : Attempt Session) (f : Session → Attempt B)
      → IfReturned (HasUsage run) a
      → ((s : Session) → HasUsage run s → IfReturned P (f s))
      → IfReturned P (a >>= f)
  bind-HasUsage P run (raised fault) f h k = tt
  bind-HasUsage P run (returned s) f h k = k s h

  record-Reconciled :
      (emr_state : EmrState) (decided : RunState × Option Message) (run : Run) (session : Session)
      → Reported decided.0
      → IfReturned
          (Reconciled run)
          (record_reconciled_run_state outside actor now env job emr_state decided run session)
  unfolding record_reconciled_run_state
  record-Reconciled emr_state (state, error) run session (inl cloud) =
      bind-IfReturned (Reconciled run)
        (ending_if outside actor now env job (is_terminal state)
          (reconciled_run outside actor now env job state error run) session)
        _ (λ s. (ground arith, refl, inl cloud))
  record-Reconciled emr_state (state, error) run session (inr terminal) =
      let run' = reconciled_run outside actor now env job state error run in
      bind-HasUsage (Reconciled run) run'
        (ending_if outside actor now env job (is_terminal state) run' session) _
        (ending_if-HasUsage (is_terminal state) run' session terminal)
        (λ s recorded. (
          ground arith,
          refl,
          inr (
            terminal,
            rw terminal (or_now-is_some outside actor now env job run.ended_at),
            recorded,
          ),
        ))

  timeout-Reconciled :
      (run : Run) (session : Session)
      → IfReturned (Reconciled run) (mark_run_timed_out outside actor now env job run session)
  unfolding mark_run_timed_out
  timeout-Reconciled run session =
      bind-IfReturned (Reconciled run)
        (cancel_at_cloud outside actor now env job "run.timeout_cancel.dispatched"
          (record run { cancellation_requested = true }) session)
        (λ session'. end_by_timeout outside actor now env job run session')
        (λ session'.
          let ended = timed_out_run outside actor now env job run in
          bind-HasUsage (Reconciled run) ended
            (record_ending outside actor now env job ended session') _
            (ending-HasUsage ended session')
            (λ s recorded. (ground arith, refl, inr (refl, refl, recorded))))

  answer-Reconciled :
      (run : Run) (session : Session) (answer : EmrState × Option String)
      → IfReturned (Reconciled run) (record_answer outside actor now env job run session answer)
  answer-Reconciled run session (emr_state, error) =
      record-Reconciled emr_state _ run session
        (stale-Reported run emr_state _ _ (platform_state-Reported emr_state))

  test-Reconciled :
      (b : Bool) (run : Run) (session : Session)
      → IfReturned (Reconciled run) (after_timeout_test outside actor now env job b run session)
  test-Reconciled true run session = timeout-Reconciled run session
  test-Reconciled false run session =
      bind-IfReturned (Reconciled run)
        (dispatch_run_cancel_if_requested outside actor now env job run session)
        (λ session'.
          (describe_job_run outside actor now env job run >>= λ answer.
          record_answer outside actor now env job run session' answer))
        (λ session'.
          bind-IfReturned (Reconciled run) (describe_job_run outside actor now env job run)
            (λ answer. record_answer outside actor now env job run session' answer)
            (λ answer. answer-Reconciled run session' answer))

  body-Reconciled :
      (run : Run) (session : Session)
      → IfReturned (Reconciled run) (reconcile_body outside actor now env job run session)
  unfolding reconcile_body
  body-Reconciled run session =
      bind-IfReturned (Reconciled run)
        (emit_preflight_diagnostic outside actor now env job run session)
        (λ session'.
          after_timeout_test outside actor now env job
            (has_run_longer outside actor now env job run.started_at run.timeout_seconds) run
            session')
        (λ session'. test-Reconciled _ run session')

  rollback-Reconciled :
      (run : Run) (session : Session) (a : Attempt (Run × Session))
      → at_cloud run.state ≡ true
      → IfReturned (Reconciled run) a
      → Reconciled run (or_rollback outside actor now env job run session a)
  rollback-Reconciled run session (raised fault) h k = (ground arith, refl, inl h)
  rollback-Reconciled run session (returned done) h k = k

  -- Whatever the cloud answers or raises, a round on a run that is accepted or running keeps its
  -- identity, resources, timeout and attempt, releases its claim, and leaves it accepted or running,
  -- or ended, with the time of its end and its usage recorded.
  pub reconcile_run_outcome :
      (run : Run) (session : Session)
      → at_cloud run.state ≡ true
      → let (run', session') = reconcile_run outside actor now env job (run, session) in
        Reconciled run (run', session')
        × (run'.worker_claim_token ≡ none)
        × (run'.worker_claimed_at ≡ none)
  unfolding reconcile_run release_claim
  reconcile_run_outcome run session h =
      let (same, kept, settled) =
        rollback-Reconciled run session (reconcile_body outside actor now env job run session) h
          (body-Reconciled run session) in
      ((same, kept, settled), refl, refl)
