-- ===== src/System/Writes.antt =====
-- What the steps write to the table of runs.
use spark_pilot.Prelude.{
  ℕ, ◌≡◌, refl, sym, ◌∙◌, subst, inl, inr, String, Bool, true, false, Option, none, some, List, [],
  ◌∷◌, ◌++◌, map, find, if◌then◌else◌, Bool-cases, Option-cases, arith,
}
use spark_pilot.Prelude.Table.{get_row, modify_row, get_row-key}
use spark_pilot.Models.{
  Uuid, Time, Run, RunState, Environment, Details, AuditEvent, is_terminal, is_active,
  write_audit_event,
}
use spark_pilot.Errors.{ok, >>=-eq-ok, ok-injective}
use spark_pilot.Database.{Db, run_key, environment_key, require_run, require_environment}
use spark_pilot.Quota.Exact.{WithinQuota, Settles}
use spark_pilot.Runs.Configuration.{RunCreateRequest}
use spark_pilot.Runs.Create.{create_run, same_submission}
use spark_pilot.Runs.Submission.{create_run_admits}
use spark_pilot.Runs.Idempotent.{create_run_repeats}
use spark_pilot.Runs.Cancel.{cancel_run, request_cancel, cancel_event}
use spark_pilot.Workers.Claims.{run_claims, claim_update, claim_matches}
use spark_pilot.Workers.Exclusive.{run_in}
use spark_pilot.Workers.Scheduler.{Handled, schedule_run}
use spark_pilot.Workers.Scheduler.Outcome.{SameSubmission, schedule_run_outcome}
use spark_pilot.Workers.Scheduler.Retries.{is_queued}
use spark_pilot.Workers.Reconciler.{reconcile_run}
use spark_pilot.Workers.Reconciler.Outcome.{at_cloud, reconcile_run_outcome}
use spark_pilot.System.{Worker, claims, write_run, session_of, handled_of, Step}

-- The four ways in which a step writes the runs.
pub data Effect (db : Db) (runs' : List Run) : Type 0 where
  nothing : runs' ≡ db.runs → Effect db runs'
  added :
      (run : Run) (env : Environment)
      → get_row run_key run.id db.runs ≡ none
      → get_row environment_key run.environment_id db.environments ≡ some env
      → WithinQuota env (db.runs ++ run ∷ [])
      → runs' ≡ db.runs ++ run ∷ []
      → Effect db runs'
  written :
      (id : Uuid) (f : Run → Run) (old : Run)
      → get_row run_key id db.runs ≡ some old
      → is_terminal old.state ≡ false
      → ((run : Run) → run.id ≡ id → (f run).id ≡ id)
      → Settles old (f old)
      → runs' ≡ modify_row run_key id f db.runs
      → Effect db runs'
  touched :
      (f : Run → Run)
      → ((run : Run) → (f run).id ≡ run.id)
      → ((run : Run) → Settles run (f run))
      → ((run : Run) → is_terminal run.state ≡ true → f run ≡ run)
      → runs' ≡ map f db.runs
      → Effect db runs'

abbrev pub Writes : Db → Db → Type 0
Writes db db' = (db'.environments ≡ db.environments) × Effect db db'.runs

active_of : (s : RunState) → is_terminal s ≡ false → is_active s ≡ true
active_of s h = ground arith

queued_active : (s : RunState) → is_queued s ≡ true → (is_active s ≡ true) × (is_terminal s ≡ false)
queued_active s h = ground arith

cloud_active : (s : RunState) → at_cloud s ≡ true → (is_active s ≡ true) × (is_terminal s ≡ false)
cloud_active s h = ground arith

-- A handler's run, written back.
handled-Writes :
    (db : Db) (id : Uuid) (run : Run) (handled : Handled)
    → get_row run_key id db.runs ≡ some run
    → (is_active run.state ≡ true) × (is_terminal run.state ≡ false)
    → SameSubmission run handled.0
    → Writes db (write_run id handled db)
handled-Writes db id run handled found (active, going) same = (
  refl,
  Effect.written id (λ _. handled.0) run found going
      (λ _ _. same.0 ∙ get_row-key run_key id db.runs run found)
      (record { environment = same.2; resources = same.3; activity = inl active }) refl,
)

-- A row whose claim columns change.
abbrev claim_row :
    (worker : Worker) (order : List Run → List Run) (token : String) (id : Uuid) (cutoff now : Time)
    → Run
    → Run
claim_row worker order token id cutoff now run =
    if claim_matches run_claims (run_in (claims worker)) order token id cutoff run
    then record run { worker_claim_token = some token; worker_claimed_at = some now }
    else run

claim_row-Settles :
    (worker : Worker) (order : List Run → List Run) (token : String) (id : Uuid) (cutoff now : Time)
    (run : Run)
    → Settles run (claim_row worker order token id cutoff now run)
claim_row-Settles worker order token id cutoff now run =
    elim (Bool-cases
      (claim_matches run_claims (run_in (claims worker)) order token id cutoff run)) [
        | inl e ↦ rw e (record {
          environment = refl;
          resources = refl;
          activity = Bool-cases (is_active run.state);
        })
        | inr e ↦ rw e (record {
          environment = refl;
          resources = refl;
          activity = Bool-cases (is_active run.state);
        })
      ]

claim_row-id :
    (worker : Worker) (order : List Run → List Run) (token : String) (id : Uuid) (cutoff now : Time)
    (run : Run)
    → (claim_row worker order token id cutoff now run).id ≡ run.id
claim_row-id worker order token id cutoff now run =
    elim (Bool-cases
      (claim_matches run_claims (run_in (claims worker)) order token id cutoff run)) [
        | inl e ↦ rw e refl
        | inr e ↦ rw e refl
      ]

claim_update-map :
    (worker : Worker) (order : List Run → List Run) (token : String) (id : Uuid) (cutoff now : Time)
    (runs : List Run)
    → claim_update run_claims (run_in (claims worker)) order token id cutoff now runs
      ≡ map (claim_row worker order token id cutoff now) runs
unfolding claim_update
claim_update-map worker order token id cutoff now runs = refl

claim_row-terminal :
    (worker : Worker) (order : List Run → List Run) (token : String) (id : Uuid) (cutoff now : Time)
    (run : Run)
    → is_terminal run.state ≡ true
    → claim_row worker order token id cutoff now run ≡ run
unfolding claim_matches
claim_row-terminal worker order token id cutoff now run ended =
    rw (unclaimed worker run.state ended) (ground arith)
  where
    unclaimed : (worker : Worker) (s : RunState) → is_terminal s ≡ true → claims worker s ≡ false
    unclaimed Worker.scheduler s h = ground arith
    unclaimed Worker.reconciler s h = ground arith

require_run-found :
    (db : Db) (id : Uuid) (run : Run)
    → require_run db id ≡ ok run
    → get_row run_key id db.runs ≡ some run
unfolding require_run
require_run-found db id run h = ground arith

request_cancel-id : (now : Time) (run : Run) → (request_cancel now run).id ≡ run.id
unfolding request_cancel
request_cancel-id now run = ground arith

request_cancel-Settles :
    (now : Time) (run : Run) → is_terminal run.state ≡ false → Settles run (request_cancel now run)
unfolding request_cancel
request_cancel-Settles now run going = record {
  environment = ground arith;
  resources = ground arith;
  activity = inl (active_of run.state going);
}

cancelled-Writes :
    (now : Time) (log : List AuditEvent) (id : Uuid) (db : Db) (old : Run) (ended : Bool)
    → is_terminal old.state ≡ ended
    → get_row run_key id db.runs ≡ some old
    → (result : Run × Db)
    → (if ended
        then ok (old, db)
        else ok (
          request_cancel now old,
          record db { runs = modify_row run_key old.id (request_cancel now) db.runs; audit = log },
        ))
      ≡ ok result
    → Writes db result.1
cancelled-Writes now log id db old true ended found result done =
    subst (λ (r : Run × Db). Writes db r.1) (ok-injective done) (refl, Effect.nothing refl)
cancelled-Writes now log id db old false going found result done =
    subst (λ (r : Run × Db). Writes db r.1) (ok-injective done)
      (
        refl,
        Effect.written old.id (request_cancel now) old
            (subst (λ (i : ℕ). get_row run_key i db.runs ≡ some old)
              (sym (get_row-key run_key id db.runs old found)) found)
            going (λ run same. request_cancel-id now run ∙ same)
            (request_cancel-Settles now old going) refl,
      )

cancel_run-Writes :
    (now : Time) (actor : String) (source_ip : Option String) (id : Uuid) (db db' : Db) (run : Run)
    → cancel_run now actor source_ip id db ≡ ok (run, db')
    → Writes db db'
unfolding cancel_run
cancel_run-Writes now actor source_ip id db db' run done =
    let (old, looked_up, rest) = >>=-eq-ok (require_run db id) _ done in
    let (env, _, end) = >>=-eq-ok (require_environment db old.environment_id) _ rest in
    cancelled-Writes now (write_audit_event (cancel_event actor source_ip env old.id) db.audit) id
      db old (is_terminal old.state) refl (require_run-found db id old looked_up) (run, db') end

submit-Writes :
    (nulls_first : Bool) (lf_context : Environment → Option Details) (new_id : Uuid) (now : Time)
    (actor : String) (source_ip : Option String) (job_id : Uuid) (key : String)
    (req : RunCreateRequest) (run : Run) (db db' : Db)
    → get_row run_key new_id db.runs ≡ none
    → create_run nulls_first lf_context new_id now actor source_ip job_id key req db ≡ ok (run, db')
    → Writes db db'
submit-Writes nulls_first lf_context new_id now actor source_ip job_id key req run db db' fresh
      made =
    elim (Option-cases (find (same_submission job_id key) db.runs)) [
      | inl absent ↦
          let s =
            create_run_admits nulls_first lf_context new_id now actor source_ip job_id key req db
              run db' made absent in
          (
            s.environments_kept,
            Effect.added run s.env
                (subst (λ (i : ℕ). get_row run_key i db.runs ≡ none) (sym s.identifier) fresh)
                s.stored (subst (λ (runs : List Run). WithinQuota s.env runs) s.added s.in_quota)
                s.added,
          )
      | inr (old, found) ↦
          let (_, kept, environments) =
            create_run_repeats nulls_first lf_context new_id now actor source_ip job_id key req db
              old run db' found made in
          (environments, Effect.nothing kept)
    ]

pub Step-Writes : {db db' : Db} → Step db db' → Writes db db'
Step-Writes {db}
      (Step.submitted nulls_first lf_context new_id now actor source_ip job_id key req run db' fresh
        made) =
    submit-Writes nulls_first lf_context new_id now actor source_ip job_id key req run db db' fresh
      made
Step-Writes {db} (Step.cancelled now actor source_ip id run db' done) =
    cancel_run-Writes now actor source_ip id db db' run done
Step-Writes {db} (Step.claimed worker order token id cutoff now) = (
  refl,
  Effect.touched (claim_row worker order token id cutoff now)
      (claim_row-id worker order token id cutoff now)
      (claim_row-Settles worker order token id cutoff now)
      (claim_row-terminal worker order token id cutoff now)
      (claim_update-map worker order token id cutoff now db.runs),
)
Step-Writes {db} (Step.scheduled clients build_preflight actor now env job id run found queued) =
    handled-Writes db id run
      (schedule_run clients build_preflight actor now env job (run, db.audit)) found
      (queued_active run.state queued)
      (schedule_run_outcome actor now env job clients build_preflight run db.audit).0
Step-Writes {db} (Step.reconciled outside actor now env job ledger diagnostics id run found cloud) =
    handled-Writes db id run
      (handled_of (reconcile_run outside actor now env job (run, session_of db ledger diagnostics)))
      found (cloud_active run.state cloud)
      (reconcile_run_outcome outside actor now env job run (session_of db ledger diagnostics)
        cloud).0.0
