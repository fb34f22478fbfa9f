-- ===== src/Runs/Idempotent.antt =====
-- A repeated submission: the same job and idempotency key.
use spark_pilot.Prelude.{
  ◌≡◌, ap, sym, subst, refl, String, Bool, true, Option, none, some, List, [], ◌∷◌, ◌++◌, find,
  eq_iff, Bool-cases, inl, inr, arith,
}
use spark_pilot.Prelude.Table.{get_row-key}
use spark_pilot.Models.{Uuid, Time, Run, Job, Environment, Details}
use spark_pilot.Errors.{ok, >>=-eq-ok, ok-injective}
use spark_pilot.Database.{Db}
use spark_pilot.Runs.Configuration.{RunCreateRequest}
use spark_pilot.Runs.Create.{Admitted, admit, create_run, finish_run, same_submission}
use spark_pilot.Runs.Admission.{admit-job}

find-append {ℓ} :
    {A : Type ℓ} (p : A → Bool) (xs : List A) (y : A)
    → find p xs ≡ none
    → p y ≡ true
    → find p (xs ++ y ∷ []) ≡ some y
find-append {A} p [] y h k = rw k
find-append {A} p (x ∷ xs) y h k = elim (Bool-cases (p x)) [
  | inl e ↦ absurd (some-ne x (rw e at h))
  | inr e ↦ rw e (find-append p xs y (rw e at h) k)
]
  where
    some-ne : (x : A) → some x ≡ none → ⊥
    some-ne x h = cc

module _ (nulls_first : Bool) (lf_context : Environment → Option Details) (new_id : Uuid)
    (now : Time) (actor : String) (source_ip : Option String) (job_id : Uuid) (key : String)
    (req : RunCreateRequest) (db : Db) where
  finished_found :
      (a : Admitted) (o : Option Run)
      → find (same_submission job_id key) db.runs ≡ o
      → a.job.id ≡ job_id
      → let (run, db') =
          finish_run nulls_first lf_context new_id now actor source_ip o key req a db in
        find (same_submission job_id key) db'.runs ≡ some run
  finished_found a (some run) found same = found
  finished_found a none fresh same =
      find-append (same_submission job_id key) db.runs _ fresh (ground (arith, eq_iff key key))

  -- After a submission has succeeded, its run is the one that its job and key are looked up by.
  create_run_found :
      (run : Run) (db' : Db)
      → create_run nulls_first lf_context new_id now actor source_ip job_id key req db
        ≡ ok (run, db')
      → find (same_submission job_id key) db'.runs ≡ some run
  unfolding create_run
  create_run_found run db' made =
      let (a, admitted, finished) = >>=-eq-ok _ _ made in
      let stored =
        admit-job nulls_first lf_context new_id now actor source_ip job_id req db a admitted in
      subst (λ (r : Run × Db). find (same_submission job_id key) r.1.runs ≡ some r.0)
        (ok-injective finished)
        (finished_found a (find (same_submission job_id key) db.runs) refl
          (get_row-key (λ (j : Job). j.id) job_id db.jobs a.job stored))

  -- Where a run has the job and the key, it is what comes back.
  pub create_run_repeats :
      (old again : Run) (db' : Db)
      → find (same_submission job_id key) db.runs ≡ some old
      → create_run nulls_first lf_context new_id now actor source_ip job_id key req db
        ≡ ok (again, db')
      → (again ≡ old) × (db'.runs ≡ db.runs) × (db'.environments ≡ db.environments)
  unfolding create_run
  create_run_repeats old again db' found made =
      let (a, admitted, finished) =
        >>=-eq-ok {A = Admitted}
          (admit nulls_first lf_context new_id now actor source_ip job_id req db) _ made in
      let e : ◌≡◌ {A = Run × Db} (old, record db { audit = a.audit }) (again, db') =
        ok-injective (rw found at finished) in
      (
        sym (ap (λ (r : Run × Db). r.0) e),
        sym (ap (λ (r : Run × Db). r.1.runs) e),
        sym (ap (λ (r : Run × Db). r.1.environments) e),
      )

-- After a submission has succeeded, another of the same job and idempotency key that succeeds, at
-- any later time, by any actor and with any request, returns the same run and leaves the table of
-- runs as it is.
pub create_run_idempotent :
    (nulls_first : Bool) (lf_context : Environment → Option Details) (new_id later_id : Uuid)
    (now later : Time) (actor other_actor : String) (source_ip other_ip : Option String)
    (job_id : Uuid) (key : String) (req other_req : RunCreateRequest) (db db' db'' : Db)
    (run again : Run)
    → create_run nulls_first lf_context new_id now actor source_ip job_id key req db ≡ ok (run, db')
    → create_run nulls_first lf_context later_id later other_actor other_ip job_id key other_req db'
      ≡ ok (again, db'')
    → (again ≡ run) × (db''.runs ≡ db'.runs)
create_run_idempotent nulls_first lf_context new_id later_id now later actor other_actor source_ip
      other_ip job_id key req other_req db db' db'' run again first second =
    let (same, kept, _) =
      create_run_repeats nulls_first lf_context later_id later other_actor other_ip job_id key
        other_req db' run again db''
        (create_run_found nulls_first lf_context new_id now actor source_ip job_id key req db run
          db' first)
        second in
    (same, kept)
