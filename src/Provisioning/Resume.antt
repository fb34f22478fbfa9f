-- ===== src/Provisioning/Resume.antt =====
-- Checkpoints come back from the log, and a provisioning that resumes does not repeat a stage.
use spark_pilot.Prelude.{
  ℕ, ◌+◌, ◌<◌, ◌≡◌, refl, sym, ap, subst, String, Bool, true, ==_refl, Option, some, List, [], ◌∷◌,
  ◌++◌, Dict, All, filter, drop, Bool-cases, inl, inr, arith,
}
use spark_pilot.Models.{Uuid, Time, Environment, Stage, Checkpoint, AuditEvent}
use spark_pilot.Workers.Faults.{Attempt, raised, returned}
use spark_pilot.Provisioning.Checkpoints.{
  steps, index, is_checkpoint_event, newest_first, first_checkpoint, resume_after,
  checkpoint_resume_index, load_full_byoc_checkpoint, write_full_byoc_checkpoint,
}
use spark_pilot.Provisioning.Stages.{
  terraform_stage, stage_body, run_full_byoc_step, run_stages, run_full_byoc_provisioning,
  validation_stage, after_plan, announce, record_stage_failure, keep_outputs, commit_stage,
}
use spark_pilot.Provisioning.Validations.{
  Output, Terraform, TerraformResult, Checker, Work, Call, ◌>=>◌, continue,
}

filter-append_one {ℓ} :
    {A : Type ℓ} (p : A → Bool) (xs : List A) (y : A)
    → p y ≡ true
    → filter p (xs ++ y ∷ []) ≡ filter p xs ++ y ∷ []
filter-append_one p [] y h = rw h
filter-append_one p (x ∷ xs) y h = elim (Bool-cases (p x)) [
  | inl e ↦ rw e (rw (filter-append_one p xs y h))
  | inr e ↦ rw e (filter-append_one p xs y h)
]

newest_first-append :
    (log : List AuditEvent) (e : AuditEvent) → newest_first (log ++ e ∷ []) ≡ e ∷ newest_first log
unfolding newest_first
newest_first-append [] e = refl
newest_first-append (x ∷ log) e = rw (newest_first-append log e) refl

-- The checkpoint that was written last for an operation is the one that is loaded.
pub load-write_checkpoint :
    (actor : String) (env : Environment) (op_id : Uuid) (checkpoint : Checkpoint)
    (log : List AuditEvent)
    → load_full_byoc_checkpoint
        (write_full_byoc_checkpoint actor env op_id checkpoint log)
        op_id
        env.id
      ≡ checkpoint
unfolding load_full_byoc_checkpoint write_full_byoc_checkpoint first_checkpoint
load-write_checkpoint actor env op_id checkpoint log =
    rw (filter-append_one (is_checkpoint_event env.id) log _ (==_refl env.id)) (
      rw (newest_first-append (filter (is_checkpoint_event env.id) log) _)
        (rw (==_refl op_id) refl))

-- Two Terraforms that do the same in a stage.
abbrev pub AgreeOn : Terraform → Terraform → Stage → Type 0
AgreeOn terraform other stage =
    ((n : ℕ) (env : Environment)
      → terraform.build_stage_context stage n env ≡ other.build_stage_context stage n env)
    × ((n : ℕ) → terraform.plan stage n ≡ other.plan stage n)
    × ((n : ℕ) → terraform.apply stage n ≡ other.apply stage n)

continue_with :
    {A B : Type 0} (r : Work × Attempt A) (k k' : A → Call B)
    → ((a : A) (w : Work) → k a w ≡ k' a w)
    → continue r k ≡ continue r k'
continue_with (w, raised fault) k k' h = refl
continue_with (w, returned a) k k' h = h a w

continue-same :
    {A B : Type 0} (r r' : Work × Attempt A) (k k' : A → Call B)
    → r ≡ r'
    → ((a : A) (w : Work) → k a w ≡ k' a w)
    → continue r k ≡ continue r' k'
continue-same {A} r r' k k' e h =
    subst (λ (x : Work × Attempt A). continue r k ≡ continue x k') e (continue_with r k k' h)

module _ (actor : String) (now : Time) (terraform other : Terraform) (checker : Checker) where
  after_plan-same :
      (stage : Stage) (context : String × String) (checkpoint : Checkpoint)
      (result : TerraformResult) (w : Work)
      → AgreeOn terraform other stage
      → after_plan actor now terraform checker stage context checkpoint result w
        ≡ after_plan actor now other checker stage context checkpoint result w
  unfolding record_stage_failure
  after_plan-same stage context checkpoint result w agree = elim (Bool-cases result.succeeded) [
    | inl e ↦ rw e (
        continue-same _ _ _ _
          (ap (λ (a : Attempt TerraformResult). (w, a))
            (agree.2 (checkpoint.attempt_count_by_stage stage + 1)))
          (λ result' w'. refl))
    | inr e ↦ rw e refl
  ]

  terraform_stage-same :
      (stage : Stage) (checkpoint : Checkpoint) (w : Work)
      → AgreeOn terraform other stage
      → terraform_stage actor now terraform checker stage checkpoint w
        ≡ terraform_stage actor now other checker stage checkpoint w
  unfolding terraform_stage
  terraform_stage-same stage checkpoint w agree =
      let n = checkpoint.attempt_count_by_stage stage + 1 in
      continue-same _ _ _ _
        (ap (λ (a : Attempt (String × String)). (w, a)) (agree.0 n w.environment))
        (λ context w'.
          continue-same _ _ _ _
            (ap
              (λ (a : Attempt TerraformResult).
                ((announce actor now terraform checker stage checkpoint w').0, a))
              (agree.1 n))
            (λ result w''. after_plan-same stage context checkpoint result w'' agree))

  stage_body-same :
      (stage : Stage) (checkpoint : Checkpoint) (w : Work)
      → AgreeOn terraform other stage
      → stage_body actor now terraform checker stage checkpoint w
        ≡ stage_body actor now other checker stage checkpoint w
  unfolding validation_stage record_stage_failure
  stage_body-same Stage.provisioning_network checkpoint w agree =
      terraform_stage-same Stage.provisioning_network checkpoint w agree
  stage_body-same Stage.provisioning_eks checkpoint w agree =
      terraform_stage-same Stage.provisioning_eks checkpoint w agree
  stage_body-same Stage.provisioning_emr checkpoint w agree =
      terraform_stage-same Stage.provisioning_emr checkpoint w agree
  stage_body-same Stage.validating_bootstrap checkpoint w agree = refl
  stage_body-same Stage.validating_runtime checkpoint w agree = refl

  step-same :
      (stage : Stage) (checkpoint : Checkpoint) (w : Work)
      → AgreeOn terraform other stage
      → run_full_byoc_step actor now terraform checker stage checkpoint w
        ≡ run_full_byoc_step actor now other checker stage checkpoint w
  unfolding run_full_byoc_step
  step-same stage checkpoint w agree = stage_body-same stage checkpoint _ agree

  run_stages-same :
      (stages : List Stage) (checkpoint : Checkpoint) (gathered : Dict Output) (w : Work)
      → All (AgreeOn terraform other) stages
      → run_stages actor now terraform checker stages checkpoint gathered w
        ≡ run_stages actor now other checker stages checkpoint gathered w
  unfolding run_stages
  run_stages-same [] checkpoint gathered w agree = refl
  run_stages-same (stage ∷ stages) checkpoint gathered w agree =
      continue-same _ _ _ _ (step-same stage checkpoint w agree.0) (λ done w'.
        continue_with
          ((keep_outputs actor now terraform checker gathered done.1
              >=> commit_stage actor now terraform checker done.0)
            w')
          (run_stages actor now terraform checker stages done.0)
          (run_stages actor now other checker stages done.0)
          (λ gathered' w''. run_stages-same stages done.0 gathered' w'' agree.1))

  -- The stages behind one.
  later_stages :
      (last : Stage)
      → ((stage : Stage) → index last < index stage → AgreeOn terraform other stage)
      → All (AgreeOn terraform other) (drop (index last + 1) steps)
  later_stages Stage.provisioning_network h = (
    h Stage.provisioning_eks (omega arith),
    (
      h Stage.provisioning_emr (omega arith),
      (h Stage.validating_bootstrap (omega arith), (h Stage.validating_runtime (omega arith), tt)),
    ),
  )
  later_stages Stage.provisioning_eks h = (
    h Stage.provisioning_emr (omega arith),
    (h Stage.validating_bootstrap (omega arith), (h Stage.validating_runtime (omega arith), tt)),
  )
  later_stages Stage.provisioning_emr h =
      (h Stage.validating_bootstrap (omega arith), (h Stage.validating_runtime (omega arith), tt))
  later_stages Stage.validating_bootstrap h = (h Stage.validating_runtime (omega arith), tt)
  later_stages Stage.validating_runtime h = tt

  -- A provisioning whose checkpoint in the log has a last successful stage comes out the same with
  -- any other Terraform that agrees on the stages behind it: up to it, no stage is planned or
  -- applied again.
  pub resume_repeats_no_stage :
      (w : Work) (last : Stage)
      → (load_full_byoc_checkpoint w.audit w.operation.id w.environment.id).last_successful_stage
        ≡ some last
      → ((stage : Stage) → index last < index stage → AgreeOn terraform other stage)
      → run_full_byoc_provisioning actor now terraform checker w
        ≡ run_full_byoc_provisioning actor now other checker w
  unfolding run_full_byoc_provisioning checkpoint_resume_index
  resume_repeats_no_stage w last loaded agree =
      let checkpoint = load_full_byoc_checkpoint w.audit w.operation.id w.environment.id in
      continue-same _ _ _ _
        (run_stages-same (drop (resume_after checkpoint.last_successful_stage w.operation) steps)
          checkpoint [] w
          (subst
            (λ (o : Option Stage).
              All (AgreeOn terraform other) (drop (resume_after o w.operation) steps))
            (sym loaded) (later_stages last agree)))
        (λ gathered w'. refl)
