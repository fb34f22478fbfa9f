-- ===== src/System/Sound.antt =====
-- The quotas of every environment, over any sequence of steps.
use spark_pilot.Prelude.{
  ℕ, ◌≤◌, ◌≡◌, refl, sym, ap, ◌∙◌, subst, Bool, true, false, none, some, List, [], ◌∷◌, ◌++◌, map,
  length, ◌==◌, ==_iff, Bool-cases, inl, inr, some-injective, arith,
}
use spark_pilot.Prelude.Table.{get_row, modify_row, get_row-key}
use spark_pilot.Prelude.Keys.{
  UniqueKeys, append-UniqueKeys, modify_row-UniqueKeys, map-UniqueKeys, modify_row-absent,
}
use spark_pilot.Models.{Uuid, Run, Environment, is_active}
use spark_pilot.Database.{Db, run_key, environment_key}
use spark_pilot.Quota.{active_runs, sum_vcpu, run_vcpu}
use spark_pilot.Quota.Exact.{WithinQuota, Settles, admit_elsewhere-WithinQuota}
use spark_pilot.System.{Reach}
use spark_pilot.System.Writes.{Effect, Step-Writes}

-- No two runs have the same key, and every environment is within its quotas.
pub record Sound (db : Db) : Type 0 where
  pub unique : UniqueKeys run_key db.runs
  pub within :
      (id : Uuid) (env : Environment)
      → get_row environment_key id db.environments ≡ some env
      → WithinQuota env db.runs

-- What an environment's active runs take up.
abbrev Fewer : Environment → List Run → List Run → Type 0
Fewer env runs' runs =
    (length (active_runs env runs') ≤ length (active_runs env runs))
    × (sum_vcpu (active_runs env runs') ≤ sum_vcpu (active_runs env runs))

Fewer-WithinQuota :
    (env : Environment) (runs' runs : List Run)
    → Fewer env runs' runs
    → WithinQuota env runs
    → WithinQuota env runs'
Fewer-WithinQuota env runs' runs (fewer, less) h = record {
  runs_fit = omega (arith, h.runs_fit);
  vcpu_fit = omega (arith, h.vcpu_fit);
}

Fewer-cons :
    (env : Environment) (x y : Run) (runs' runs : List Run)
    → Settles x y
    → Fewer env runs' runs
    → Fewer env (y ∷ runs') (x ∷ runs)
unfolding sum_vcpu
Fewer-cons env x y runs' runs h (fewer, less) = ground (arith, ap run_vcpu h.resources)

Settles-refl : (x : Run) → Settles x x
Settles-refl x = record {
  environment = refl;
  resources = refl;
  activity = Bool-cases (is_active x.state);
}

map-Fewer :
    (env : Environment) (f : Run → Run) (runs : List Run)
    → ((run : Run) → Settles run (f run))
    → Fewer env (map f runs) runs
map-Fewer env f [] h = (omega arith, omega arith)
map-Fewer env f (x ∷ runs) h =
    Fewer-cons env x (f x) (map f runs) runs (h x) (map-Fewer env f runs h)

Fewer-refl : (env : Environment) (runs : List Run) → Fewer env runs runs
Fewer-refl env runs = (omega arith, omega arith)

modify_row-Fewer :
    (env : Environment) (id : Uuid) (f : Run → Run) (old : Run) (runs : List Run)
    → UniqueKeys run_key runs
    → get_row run_key id runs ≡ some old
    → Settles old (f old)
    → Fewer env (modify_row run_key id f runs) runs
unfolding get_row modify_row
modify_row-Fewer env id f old [] unique found settles = (omega arith, omega arith)
modify_row-Fewer env id f old (x ∷ runs) unique found settles = elim (Bool-cases (x.id == id)) [
  | inl e ↦
      let same : x ≡ old = some-injective x old (rw e at found) in
      let absent =
        subst (λ (i : ℕ). get_row run_key i runs ≡ none) ((==_iff x.id id).0 e) unique.0 in
      rw e (
        Fewer-cons env x (f x) (modify_row run_key id f runs) runs
          (subst (λ (o : Run). Settles o (f o)) (sym same) settles)
          (subst (λ (rs : List Run). Fewer env rs runs)
            (sym (modify_row-absent run_key id f runs absent)) (Fewer-refl env runs)))
  | inr e ↦ rw e (
      Fewer-cons env x x _ runs (Settles-refl x)
        (modify_row-Fewer env id f old runs unique.1 (rw e at found) settles))
]

-- A run that was admitted to one environment leaves the others as they were.
admitted-WithinQuota :
    (db : Db) (new : Run) (owner env : Environment) (id : Uuid) (here : Bool)
    → (new.environment_id == env.id) ≡ here
    → Sound db
    → get_row environment_key new.environment_id db.environments ≡ some owner
    → WithinQuota owner (db.runs ++ new ∷ [])
    → get_row environment_key id db.environments ≡ some env
    → WithinQuota env (db.runs ++ new ∷ [])
admitted-WithinQuota db new owner env id true e sound owned quota stored =
    let keyed = get_row-key environment_key id db.environments env stored in
    let same : owner ≡ env = some-injective owner env (
      sym owned
      ∙ ap (λ (i : ℕ). get_row environment_key i db.environments)
          ((==_iff new.environment_id env.id).0 e ∙ keyed)
      ∙ stored) in
    subst (λ (o : Environment). WithinQuota o (db.runs ++ new ∷ [])) same quota
admitted-WithinQuota db new owner env id false e sound owned quota stored =
    admit_elsewhere-WithinQuota env db.runs new
      (λ h. ground (arith, ==_iff new.environment_id env.id)) (sound.within id env stored)

-- The runs after a step, where the environments are as before.
Effect-Sound :
    (db db' : Db) → db'.environments ≡ db.environments → Effect db db'.runs → Sound db → Sound db'
Effect-Sound db db' same effect sound =
    let (unique, within) = runs-sound effect in
    record {
      unique = unique;
      within = λ id env stored. within id env (
          subst (λ (envs : List Environment). get_row environment_key id envs ≡ some env) same
            stored);
    }
  where
    runs-sound :
        Effect db db'.runs
        → UniqueKeys run_key db'.runs
          × ((id : Uuid) (env : Environment)
              → get_row environment_key id db.environments ≡ some env
              → WithinQuota env db'.runs)
    runs-sound (Effect.nothing kept) =
        (rw kept sound.unique, λ id env stored. rw kept (sound.within id env stored))
    runs-sound (Effect.added new owner fresh owned quota grown) = (
      rw grown (append-UniqueKeys run_key db.runs new sound.unique fresh),
      λ id env stored.
          rw grown (admitted-WithinQuota db new owner env id _ refl sound owned quota stored),
    )
    runs-sound (Effect.written j f old there going keeps settles changed) = (
      rw changed (modify_row-UniqueKeys run_key j f db.runs keeps sound.unique),
      λ id env stored. rw changed (
          Fewer-WithinQuota env _ db.runs
            (modify_row-Fewer env j f old db.runs sound.unique there settles)
            (sound.within id env stored)),
    )
    runs-sound (Effect.touched f keeps settles terminal changed) = (
      rw changed (map-UniqueKeys run_key f db.runs keeps sound.unique),
      λ id env stored. rw changed (
          Fewer-WithinQuota env _ db.runs (map-Fewer env f db.runs settles)
            (sound.within id env stored)),
    )

-- Whatever submissions, cancellations, claims and rounds of the workers follow one another, the keys
-- of the runs stay unique and every environment stays within its quotas of active runs and of cores.
pub quotas_always_hold : (db db' : Db) → Sound db → Reach db db' → Sound db'
quotas_always_hold db db' sound Reach.here = sound
quotas_always_hold db db' sound (Reach.later {db = mid} reached step) =
    let (same, effect) = Step-Writes step in
    Effect-Sound mid db' same effect (quotas_always_hold db mid sound reached)
