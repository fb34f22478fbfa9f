-- ===== src/Environments/Creation.antt =====
-- Which environments are created, and what a creation writes.
use spark_pilot.Prelude.{
  ℕ, ◌+◌, ◌≡◌, ◌↔◌, refl, sym, ap, ◌∙◌, ==_refl, inl, inr, String, true, false, ◌==◌, Option, none,
  some, List, [], ◌∷◌, ◌++◌, is_blank, Bool-cases, if◌then◌else◌, arith,
}
use spark_pilot.Prelude.Table.{get_row}
use spark_pilot.Models.{
  Uuid, Time, Tenant, Environment, Engine, ProvisioningMode, ProvisioningOperation,
}
use spark_pilot.Errors.{Result, ok, >>=-eq-ok, ok-injective}
use spark_pilot.Database.{Db, environment_key, require_entity}
use spark_pilot.Accounts.Tables.{tenant_key}
use spark_pilot.Environments.Create.{
  Settings, EnvironmentCreateRequest, check_mode, check_lite, check_other_engine, new_environment,
  first_operation, create_environment,
}
use spark_pilot.Environments.Operations.{working, working-append}

abbrev pub IsGiven : Option String → Type 0
IsGiven none = ⊥
IsGiven (some value) = is_blank value ≡ false

found_entity :
    (row : Option Tenant) (tenant : Tenant)
    → require_entity row "Tenant not found." ≡ ok tenant
    → row ≡ some tenant
found_entity none tenant h = cc
found_entity (some t) tenant h = ap (λ (x : Tenant). some x) (ok-injective h)

module _ (settings : Settings) where
  abbrev pub IsDryLite : ProvisioningMode → Type 0
  IsDryLite ProvisioningMode.byoc_lite = settings.dry_run_mode ≡ true
  IsDryLite _ = ⊥

  -- What an engine and a mode ask of the deployment and of the request.
  abbrev pub IsPossible : Engine → ProvisioningMode → Option String → Option String → Type 0
  IsPossible Engine.emr_on_eks ProvisioningMode.byoc_lite arn namespace =
      IsGiven arn × IsGiven namespace
  IsPossible Engine.emr_on_eks ProvisioningMode.full arn namespace =
      (settings.enable_full_byoc_mode ≡ true) × (settings.has_terraform_root ≡ true)
  IsPossible Engine.emr_on_eks (ProvisioningMode.other _) arn namespace = Unit
  IsPossible _ mode arn namespace = IsDryLite mode

  lite-exact :
      (arn namespace : Option String)
      → (check_lite arn namespace ≡ ok tt) ↔ (IsGiven arn × IsGiven namespace)
  lite-exact none namespace = (λ h. cc, λ (given, _). absurd given)
  lite-exact (some a) none = (λ h. ground arith, λ (_, given). absurd given)
  lite-exact (some a) (some n) = (λ h. ground arith, λ h. ground arith)

  IsDryLite-exact :
      (mode : ProvisioningMode) → (check_other_engine settings mode ≡ ok tt) ↔ IsDryLite mode
  IsDryLite-exact ProvisioningMode.byoc_lite = (λ h. ground arith, λ h. ground arith)
  IsDryLite-exact ProvisioningMode.full = (λ h. ground arith, λ h. absurd h)
  IsDryLite-exact (ProvisioningMode.other _) = (λ h. ground arith, λ h. absurd h)

  mode-exact :
      (engine : Engine) (mode : ProvisioningMode) (arn namespace : Option String)
      → (check_mode settings engine mode arn namespace ≡ ok tt)
        ↔ IsPossible engine mode arn namespace
  unfolding check_mode
  mode-exact Engine.emr_on_eks ProvisioningMode.byoc_lite arn namespace =
      let (there, back) = lite-exact arn namespace in
      (λ h. there (ground arith), λ h. rw (back h) refl)
  mode-exact Engine.emr_on_eks ProvisioningMode.full arn namespace =
      (λ h. ground arith, λ h. ground arith)
  mode-exact Engine.emr_on_eks (ProvisioningMode.other _) arn namespace = (λ h. tt, λ h. refl)
  mode-exact Engine.emr_serverless mode arn namespace = IsDryLite-exact mode
  mode-exact Engine.emr_on_ec2 mode arn namespace = IsDryLite-exact mode
  mode-exact Engine.databricks mode arn namespace = IsDryLite-exact mode
  mode-exact (Engine.other _) mode arn namespace = IsDryLite-exact mode

  module _ (new_id op_id : Uuid) (now : Time) (actor : String) (source_ip : Option String)
      (key : String) (req : EnvironmentCreateRequest) (tenants : List Tenant) (db : Db) where
    abbrev pub IsAdmissible : Type 0
    IsAdmissible =
        (tenant : Tenant) × (get_row tenant_key req.tenant_id tenants ≡ some tenant)
        × IsPossible req.engine req.provisioning_mode req.eks_cluster_arn req.eks_namespace

    abbrev create : Result ((Environment × ProvisioningOperation) × Db)
    create = create_environment settings new_id op_id now actor source_ip key req tenants db

    abbrev pub Created : Db → Type 0
    Created db' =
        (db'.environments ≡ db.environments ++ new_environment new_id req ∷ [])
        × (db'.operations ≡ db.operations ++ first_operation op_id now new_id key ∷ [])
        × (db'.jobs ≡ db.jobs)

    pub Created-parts :
        (env : Environment) (op : ProvisioningOperation) (db' : Db)
        → create ≡ ok ((env, op), db')
        → IsAdmissible × Created db'
    unfolding create_environment
    Created-parts env op db' h =
        let (tenant, found, rest) =
          >>=-eq-ok (require_entity (get_row tenant_key req.tenant_id tenants) "Tenant not found.")
            _ h in
        let (_, checked, made) =
          >>=-eq-ok
            (check_mode settings req.engine req.provisioning_mode req.eks_cluster_arn
              req.eks_namespace)
            _ rest in
        let written =
          ap (λ (x : (Environment × ProvisioningOperation) × Db). x.1) (ok-injective made) in
        (
          (
            tenant,
            found_entity (get_row tenant_key req.tenant_id tenants) tenant found,
            (mode-exact req.engine req.provisioning_mode req.eks_cluster_arn req.eks_namespace).0
                checked,
          ),
          (
            sym (ap (λ (x : Db). x.environments) written),
            sym (ap (λ (x : Db). x.operations) written),
            sym (ap (λ (x : Db). x.jobs) written),
          ),
        )

    admitted :
        IsAdmissible → (result : (Environment × ProvisioningOperation) × Db) × (create ≡ ok result)
    unfolding create_environment
    admitted (tenant, found, possible) =
        let checked =
          (mode-exact req.engine req.provisioning_mode req.eks_cluster_arn req.eks_namespace).1
            possible in
        rw (found, checked) (_, refl)

    -- An environment is created exactly when its tenant is there and its engine and mode are possible: on
    -- EMR on EKS, BYOC-Lite needs a cluster and a namespace, and the full mode a deployment that enables
    -- it and has its Terraform modules; any other engine needs a dry run and BYOC-Lite.
    pub creation_exact :
        ((result : (Environment × ProvisioningOperation) × Db) × (create ≡ ok result))
        ↔ IsAdmissible
    creation_exact = (λ (((env, op), db'), h). (Created-parts env op db' h).0, admitted)

    -- A creation adds an environment that is to be provisioned, under its new identifier, and one
    -- operation that is at work on it, and on no other environment.
    pub create_environment_lem :
        (env : Environment) (op : ProvisioningOperation) (db' : Db)
        → get_row environment_key new_id db.environments ≡ none
        → create ≡ ok ((env, op), db')
        → (get_row environment_key new_id db'.environments ≡ some (new_environment new_id req))
          × ((other : Uuid)
              → working other db'.operations
                ≡ working other db.operations + (if new_id == other then 1 else 0))
    unfolding get_row
    create_environment_lem env op db' fresh h =
        let (_, (environments, operations, _)) = Created-parts env op db' h in
        (
          rw environments (appended db.environments fresh),
          λ other. rw operations (
              working-append other db.operations _
              ∙ ap (λ (n : ℕ). working other db.operations + n) (first other)),
        )
      where
        appended :
            (envs : List Environment)
            → get_row environment_key new_id envs ≡ none
            → get_row environment_key new_id (envs ++ new_environment new_id req ∷ [])
              ≡ some (new_environment new_id req)
        appended [] h = rw (==_refl new_id) refl
        appended (e ∷ envs) h = ground (arith, appended envs)

        first :
            (other : Uuid)
            → working other (first_operation op_id now new_id key ∷ [])
              ≡ (if new_id == other then 1 else 0)
        first other = elim (Bool-cases (new_id == other)) [ inl e ↦ rw e refl | inr e ↦ rw e refl ]
