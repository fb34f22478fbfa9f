-- ===== src/Database.antt =====
-- The tables that the services on runs and environments share. A query is a filter over the rows in
-- the order of insertion; what a raise undoes is not written here, since an error carries no state.
use spark_pilot.Prelude.{ℕ, String, Option, none, some, List}
use spark_pilot.Prelude.Table.{get_row}
use spark_pilot.Models.{
  Uuid, Run, Job, Environment, GoldenPath, Policy, ProvisioningOperation, AuditEvent,
}
use spark_pilot.Errors.{Result, ok, err, entity_not_found}

pub record Db : Type 0 where
  pub jobs : List Job
  pub environments : List Environment
  pub golden_paths : List GoldenPath
  pub policies : List Policy
  pub runs : List Run
  pub operations : List ProvisioningOperation
  pub audit : List AuditEvent

-- `_require_entity`
abbrev pub require_entity {ℓ} : {A : Type ℓ} → Option A → String → Result A
require_entity none detail = err (entity_not_found detail)
require_entity (some entity) detail = ok entity

abbrev pub run_key : Run → ℕ
run_key run = run.id

abbrev pub environment_key : Environment → ℕ
environment_key env = env.id

abbrev pub operation_key : ProvisioningOperation → ℕ
operation_key op = op.id

unfoldable pub require_run : Db → Uuid → Result Run
require_run db id = require_entity (get_row run_key id db.runs) "Run not found."

unfoldable pub require_job : Db → Uuid → Result Job
require_job db id = require_entity (get_row (λ (j : Job). j.id) id db.jobs) "Job not found."

unfoldable pub require_environment : Db → Uuid → Result Environment
require_environment db id =
    require_entity (get_row environment_key id db.environments) "Environment not found."
