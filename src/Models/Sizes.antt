-- ===== src/Models/Sizes.antt =====
-- `requested_resources_json`: a dict of integers in which any key may be missing. The request
-- schema bounds every entry from below by 0.
use spark_pilot.Prelude.{ℕ, Option, none, some}

pub record Resources : Type 0 where
  pub driver_vcpu : Option ℕ
  pub driver_memory_gb : Option ℕ
  pub executor_vcpu : Option ℕ
  pub executor_memory_gb : Option ℕ
  pub executor_instances : Option ℕ

-- `{}`
abbrev pub no_resources : Resources
no_resources = record {
  driver_vcpu = none;
  driver_memory_gb = none;
  executor_vcpu = none;
  executor_memory_gb = none;
  executor_instances = none;
}

-- `schemas.RequestedResources`, whose fields have all been filled in
pub record RequestedResources : Type 0 where
  pub driver_vcpu : ℕ
  pub driver_memory_gb : ℕ
  pub executor_vcpu : ℕ
  pub executor_memory_gb : ℕ
  pub executor_instances : ℕ

-- `.model_dump()`
abbrev pub model_dump : RequestedResources → Resources
model_dump r = record {
  driver_vcpu = some r.driver_vcpu;
  driver_memory_gb = some r.driver_memory_gb;
  executor_vcpu = some r.executor_vcpu;
  executor_memory_gb = some r.executor_memory_gb;
  executor_instances = some r.executor_instances;
}
