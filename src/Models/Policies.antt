-- ===== src/Models/Policies.antt =====
-- `models.Policy`. `config_json` is a dict whose keys depend on the rule: a missing key is `none`,
-- or the empty dict or list that the evaluators fall back on. Its values have the types that the
-- evaluators read them at.
use spark_pilot.Prelude.{String, Bool, Option, List, Dict}
use spark_pilot.Prelude.Int.{ℤ}
use spark_pilot.Models.States.{Uuid}

-- The keys of `_RULE_EVALUATORS`, and any other text.
pub data RuleType : Type 0 where
  max_runtime_seconds max_vcpu max_memory_gb : RuleType
  required_tags : RuleType
  allowed_golden_paths allowed_release_labels allowed_instance_types : RuleType
  allowed_security_configurations : RuleType
  other : String → RuleType

pub data Enforcement : Type 0 where
  hard soft : Enforcement

pub data Scope : Type 0 where
  global tenant environment : Scope

pub record PolicyConfig : Type 0 where
  pub max_seconds : Option ℤ
  pub max_vcpu : Option ℤ
  pub max_memory_gb : Option ℤ
  pub tags : Dict String
  pub allowed : List String
  pub require_golden_path : Bool
  pub require_security_configuration : Bool

pub record Policy : Type 0 where
  pub id : Uuid
  pub name : String
  pub scope : Scope
  pub scope_id : Option Uuid
  pub rule_type : RuleType
  pub config_json : PolicyConfig
  pub enforcement : Enforcement
  pub active : Bool
  pub created_by_actor : Option String
