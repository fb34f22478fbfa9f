-- ===== src/Policy/Table.antt =====
-- The policy table: `create_policy`, `delete_policy` of src/sparkpilot/policy_engine.py.
use spark_pilot.Prelude.{
  String, Bool, true, false, if◌then◌else◌, Option, none, some, get_or, List, [], ◌∷◌, ◌++◌,
}
use spark_pilot.Prelude.Table.{get_row, modify_row}
use spark_pilot.Models.{
  Uuid, Policy, PolicyConfig, RuleType, Enforcement, Scope, AuditEvent, write_audit_event,
  policy_written,
}

-- The policies and the audit log of a session.
pub record PolicyDb : Type 0 where
  pub policies : List Policy
  pub audit : List AuditEvent

-- `rule_type in POLICY_RULE_TYPES`
abbrev pub is_known_rule : RuleType → Bool
is_known_rule (RuleType.other _) = false
is_known_rule _ = true

abbrev written_event :
    String → Option String → Option String → Uuid → String → RuleType → AuditEvent
written_event action actor source_ip id name rule_type = record {
  tenant_id = none;
  actor = get_or actor "system";
  action = action;
  source_ip = source_ip;
  entity_type = "policy";
  entity_id = id;
  details_json = policy_written name rule_type;
  aws_request_id = none;
}

-- `none` is the `ValueError`. The database draws the new row's id.
unfoldable pub create_policy :
    (new_id : Uuid) (name : String) (scope : Scope) (scope_id : Option Uuid) (rule_type : RuleType)
    (config : PolicyConfig) (enforcement : Enforcement) (active : Bool)
    (actor source_ip : Option String)
    → PolicyDb
    → Option (Policy × PolicyDb)
create_policy new_id name scope scope_id rule_type config enforcement active actor source_ip db =
    let policy : Policy = record {
      id = new_id;
      name = name;
      scope = scope;
      scope_id = scope_id;
      rule_type = rule_type;
      config_json = config;
      enforcement = enforcement;
      active = active;
      created_by_actor = actor;
    } in
    if is_known_rule rule_type
    then some (
      policy,
      record {
        policies = db.policies ++ policy ∷ [];
        audit =
            write_audit_event (written_event "policy.created" actor source_ip new_id name rule_type)
              db.audit;
      },
    )
    else none

-- `db.get(Policy, policy_id)`
abbrev pub get_policy : Uuid → List Policy → Option Policy
get_policy = get_row (λ (p : Policy). p.id)

abbrev pub set_inactive : Policy → Policy
set_inactive p = record p { active = false }

-- `policy.active = False` on the row with this key
abbrev pub deactivate : Uuid → List Policy → List Policy
deactivate id = modify_row (λ (p : Policy). p.id) id set_inactive

abbrev delete_found :
    Uuid → Option String → Option String → PolicyDb → Option Policy → Bool × PolicyDb
delete_found id actor source_ip db none = (false, db)
delete_found id actor source_ip db (some policy) = (
  true,
  record {
    policies = deactivate id db.policies;
    audit =
        write_audit_event
          (written_event "policy.deactivated" actor source_ip id policy.name policy.rule_type)
          db.audit;
  },
)

unfoldable pub delete_policy : Uuid → (actor source_ip : Option String) → PolicyDb → Bool × PolicyDb
delete_policy id actor source_ip db = delete_found id actor source_ip db (get_policy id db.policies)
