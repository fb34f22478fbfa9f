-- ===== src/Policy.antt =====
-- The policy engine (src/sparkpilot/policy_engine.py): the evaluators of a run's parameters, the
-- choice of the policies that apply to an environment, and the policy table.
pub mod Evaluators
pub mod Engine
pub mod Table
pub mod Limits
pub mod Tags
pub mod Allowed
pub mod Rules
pub mod Selection
pub mod Reports
pub mod Lifecycle
mod Tests
