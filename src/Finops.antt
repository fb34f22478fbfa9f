-- ===== src/Finops.antt =====
-- Costs (src/sparkpilot/services/finops.py): usage records and allocations, budgets, and the
-- reconciliation with the cost report.
pub mod Usage
pub mod Once
pub mod Query
pub mod Quoting
pub mod Names
pub mod Athena
pub mod Costs
pub mod Reconciliation
pub mod Final
pub mod Budgets
pub mod Spend
mod Tests
