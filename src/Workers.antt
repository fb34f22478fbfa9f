-- ===== src/Workers.antt =====
-- The background workers of src/sparkpilot/services: claims, the scheduler and the reconciler.
pub mod Claims
pub mod Exclusive
pub mod Faults
pub mod Scheduler
pub mod Cloud
pub mod Reconciler
mod Tests
