-- ===== src/Provisioning.antt =====
-- The provisioning worker (src/sparkpilot/services/workers_provisioning.py).
pub mod Checkpoints
pub mod Validations
pub mod Stages
pub mod Process
pub mod Settled
pub mod Resume
pub mod Outputs
pub mod Lite
pub mod Trusted
mod Tests
