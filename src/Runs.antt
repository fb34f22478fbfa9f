-- ===== src/Runs.antt =====
-- The runs of src/sparkpilot/services/crud.py: admission, cancellation, and their life cycle.
pub mod Configuration
pub mod Create
pub mod Cancel
pub mod Admission
pub mod Submission
pub mod Idempotent
pub mod Cancellation
mod Tests
