-- ===== src/Preflight.antt =====
-- Preflight (src/sparkpilot/services/preflight.py): the list of checks, its summary, the checks that
-- the policy engine adds, and the cache in front of the builder.
pub mod Checks
pub mod Ready
pub mod Policies
pub mod Cache
pub mod Caching
pub mod Hits
mod Tests
