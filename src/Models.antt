-- ===== src/Models.antt =====
-- The rows of the database (src/sparkpilot/models.py) and the closed sets of texts in their columns.
-- Identifiers are only compared, so they are numbers; a time is a number of microseconds, the
-- resolution of Python's `datetime`.
mod States
mod Messages
mod Sizes
mod Policies
mod Checkpoints
mod Audit
mod Rows
mod Costs
mod Accounts
pub use States.*
pub use Messages.*
pub use Sizes.*
pub use Policies.*
pub use Checkpoints.*
pub use Audit.*
pub use Rows.*
pub use Costs.*
pub use Accounts.*
