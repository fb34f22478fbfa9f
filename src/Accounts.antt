-- ===== src/Accounts.antt =====
-- Tenants, their teams and users, the identities that sign in, and invites.
pub mod Tables
pub mod Tenants
pub mod Access
pub mod Invites
pub mod Provision
pub mod Callback
pub mod Steps
pub mod Writes
pub mod Calls
pub mod InviteCalls
pub mod CallbackCalls
pub mod Moves
pub mod Spent
pub mod Once
pub mod Revoked
pub mod Isolation
pub mod Scopes
pub mod Separation
pub mod Logins
pub mod InviteState
pub mod SignedState
mod Tests
mod StateTests
