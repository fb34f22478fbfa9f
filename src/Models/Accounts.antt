-- ===== src/Models/Accounts.antt =====
-- `models.Tenant`, `Team`, `User`, `UserIdentity`, `MagicLinkToken`, `MagicLinkLog` and
-- `TeamEnvironmentScope`, without `created_at` and `updated_at`. An empty identifier is none.
use spark_pilot.Prelude.{String, Bool, Option}
use spark_pilot.Models.States.{Uuid, Time}

pub record Tenant : Type 0 where
  pub id : Uuid
  pub name : String
  pub federation_type : String

pub record Team : Type 0 where
  pub id : Uuid
  pub tenant_id : Uuid
  pub name : String

-- `User.role`
pub data MemberRole : Type 0 where
  admin member : MemberRole

pub record User : Type 0 where
  pub id : Uuid
  pub tenant_id : Uuid
  pub email : String
  pub role : MemberRole
  pub invited_at : Option Time
  pub invite_consumed_at : Option Time
  pub last_login_at : Option Time

-- `UserIdentity.role`; the column holds a text.
pub data IdentityRole : Type 0 where
  admin operator user : IdentityRole
  other : String → IdentityRole

pub record UserIdentity : Type 0 where
  pub id : Uuid
  pub user_id : Option Uuid
  pub actor : String
  pub role : IdentityRole
  pub tenant_id : Option Uuid
  pub team_id : Option Uuid
  pub active : Bool

pub data Purpose : Type 0 where
  invite_accept password_reset email_verify : Purpose

pub record MagicLinkToken : Type 0 where
  pub id : Uuid
  pub token_hash : String
  pub user_id : Uuid
  pub tenant_id : Uuid
  pub purpose : Purpose
  pub expires_at : Time
  pub consumed_at : Option Time
  pub callback_consumed_at : Option Time
  pub created_by : String

-- The URL is kept without its query, which holds the token.
pub record MagicLinkLog : Type 0 where
  pub user_id : Uuid
  pub tenant_id : Uuid
  pub purpose : Purpose
  pub magic_link_url : String
  pub created_by : String

pub record TeamEnvironmentScope : Type 0 where
  pub id : Uuid
  pub team_id : Uuid
  pub environment_id : Uuid
