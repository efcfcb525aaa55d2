-- ===== src/Models/Access.antt =====
-- The users of the platform and those inside a database: api/src/models/user.rs,
-- api/src/models/invitation.rs, api/src/models/database.rs (lines 30 to 36 and 81 to 91).
use dbsaa_s.Prelude.{ℕ, Option, String}
use dbsaa_s.Prelude.Int.{ℤ}
use dbsaa_s.Models.Roles.{UserRole}

pub record User : Type 0 where
  pub id : ℕ
  pub email : String
  pub password_hash : String
  pub role : UserRole
  pub api_key : Option String
  pub max_databases : ℤ
  -- of migration 008; the queries on users leave it out
  pub stripe_customer_id : Option String
  pub created_at : ℕ
  pub updated_at : ℕ

pub record Invitation : Type 0 where
  pub id : ℕ
  pub code : String
  pub created_by : ℕ
  pub used_by : Option ℕ
  pub max_uses : ℤ
  pub use_count : ℤ
  pub expires_at : Option ℕ
  pub created_at : ℕ

pub data DbPermission : Type 0 where
  admin read_write read_only : DbPermission

pub record DatabaseUser : Type 0 where
  pub id : ℕ
  pub database_id : ℕ
  pub username : String
  pub password_encrypted : String
  pub permission : DbPermission
  pub created_at : ℕ
  pub updated_at : ℕ
