-- ===== src/Admin.antt =====
-- The endpoints of the administrator on settings, roles and invitations: api/src/handlers/admin.rs.
-- They come after the check that the user is an
-- administrator (Auth.admin_middleware).
pub mod Deletions
pub mod Routing
pub mod Refused
pub mod Invited
pub mod Addresses
pub mod Servers
use dbsaa_s.Prelude.{
  ℕ, ◌+◌, ◌-◌, ◌*◌, Bool, true, false, not, Option, none, some, List, String, str_eq, if◌then◌else◌,
  map,
}
use dbsaa_s.Prelude.Int.{ℤ, pos, pos_part, neg_part}
use dbsaa_s.Models.Roles.{UserRole}
use dbsaa_s.Models.Access.{Invitation}
use dbsaa_s.Errors.{AppError}
use dbsaa_s.Platform.{M, Services, pure, throw, or_throw, modify, now_utc, ◌>>=◌, ◌>>◌}
use dbsaa_s.Repository.Users
use dbsaa_s.Repository.Invitations
use dbsaa_s.Repository.Schedules.{coalesce}
use dbsaa_s.Databases.Resources.{generate_random_string}

-- `Uuid::nil()`
abbrev pub nil_id : ℕ
nil_id = 0

abbrev pub role_named : String → Option UserRole
role_named role_str =
    if str_eq role_str "admin"
    then some UserRole.admin
    else if str_eq role_str "user"
    then some UserRole.user
    else none

-- `now + hours`, in microseconds, for hours that chrono can add.
abbrev pub hours_after : ℕ → ℤ → ℕ
hours_after now hours = now + pos_part hours * 3600000000 - neg_part hours * 3600000000

pub record InvitationItem : Type 0 where
  pub id : ℕ
  pub code : String
  pub max_uses : ℤ
  pub use_count : ℤ
  pub expires_at : Option ℕ
  pub created_at : ℕ

abbrev pub item : Invitation → InvitationItem
item i = record {
  id = i.id;
  code = i.code;
  max_uses = i.max_uses;
  use_count = i.use_count;
  expires_at = i.expires_at;
  created_at = i.created_at;
}

module _ {W : Type 0} where
  -- The body's `enabled`, if it has one that is a Boolean.
  unfoldable pub toggle_registration : Option Bool → M W Bool
  toggle_registration body = do
    enabled ← or_throw body (AppError.bad_request "enabled (bool) is required")
    modify (λ s. record s { registration_enabled = enabled })
    pure enabled

  -- The setting is written to platform_settings too, which nothing in the program reads.
  unfoldable pub toggle_maintenance : Option Bool → M W Bool
  toggle_maintenance body = do
    enabled ← or_throw body (AppError.bad_request "enabled (bool) is required")
    modify (λ s. record s { maintenance_mode = enabled })
    pure enabled

  unfoldable pub list_invitations : M W (List InvitationItem)
  list_invitations = Invitations.list_all >>= λ invitations. pure (map item invitations)

  unfoldable pub delete_invitation : ℕ → M W (Unit {0})
  delete_invitation id = Invitations.delete_row id

module _ {W : Type 0} (svc : Services W) where
  unfoldable pub update_user_role : ℕ → Option String → M W (Unit {0})
  update_user_role user_id body = do
    role_str ← or_throw body (AppError.bad_request "role is required")
    role ← or_throw (role_named role_str) (AppError.bad_request "Invalid role")
    Users.update_role svc user_id role

  abbrev pub expiry : Option ℤ → M W (Option ℕ)
  expiry none = pure none
  expiry (some hours) = now_utc svc >>= λ t. pure (some (hours_after t hours))

  unfoldable pub create_invitation : Option ℤ → Option ℤ → M W Invitation
  create_invitation max_uses expires_in_hours = do
    code ← generate_random_string svc 16
    expires_at ← expiry expires_in_hours
    Invitations.create svc code nil_id (coalesce max_uses (pos 1)) expires_at
