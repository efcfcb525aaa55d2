-- ===== src/Auth/Handlers.antt =====
-- The endpoints on accounts: api/src/handlers/auth.rs, with the requests in api/src/models/user.rs.
use Prim.Native.String.{◌++◌, len}
use dbsaa_s.Prelude.{ℕ, Bool, true, false, not, Option, none, some, String, ltb, ◌||◌}
use dbsaa_s.Prelude.Int.{leb_ℤ}
use dbsaa_s.Models.{AuthUser}
use dbsaa_s.Models.Roles.{UserRole}
use dbsaa_s.Models.Access.{User}
use dbsaa_s.Errors.{AppError}
use dbsaa_s.Config.{Config}
use dbsaa_s.Platform.{M, Services, pure, gets, throw_if, or_throw, call, now_utc, ◌>>=◌, ◌>>◌}
use dbsaa_s.Repository.Users
use dbsaa_s.Repository.Invitations
use dbsaa_s.Databases.Resources.{generate_random_string, of_result}
use dbsaa_s.Auth.{Tokens, create_token}

pub record CreateUserRequest : Type 0 where
  pub email : String
  pub password : String
  pub invitation_code : Option String

pub record UserInfo : Type 0 where
  pub id : ℕ
  pub email : String
  pub role : UserRole

pub record AuthResponse : Type 0 where
  pub token : String
  pub user : UserInfo

abbrev pub info : User → UserInfo
info u = record { id = u.id; email = u.email; role = u.role }

abbrev pub is_some : {A : Type 0} → Option A → Bool
is_some none = false
is_some (some a) = true

module _ {W : Type 0} (svc : Services W) (tokens : Tokens W) (cfg : Config) where
  abbrev pub check_expiry : Option ℕ → M W (Unit {0})
  check_expiry none = pure tt
  check_expiry (some expires) = do
    t ← now_utc svc
    throw_if (ltb expires t) (AppError.bad_request "Invitation code expired")

  abbrev pub check_invitation : Option String → M W (Unit {0})
  check_invitation invitation_code = do
    code ←
        or_throw invitation_code
          (AppError.bad_request "Registration is disabled. Invitation code required.")
    found ← Invitations.find_by_code code
    invitation ← or_throw found (AppError.bad_request "Invalid invitation code")
    throw_if (leb_ℤ invitation.max_uses invitation.use_count)
        (AppError.bad_request "Invitation code exhausted")
    check_expiry invitation.expires_at

  abbrev pub check_open : Bool → Option String → M W (Unit {0})
  check_open true invitation_code = pure tt
  check_open false invitation_code = check_invitation invitation_code

  -- `?` only: whether a row was changed is not looked at.
  abbrev pub spend : Option String → ℕ → M W (Unit {0})
  spend none user_id = pure tt
  spend (some code) user_id = Invitations.use_invitation svc code user_id >>= λ used. pure tt

  abbrev pub enroll : CreateUserRequest → M W AuthResponse
  enroll req = do
    password_hash ← call (tokens.hash_password req.password)
    user ← Users.create svc req.email password_hash UserRole.user
    spend req.invitation_code user.id
    token ← create_token svc tokens cfg user.id user.email user.role
    pure (record { token = token; user = info user })

  unfoldable pub register : CreateUserRequest → M W AuthResponse
  register req = do
    throw_if (not (tokens.is_email req.email)) (AppError.bad_request "email: Validation error")
    throw_if (ltb (len req.password) 8 || ltb 128 (len req.password))
        (AppError.bad_request "password: Validation error")
    reg_enabled ← gets (λ s. s.registration_enabled)
    check_open reg_enabled req.invitation_code
    existing ← Users.find_by_email req.email
    throw_if (is_some existing) (AppError.conflict "Email already registered")
    enroll req

  unfoldable pub login : String → String → M W AuthResponse
  login email password = do
    found ← Users.find_by_email email
    user ← or_throw found AppError.unauthorized
    valid ← of_result (tokens.verify_password password user.password_hash)
    throw_if (not valid) AppError.unauthorized
    token ← create_token svc tokens cfg user.id user.email user.role
    pure (record { token = token; user = info user })

  unfoldable pub me : AuthUser → M W UserInfo
  me user = pure (record { id = user.id; email = user.email; role = user.role })

  unfoldable pub generate_api_key_handler : AuthUser → M W String
  generate_api_key_handler user = do
    rest ← generate_random_string svc 48
    let api_key = "sbk_" ++ rest
    Users.set_api_key svc tokens.hash_api_key user.id api_key
    pure api_key
