-- ===== src/Auth.antt =====
-- Who sends a request: api/src/middleware/auth.rs, api/src/middleware/admin.rs,
-- api/src/middleware/maintenance.rs. The tokens and the hashes of the crates are parameters.
pub mod Handlers
pub mod Current
pub mod Quiet
pub mod Registration
use Prim.Native.Char.{code}
use dbsaa_s.Prelude.{
  ℕ, ◌+◌, ◌*◌, Bool, true, false, not, Option, none, some, String, ◌==◌, ◌&&◌, ◌||◌, if◌then◌else◌,
}
use dbsaa_s.Text.{starts_with}
use dbsaa_s.Models.{AuthUser}
use dbsaa_s.Models.Roles.{UserRole}
use dbsaa_s.Models.Access.{User}
use dbsaa_s.Errors.{AppError, Result, ok, err}
use dbsaa_s.Config.{Config}
use dbsaa_s.Platform.{
  M, Call, Services, pure, gets, throw, throw_if, or_throw, call, now_utc, ◌>>=◌, ◌>>◌,
}
use dbsaa_s.Repository.Users

-- `exp` is in microseconds here.
pub record Claims : Type 0 where
  pub sub : ℕ
  pub email : String
  pub role : UserRole
  pub exp : ℕ

pub record Tokens (W : Type 0) : Type 0 where
  -- `jsonwebtoken::decode` and `encode` with HS256: the text and the secret; the first reads the clock
  pub decode : String → String → Call W Claims
  pub encode : Claims → String → Result String
  -- SHA-256 in hexadecimal digits
  pub hash_api_key : String → String
  -- Argon2 with a new salt; and the check, which fails on a text that is no hash
  pub hash_password : String → Call W String
  pub verify_password : String → String → Result Bool
  -- `validator`'s check of an email address
  pub is_email : String → Bool

-- `.strip_prefix(prefix)`
abbrev pub strip_prefix : String → String → Option String
strip_prefix s String.[] = some s
strip_prefix String.[] (String.◌∷◌ d t) = none
strip_prefix (String.◌∷◌ c s) (String.◌∷◌ d t) =
    let rest = strip_prefix s t in if code c == code d then rest else none

abbrev pub auth_user : User → AuthUser
auth_user u = record { id = u.id; email = u.email; role = u.role }

module _ {W : Type 0} where
  -- The row as the request's user; no row is a 401.
  abbrev pub known_user : Option User → M W AuthUser
  known_user found = or_throw found AppError.unauthorized >>= λ u. pure (auth_user u)

module _ {W : Type 0} (tokens : Tokens W) (cfg : Config) where
  abbrev pub by_token : String → M W AuthUser
  by_token token = do
    claims ← call (tokens.decode token cfg.jwt_secret)
    found ← Users.find_by_id claims.sub
    known_user found

  abbrev pub by_api_key : String → M W AuthUser
  by_api_key api_key = do
    found ← Users.find_by_api_key tokens.hash_api_key api_key
    known_user found

  abbrev pub by_key_or_none : Option String → M W AuthUser
  by_key_or_none none = throw AppError.unauthorized
  by_key_or_none (some api_key) = by_api_key api_key

  abbrev pub by_header : String → Option String → M W AuthUser
  by_header header (some token) = by_token token
  by_header header none = by_key_or_none (strip_prefix header "ApiKey ")

  -- The user that the rest of the request is given.
  unfoldable pub auth_middleware : Option String → M W AuthUser
  auth_middleware header = do
    auth_header ← or_throw header AppError.unauthorized
    by_header auth_header (strip_prefix auth_header "Bearer ")

module _ {W : Type 0} (svc : Services W) (tokens : Tokens W) (cfg : Config) where
  -- For 24 hours.
  unfoldable pub create_token : ℕ → String → UserRole → M W String
  create_token user_id email role = do
    t ← now_utc svc
    call (λ w. (
      tokens.encode
          (record { sub = user_id; email = email; role = role; exp = t + 24 * 3600000000 })
          cfg.jwt_secret,
      w,
    ))

abbrev pub is_admin : UserRole → Bool
is_admin UserRole.admin = true
is_admin UserRole.user = false

-- The endpoints of the administrator come after both.
unfoldable pub admin_middleware : {W : Type 0} → Option AuthUser → M W AuthUser
admin_middleware stored = do
  user ← or_throw stored AppError.unauthorized
  throw_if (not (is_admin user.role)) AppError.forbidden
  pure user

-- The 503 of a request, which is no error of the API's own type.
unfoldable pub is_refused : {W : Type 0} → Bool → String → M W Bool
is_refused is_get path =
    gets (λ s. s.maintenance_mode && not (is_get || starts_with path "/api/admin"))
