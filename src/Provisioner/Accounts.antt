-- ===== src/Provisioner/Accounts.antt =====
-- Commands in a container, and the users inside a database: api/src/services/provisioner.rs (lines 622 to 643
-- and 738 to 877).
use Prim.Native.String.{◌++◌, len}
use Prim.Native.Char.{code}
use dbsaa_s.Prelude.{
  ℕ, Bool, false, Option, none, some, List, [], ◌∷◌, ◌++◌ as append, String, str_eq, leb, ltb, ◌&&◌,
  ◌||◌,
}
use dbsaa_s.Errors.{AppError}
use dbsaa_s.Platform.{M, Docker, Services, pure, throw_if, call, ◌>>=◌, ◌>>◌}
use dbsaa_s.Text.{is_whitespace}
use dbsaa_s.Models.Access.{DbPermission}
use dbsaa_s.Provisioner.Sql.{
  create_role_sql, pg_grant_sql, drop_role_sql, alter_role_sql, create_user_sql, mariadb_grant_sql,
  drop_user_sql, alter_user_sql,
}

-- `while let Some(Ok(msg)) = …`: the messages up to the first error.
abbrev pub messages : List (Option String) → String
messages [] = ""
messages (none ∷ rest) = ""
messages (some msg ∷ rest) = msg ++ messages rest

abbrev pub output_of : Option (List (Option String)) → String
output_of none = ""
output_of (some stream) = messages stream

-- Unicode's category Cc: `char::is_control`.
abbrev pub is_control : ℕ → Bool
is_control c = leb c 0x1f || (leb 0x7f c && leb c 0x9f)

abbrev pub any_char : (ℕ → Bool) → String → Bool
any_char p String.[] = false
any_char p (String.◌∷◌ c s) = let rest = any_char p s in p (code c) || rest

abbrev pub redis_extra : DbPermission → List String
redis_extra DbPermission.admin = "+@all" ∷ []
redis_extra DbPermission.read_write =
    "+@read" ∷ "+@write" ∷ "+@connection" ∷ "+@string" ∷ "+@list" ∷ "+@set" ∷ "+@sortedset"
    ∷ "+@hash" ∷ "+@stream" ∷ "-@admin" ∷ "-@dangerous" ∷ []
redis_extra DbPermission.read_only =
    "+@read" ∷ "+@connection" ∷ "-@admin" ∷ "-@dangerous" ∷ "-@write" ∷ []

-- The start of every command for Redis.
abbrev pub redis_cli : String → List String → List String
redis_cli owner_password args = "redis-cli" ∷ "-a" ∷ owner_password ∷ "--no-auth-warning" ∷ args

abbrev pub psql : String → String → String → List String
psql owner_username db_name sql = "psql" ∷ "-U" ∷ owner_username ∷ "-d" ∷ db_name ∷ "-c" ∷ sql ∷ []

abbrev pub mariadb : String → String → List String
mariadb root_password sql = "mariadb" ∷ "-uroot" ∷ ("-p" ++ root_password) ∷ "-e" ∷ sql ∷ []

module _ {W : Type 0} where
  unfoldable pub validate_redis_credential : String → String → M W (Unit {0})
  validate_redis_credential val field = do
    throw_if (str_eq val "" || ltb 256 (len val))
        (AppError.bad_request (field ++ " has invalid length"))
    throw_if (any_char (λ c. is_whitespace c || is_control c) val)
        (AppError.bad_request (field ++ " contains invalid characters"))

module _ {W : Type 0} (svc : Services W) (docker : Docker) (container_id : String) where
  -- The status that the command ends with is not looked at.
  unfoldable pub exec_in_container : List String → M W String
  exec_in_container cmd = do
    exec ← call (svc.create_exec docker container_id cmd)
    output ← call (svc.start_exec docker exec)
    pure (output_of output)

  unfoldable pub create_pg_user : String → String → String → String → DbPermission → M W (Unit {0})
  create_pg_user owner_username db_name username password permission = do
    exec_in_container (psql owner_username db_name (create_role_sql username password))
    exec_in_container (psql owner_username db_name (pg_grant_sql permission db_name username))
    pure tt

  unfoldable pub remove_pg_user : String → String → String → M W (Unit {0})
  remove_pg_user owner_username db_name username = do
    exec_in_container (psql owner_username db_name (drop_role_sql db_name username))
    pure tt

  unfoldable pub rotate_pg_password : String → String → String → String → M W (Unit {0})
  rotate_pg_password owner_username db_name username new_password = do
    exec_in_container (psql owner_username db_name (alter_role_sql username new_password))
    pure tt

  unfoldable pub create_redis_user : String → String → String → DbPermission → M W (Unit {0})
  create_redis_user owner_password username password permission = do
    validate_redis_credential username "Redis username"
    validate_redis_credential password "Redis password"
    exec_in_container (
        append
          (redis_cli owner_password
            ("ACL" ∷ "SETUSER" ∷ username ∷ "on" ∷ (">" ++ password) ∷ "~*" ∷ "&*" ∷ []))
          (redis_extra permission))
    exec_in_container (redis_cli owner_password ("ACL" ∷ "SAVE" ∷ []))
    pure tt

  unfoldable pub remove_redis_user : String → String → M W (Unit {0})
  remove_redis_user owner_password username = do
    validate_redis_credential username "Redis username"
    exec_in_container (redis_cli owner_password ("ACL" ∷ "DELUSER" ∷ username ∷ []))
    exec_in_container (redis_cli owner_password ("ACL" ∷ "SAVE" ∷ []))
    pure tt

  unfoldable pub rotate_redis_password : String → String → String → M W (Unit {0})
  rotate_redis_password owner_password username new_password = do
    validate_redis_credential username "Redis username"
    validate_redis_credential new_password "Redis password"
    exec_in_container (
        redis_cli owner_password
          ("ACL" ∷ "SETUSER" ∷ username ∷ "resetpass" ∷ (">" ++ new_password) ∷ []))
    exec_in_container (redis_cli owner_password ("ACL" ∷ "SAVE" ∷ []))
    pure tt

  unfoldable pub create_mariadb_user :
      String → String → String → String → DbPermission → M W (Unit {0})
  create_mariadb_user root_password db_name username password permission = do
    exec_in_container (mariadb root_password (create_user_sql username password))
    exec_in_container (mariadb root_password (mariadb_grant_sql permission db_name username))
    exec_in_container (mariadb root_password "FLUSH PRIVILEGES;")
    pure tt

  unfoldable pub remove_mariadb_user : String → String → M W (Unit {0})
  remove_mariadb_user root_password username = do
    exec_in_container (mariadb root_password (drop_user_sql username))
    pure tt

  unfoldable pub rotate_mariadb_password : String → String → String → M W (Unit {0})
  rotate_mariadb_password root_password username new_password = do
    exec_in_container (mariadb root_password (alter_user_sql username new_password))
    pure tt
