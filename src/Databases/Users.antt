-- ===== src/Databases/Users.antt =====
-- Users inside a database: api/src/handlers/databases.rs (lines 797 to 1150), with the check of a user name in
-- api/src/models/database.rs (lines 126 to 134).
use Prim.Native.String.{◌++◌, len}
use dbsaa_s.Prelude.{
  ℕ, Bool, true, false, not, List, [], ◌∷◌, String, str_eq, ltb, ◌==◌, ◌&&◌, ◌||◌, map,
}
use dbsaa_s.Models.{DatabaseInstance, DbType, AuthUser, is_running}
use dbsaa_s.Models.Access.{DatabaseUser, DbPermission}
use dbsaa_s.Errors.{AppError}
use dbsaa_s.Platform.{M, Docker, Services, pure, throw_if, or_throw, ignore, now_utc, ◌>>=◌, ◌>>◌}
use dbsaa_s.Config.{Config}
use dbsaa_s.Crypto.{decrypt_string}
use dbsaa_s.Subdomain.{is_ascii_alphanumeric}
use dbsaa_s.Repository.Databases.{update_row}
use dbsaa_s.Repository.Accounts
use dbsaa_s.Provisioner.Accounts.{
  exec_in_container, create_pg_user, remove_pg_user, rotate_pg_password, create_redis_user,
  remove_redis_user, rotate_redis_password, create_mariadb_user, remove_mariadb_user,
  rotate_mariadb_password, redis_cli,
}
use dbsaa_s.Databases.Addresses.{all_chars, unwrap_or}
use dbsaa_s.Databases.Resources.{generate_random_string, encrypt_string, of_result}
use dbsaa_s.Databases.Lifecycle.{own_database, resolve_docker_for_instance}

unfoldable pub validate_username : String → Bool
validate_username username =
    not (str_eq username "" || ltb 63 (len username))
    && all_chars (λ c. is_ascii_alphanumeric c || c == b'_') username

pub record DatabaseUserResponse : Type 0 where
  pub id : ℕ
  pub database_id : ℕ
  pub username : String
  pub password : String
  pub permission : DbPermission
  pub created_at : ℕ

pub record DatabaseUserListItem : Type 0 where
  pub id : ℕ
  pub database_id : ℕ
  pub username : String
  pub permission : DbPermission
  pub created_at : ℕ

abbrev pub list_item : DatabaseUser → DatabaseUserListItem
list_item u = record {
  id = u.id;
  database_id = u.database_id;
  username = u.username;
  permission = u.permission;
  created_at = u.created_at;
}

abbrev not_found_user : AppError
not_found_user = AppError.not_found "Database user not found"

module _ {W : Type 0} where
  unfoldable pub list_database_users : AuthUser → ℕ → M W (List DatabaseUserListItem)
  list_database_users user id = do
    inst ← own_database user id
    users ← Accounts.find_database_users id
    pure (map list_item users)

  -- The user of the path, if it is one of the database of the path.
  unfoldable pub user_of_database : ℕ → ℕ → M W DatabaseUser
  user_of_database db_id user_id = do
    found ← Accounts.find_database_user_by_id user_id
    db_user ← or_throw found not_found_user
    throw_if (not (db_user.database_id == db_id)) not_found_user
    pure db_user

module _ {W : Type 0} (svc : Services W) (cfg : Config) where
  -- `decrypt_string(&inst.password_encrypted, …)?`
  unfoldable pub owner_password_of : DatabaseInstance → M W String
  owner_password_of inst =
      of_result (decrypt_string svc.primitives inst.password_encrypted cfg.encryption_key)

  abbrev pub add_account :
      DbType
      → Docker
      → String
      → DatabaseInstance
      → String
      → String
      → String
      → DbPermission
      → M W (Unit {0})
  add_account DbType.postgresql docker container_id inst owner_password username password
        permission =
      do
        db_name ←
            or_throw inst.database_name (AppError.internal "PG instance missing database_name")
        create_pg_user svc docker container_id inst.username db_name username password permission
  add_account DbType.redis docker container_id inst owner_password username password permission =
      create_redis_user svc docker container_id owner_password username password permission
  add_account DbType.mariadb docker container_id inst owner_password username password permission =
      do
        db_name ←
            or_throw inst.database_name (AppError.internal "MariaDB instance missing database_name")
        create_mariadb_user svc docker container_id owner_password db_name username password
            permission

  -- From the password on: the account in the database, then the row.
  abbrev pub open_account :
      ℕ → DatabaseInstance → Docker → String → String → DbPermission → M W DatabaseUserResponse
  open_account id inst docker container_id username permission = do
    password ← generate_random_string svc 32
    password_encrypted ← encrypt_string svc password cfg.encryption_key
    owner_password ← owner_password_of inst
    add_account inst.db_type docker container_id inst owner_password username password permission
    db_user ← Accounts.create_database_user svc id username password_encrypted permission
    pure (record {
      id = db_user.id;
      database_id = db_user.database_id;
      username = db_user.username;
      password = password;
      permission = db_user.permission;
      created_at = db_user.created_at;
    })

  unfoldable pub create_database_user :
      AuthUser → ℕ → String → DbPermission → M W DatabaseUserResponse
  create_database_user user id username permission = do
    throw_if (not (validate_username username)) (AppError.bad_request "username: Validation error")
    inst ← own_database user id
    throw_if (not (is_running inst.status))
        (AppError.bad_request "Database must be running to create users")
    container_id ← or_throw inst.container_id (AppError.bad_request "Container not provisioned")
    docker ← resolve_docker_for_instance svc inst
    open_account id inst docker container_id username permission

  abbrev pub drop_account :
      DbType → Docker → String → DatabaseInstance → String → String → M W (Unit {0})
  drop_account DbType.postgresql docker container_id inst owner_password username =
      remove_pg_user svc docker container_id inst.username (unwrap_or inst.database_name "postgres")
        username
  drop_account DbType.redis docker container_id inst owner_password username =
      remove_redis_user svc docker container_id owner_password username
  drop_account DbType.mariadb docker container_id inst owner_password username =
      remove_mariadb_user svc docker container_id owner_password username

  -- The account goes only from a database that runs, and a failure there is dropped.
  abbrev pub close_account : Bool → DatabaseInstance → DatabaseUser → M W (Unit {0})
  close_account true inst db_user = do
    owner_password ← owner_password_of inst
    docker ← resolve_docker_for_instance svc inst
    ignore (
        drop_account inst.db_type docker (unwrap_or inst.container_id "") inst owner_password
          db_user.username)
  close_account false inst db_user = pure tt

  unfoldable pub delete_database_user : AuthUser → ℕ → ℕ → M W (Unit {0})
  delete_database_user user db_id user_id = do
    inst ← own_database user db_id
    db_user ← user_of_database db_id user_id
    close_account (is_running inst.status) inst db_user
    Accounts.delete_database_user user_id

  abbrev pub rotate_account :
      DbType → Docker → String → DatabaseInstance → String → String → String → M W (Unit {0})
  rotate_account DbType.postgresql docker container_id inst owner_password username new_password =
      rotate_pg_password svc docker container_id inst.username
        (unwrap_or inst.database_name "postgres") username new_password
  rotate_account DbType.redis docker container_id inst owner_password username new_password =
      rotate_redis_password svc docker container_id owner_password username new_password
  rotate_account DbType.mariadb docker container_id inst owner_password username new_password =
      rotate_mariadb_password svc docker container_id owner_password username new_password

  unfoldable pub rotate_user_password : AuthUser → ℕ → ℕ → M W String
  rotate_user_password user db_id user_id = do
    inst ← own_database user db_id
    throw_if (not (is_running inst.status))
        (AppError.bad_request "Database must be running to rotate passwords")
    db_user ← user_of_database db_id user_id
    owner_password ← owner_password_of inst
    new_password ← generate_random_string svc 32
    docker ← resolve_docker_for_instance svc inst
    rotate_account inst.db_type docker (unwrap_or inst.container_id "") inst owner_password
        db_user.username new_password
    new_encrypted ← encrypt_string svc new_password cfg.encryption_key
    Accounts.update_database_user_password svc user_id new_encrypted
    pure new_password

  abbrev pub rotate_owner :
      DbType → Docker → String → DatabaseInstance → String → String → M W (Unit {0})
  rotate_owner DbType.postgresql docker container_id inst old_password new_password =
      rotate_pg_password svc docker container_id inst.username
        (unwrap_or inst.database_name "postgres") inst.username new_password
  rotate_owner DbType.redis docker container_id inst old_password new_password = do
    exec_in_container svc docker container_id
        (redis_cli old_password (("CONFIG SET requirepass " ++ new_password) ∷ []))
    exec_in_container svc docker container_id (redis_cli new_password ("CONFIG" ∷ "REWRITE" ∷ []))
    pure tt
  rotate_owner DbType.mariadb docker container_id inst old_password new_password =
      rotate_mariadb_password svc docker container_id old_password inst.username new_password

  -- `DatabaseRepository::update_owner_password`
  unfoldable pub update_owner_password : ℕ → String → M W (Unit {0})
  update_owner_password id password_encrypted = do
    t ← now_utc svc
    update_row id (λ d. record d { password_encrypted = password_encrypted; updated_at = t })

  unfoldable pub rotate_owner_password : AuthUser → ℕ → M W String
  rotate_owner_password user id = do
    inst ← own_database user id
    throw_if (not (is_running inst.status))
        (AppError.bad_request "Database must be running to rotate passwords")
    old_password ← owner_password_of inst
    new_password ← generate_random_string svc 32
    docker ← resolve_docker_for_instance svc inst
    rotate_owner inst.db_type docker (unwrap_or inst.container_id "") inst old_password new_password
    new_encrypted ← encrypt_string svc new_password cfg.encryption_key
    update_owner_password id new_encrypted
    pure new_password
