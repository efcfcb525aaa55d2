-- ===== src/Databases/Backups.antt =====
-- The endpoints on backups, their schedules, exports and favorites: api/src/handlers/databases.rs (lines 1355 to
-- 1475, 1703 to 1868 and 1955 to 1990).
use dbsaa_s.Prelude.{
  ℕ, Bool, true, not, Option, none, some, List, [], ◌∷◌, String, ◌==◌, ◌&&◌, ◌||◌, if◌then◌else◌,
}
use dbsaa_s.Prelude.Int.{ℤ, pos}
use dbsaa_s.Models.{DatabaseInstance, DbType, AuthUser, is_running}
use dbsaa_s.Models.Records.{BackupRecord, BackupSchedule}
use dbsaa_s.Errors.{AppError, Result, ok, err}
use dbsaa_s.Platform.{
  M, Docker, Services, pure, throw, throw_if, or_throw, call, ignore, attempt, now_utc, ◌>>=◌, ◌>>◌,
}
use dbsaa_s.Config.{Config}
use dbsaa_s.Crypto.{decrypt_string}
use dbsaa_s.Text.{concat, contains}
use dbsaa_s.Repository.Accounts
use dbsaa_s.Repository.Schedules
use dbsaa_s.Provisioner.Backups.{Archives, backup_postgres, backup_redis, backup_mariadb}
use dbsaa_s.Databases.Addresses.{all_chars, unwrap_or}
use dbsaa_s.Databases.Lifecycle.{own_database, resolve_docker_for_instance}
use dbsaa_s.Databases.Users.{owner_password_of}
use dbsaa_s.Backups.{dump}

-- `db_type_str`, and the extension of a backup.
abbrev pub db_type_str : DbType → String
db_type_str DbType.postgresql = "pg"
db_type_str DbType.redis = "redis"
db_type_str DbType.mariadb = "mariadb"

abbrev pub extension : DbType → String
extension DbType.postgresql = "dump"
extension DbType.redis = "rdb"
extension DbType.mariadb = "sql"

abbrev not_found_backup : AppError
not_found_backup = AppError.not_found "Backup not found"

abbrev pub or_else {ℓ} : {A : Type ℓ} → Option A → A → A
or_else none d = d
or_else (some v) d = v

module _ {W : Type 0} where
  unfoldable pub list_backups : AuthUser → ℕ → M W (List BackupRecord)
  list_backups user id = own_database user id >> Accounts.find_backups_by_database id

  -- The backup of the path, if it is one of the database of the path.
  unfoldable pub backup_of_database : ℕ → ℕ → M W BackupRecord
  backup_of_database db_id backup_id = do
    found ← Accounts.find_backup_by_id backup_id
    backup ← or_throw found not_found_backup
    throw_if (not (backup.database_id == db_id)) not_found_backup
    pure backup

  unfoldable pub get_backup_schedule : AuthUser → ℕ → M W (Option BackupSchedule)
  get_backup_schedule user id = own_database user id >> Schedules.find_by_database id

  unfoldable pub update_backup_schedule :
      AuthUser → ℕ → Option ℤ → Option ℤ → Option Bool → M W BackupSchedule
  update_backup_schedule user id interval_hours retention_count enabled =
      own_database user id >> Schedules.update_schedule id interval_hours retention_count enabled

  unfoldable pub delete_backup_schedule : AuthUser → ℕ → M W (Unit {0})
  delete_backup_schedule user id = own_database user id >> Schedules.delete_schedule id

  unfoldable pub add_favorite : AuthUser → ℕ → M W (Unit {0})
  add_favorite user id = own_database user id >> Schedules.add_favorite user.id id

  unfoldable pub remove_favorite : AuthUser → ℕ → M W (Unit {0})
  remove_favorite user id = Schedules.remove_favorite user.id id

  unfoldable pub list_favorites : AuthUser → M W (List ℕ)
  list_favorites user = Schedules.list_favorites user.id

-- The characters of a file name that may be downloaded.
abbrev pub file_char : (ℕ → Bool) → ℕ → Bool
file_char is_alphanumeric c = is_alphanumeric c || (c == b'.' || (c == b'_' || c == b'-'))

unfoldable pub validate_filename : (ℕ → Bool) → String → Bool
validate_filename is_alphanumeric filename =
    not (contains filename ".." || (contains filename "/" || contains filename "\\"))
    && all_chars (file_char is_alphanumeric) filename

module _ {W : Type 0} (svc : Services W) where
  unfoldable pub create_backup_schedule :
      AuthUser → ℕ → Option ℤ → Option ℤ → Option Bool → M W BackupSchedule
  create_backup_schedule user id interval_hours retention_count enabled =
      own_database user id
      >> Schedules.create_schedule svc id (or_else interval_hours (pos 24))
          (or_else retention_count (pos 7)) (or_else enabled true)

module _ {W : Type 0} (svc : Services W) (cfg : Config) (files : Archives W) where
  abbrev dump_backup : DatabaseInstance → Docker → String → String → String → M W ℕ
  dump_backup inst docker container_id owner_password filename = of_type inst.db_type
    where
      of_type : DbType → M W ℕ
      of_type DbType.postgresql =
          backup_postgres svc files docker container_id inst.username
            (unwrap_or inst.database_name "postgres") cfg.backup_dir filename
      of_type DbType.redis =
          backup_redis svc files docker container_id owner_password cfg.backup_dir filename
      of_type DbType.mariadb =
          backup_mariadb svc files docker container_id inst.username owner_password
            (unwrap_or inst.database_name "default") cfg.backup_dir filename

  unfoldable pub create_backup : AuthUser → ℕ → M W BackupRecord
  create_backup user id = do
    inst ← own_database user id
    throw_if (not (is_running inst.status))
        (AppError.bad_request "Database must be running to create backups")
    container_id ← or_throw inst.container_id (AppError.bad_request "Container not provisioned")
    docker ← resolve_docker_for_instance svc inst
    t ← now_utc svc
    let filename = concat (
        inst.name
        ∷ "_"
        ∷ db_type_str inst.db_type
        ∷ "_"
        ∷ files.stamp t
        ∷ "."
        ∷ extension inst.db_type
        ∷ [])
    owner_password ← owner_password_of svc cfg inst
    size ← dump_backup inst docker container_id owner_password filename
    Accounts.create_backup svc id filename size

  -- `path.starts_with(&backup_dir)` on paths is by their components: a parameter.
  unfoldable pub delete_backup :
      (String → String → Bool) → (String → String) → AuthUser → ℕ → ℕ → M W (Unit {0})
  delete_backup starts_with_path canonicalize user db_id backup_id = do
    inst ← own_database user db_id
    backup ← backup_of_database db_id backup_id
    let backup_dir = canonicalize cfg.backup_dir
    let path = files.join backup_dir backup.filename
    if starts_with_path path backup_dir then ignore (call (svc.remove_file path)) else pure tt
    Accounts.delete_backup backup_id

  abbrev or_decryption_failed : Result String → M W String
  or_decryption_failed (ok p) = pure p
  or_decryption_failed (err e) = throw (AppError.internal "Decryption failed")

  unfoldable pub export_database : AuthUser → ℕ → M W (String × ℕ)
  export_database user id = do
    inst ← own_database user id
    container_id ← or_throw inst.container_id (AppError.bad_request "Container not provisioned")
    docker ← resolve_docker_for_instance svc inst
    password ←
        or_decryption_failed
          (decrypt_string svc.primitives inst.password_encrypted cfg.encryption_key)
    t ← now_utc svc
    let filename = concat (inst.name ∷ "_" ∷ files.stamp t ∷ ".sql" ∷ [])
    size_bytes ← dump svc files inst docker container_id password cfg.backup_dir filename
    pure (filename, size_bytes)

  abbrev or_not_found : Result (List ℕ) → M W (List ℕ)
  or_not_found (ok bytes) = pure bytes
  or_not_found (err e) = throw (AppError.not_found "Export file not found")

  unfoldable pub download_export : AuthUser → ℕ → String → M W (List ℕ)
  download_export user id filename = do
    inst ← own_database user id
    throw_if (not (validate_filename svc.is_alphanumeric filename))
        (AppError.bad_request "Invalid filename")
    result ← attempt (call (files.read_bytes (concat (cfg.backup_dir ∷ "/" ∷ filename ∷ []))))
    or_not_found result
