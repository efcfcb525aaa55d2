-- ===== src/Backups.antt =====
-- The scheduled backups and their retention: api/src/services/backup.rs.
pub mod Retention
use Prim.Native.String.{◌++◌}
use dbsaa_s.Prelude.{ℕ, zero, suc, Option, none, some, List, [], ◌∷◌, String, length, if◌then◌else◌}
use dbsaa_s.Prelude.Int.{ℤ, pos, negsuc, leb_ℤ}
use dbsaa_s.Models.{DatabaseInstance, DockerServer, DbType}
use dbsaa_s.Models.Records.{BackupRecord, BackupSchedule}
use dbsaa_s.Errors.{Result, ok, err}
use dbsaa_s.Platform.{
  M, Docker, Services, pure, call, ignore, attempt, for_each, now_utc, ◌>>=◌, ◌>>◌,
}
use dbsaa_s.Text.{concat}
use dbsaa_s.Crypto.{decrypt_string}
use dbsaa_s.Repository.Databases
use dbsaa_s.Repository.Servers
use dbsaa_s.Repository.Accounts.{create_backup, delete_backup, find_backups_by_database}
use dbsaa_s.Repository.Schedules.{find_due_schedules, update_last_run}
use dbsaa_s.Provisioner.{connect_to_server}
use dbsaa_s.Provisioner.Backups.{Archives, backup_postgres, backup_redis, backup_mariadb}

-- `.unwrap_or(&db_inst.name)`
abbrev pub db_name_of : DatabaseInstance → String
db_name_of inst = or_name inst.database_name
  where
    or_name : Option String → String
    or_name none = inst.name
    or_name (some n) = n

-- `.skip(retention_count as usize)`: a negative count is more than any list is long.
abbrev pub skip : {A : Type 0} → ℕ → List A → List A
skip zero xs = xs
skip (suc n) [] = []
skip (suc n) (x ∷ xs) = skip n xs

abbrev pub skip_i32 : {A : Type 0} → ℤ → List A → List A
skip_i32 (pos n) xs = skip n xs
skip_i32 (negsuc n) xs = []

module _ {W : Type 0} (svc : Services W) where
  -- The file, whose removal may fail, and the row.
  unfoldable pub drop_backup : String → BackupRecord → M W (Unit {0})
  drop_backup backup_dir backup = do
    ignore (call (svc.remove_file (concat (backup_dir ∷ "/" ∷ backup.filename ∷ []))))
    ignore (delete_backup backup.id)

  unfoldable pub cleanup_old_backups : ℕ → ℤ → String → M W (Unit {0})
  cleanup_old_backups database_id retention_count backup_dir = do
    backups ← find_backups_by_database database_id
    if leb_ℤ (pos (length backups)) retention_count
        then pure tt
        else for_each (skip_i32 retention_count backups) (drop_backup backup_dir)

  abbrev pub try_connect : Option DockerServer → M W Docker
  try_connect none = pure none
  try_connect (some server) = attempt (connect_to_server svc server) >>= λ r. pure (to_docker r)
    where
      to_docker : Result ℕ → Docker
      to_docker (ok d) = some d
      to_docker (err e) = none

  -- The daemon of the database's server, or the local one where there is none or it cannot be reached.
  abbrev pub reach : Option ℕ → M W Docker
  reach none = pure none
  reach (some server_id) = Servers.find_by_id server_id >>= try_connect

module _ {W : Type 0} (svc : Services W) (files : Archives W) where
  abbrev pub dump : DatabaseInstance → Docker → String → String → String → String → M W ℕ
  dump inst docker container_id password backup_dir filename = of_type inst.db_type
    where
      of_type : DbType → M W ℕ
      of_type DbType.postgresql =
          backup_postgres svc files docker container_id inst.username (db_name_of inst) backup_dir
            filename
      of_type DbType.mariadb =
          backup_mariadb svc files docker container_id inst.username password (db_name_of inst)
            backup_dir filename
      of_type DbType.redis = backup_redis svc files docker container_id password backup_dir filename

  abbrev record_dump :
      BackupSchedule → DatabaseInstance → String → String → Result ℕ → M W (Unit {0})
  record_dump schedule inst backup_dir filename (err e) = pure tt
  record_dump schedule inst backup_dir filename (ok size_bytes) = do
    ignore (create_backup svc inst.id filename size_bytes)
    ignore (update_last_run svc schedule.id)
    cleanup_old_backups svc inst.id schedule.retention_count backup_dir

  abbrev run_with :
      BackupSchedule → DatabaseInstance → String → String → Docker → Result String → M W (Unit {0})
  run_with schedule inst backup_dir container_id docker (err e) = pure tt
  run_with schedule inst backup_dir container_id docker (ok password) = do
    t ← now_utc svc
    let filename = concat (inst.name ∷ "_" ∷ files.stamp t ∷ ".sql" ∷ [])
    result ← attempt (dump inst docker container_id password backup_dir filename)
    record_dump schedule inst backup_dir filename result

  abbrev run_in :
      BackupSchedule → DatabaseInstance → String → String → Option String → M W (Unit {0})
  run_in schedule inst backup_dir encryption_key none = pure tt
  run_in schedule inst backup_dir encryption_key (some container_id) = do
    docker ← reach svc inst.docker_server_id
    run_with schedule inst backup_dir container_id docker
        (decrypt_string svc.primitives inst.password_encrypted encryption_key)

  abbrev run_for : BackupSchedule → String → String → Option DatabaseInstance → M W (Unit {0})
  run_for schedule backup_dir encryption_key none = pure tt
  run_for schedule backup_dir encryption_key (some inst) =
      run_in schedule inst backup_dir encryption_key inst.container_id

  -- One round of the loop.
  unfoldable pub run_schedule : String → String → BackupSchedule → M W (Unit {0})
  run_schedule backup_dir encryption_key schedule =
      Databases.find_by_id schedule.database_id >>= run_for schedule backup_dir encryption_key

  unfoldable pub run_scheduled_backups : String → String → M W (Unit {0})
  run_scheduled_backups backup_dir encryption_key =
      find_due_schedules svc >>= λ due. for_each due (run_schedule backup_dir encryption_key)
