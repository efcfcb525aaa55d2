-- ===== src/Provisioner/Backups.antt =====
-- Backups and restores: api/src/services/provisioner.rs (lines 645 to 724 and 1239 to 1335).
use Prim.Native.String.{◌++◌}
use dbsaa_s.Prelude.{ℕ, Option, none, some, List, [], ◌∷◌, ◌++◌ as append, String}
use dbsaa_s.Errors.{Result, ok, err}
use dbsaa_s.Platform.{M, Call, Docker, Services, pure, throw, call, ignore, ◌>>=◌, ◌>>◌}
use dbsaa_s.Provisioner.Host.{sleep}
use dbsaa_s.Provisioner.Accounts.{exec_in_container, redis_cli}
use dbsaa_s.Provisioner.Containers.{restart_container}

-- What the crates and the file system give for files: streams of bytes from a container, tar archives, paths,
-- and how a time is written in a file name.
pub record Archives (W : Type 0) : Type 0 where
  pub download : Docker → String → String → W → List (Result (List ℕ)) × W
  -- the size and the content of the first entry, if there is one
  pub open_tar : List ℕ → Result (Option (ℕ × List ℕ))
  -- an archive of one file
  pub pack_tar : String → List ℕ → Result (List ℕ)
  pub upload : Docker → String → String → List ℕ → Call W (Unit {0})
  pub read_bytes : String → Call W (List ℕ)
  pub write_bytes : String → List ℕ → Call W (Unit {0})
  -- `Path::join`, `Path::parent`, `Path::file_name`
  pub join : String → String → String
  pub parent : String → String
  pub file_name : String → String
  -- `%Y%m%d_%H%M%S`
  pub stamp : ℕ → String

module _ {W : Type 0} where
  -- `while let Some(chunk) = stream.next().await { … chunk? … }`
  unfoldable pub gather : List (Result (List ℕ)) → M W (List ℕ)
  gather [] = pure []
  gather (ok chunk ∷ rest) = gather rest >>= λ more. pure (append chunk more)
  gather (err e ∷ rest) = throw e

  abbrev of_result : {A : Type 0} → Result A → M W A
  of_result r s = (r, s)

module _ {W : Type 0} (svc : Services W) (files : Archives W) where
  unfoldable pub download : Docker → String → String → M W (List (Result (List ℕ)))
  download docker container_id path s =
      let (chunks, w) = files.download docker container_id path s.world in
      (ok chunks, record s { world = w })

  -- An archive without entries writes no file, and its size is 0.
  abbrev pub extract : String → Option (ℕ × List ℕ) → M W ℕ
  extract dest none = pure 0
  extract dest (some (size, content)) = call (files.write_bytes dest content) >> pure size

  unfoldable pub copy_from_container : Docker → String → String → String → String → M W ℕ
  copy_from_container docker container_id src_path backup_dir filename = do
    chunks ← download docker container_id src_path
    call (svc.create_dir_all backup_dir)
    tar_data ← gather chunks
    entry ← of_result (files.open_tar tar_data)
    size ← extract (files.join backup_dir filename) entry
    ignore (exec_in_container svc docker container_id ("rm" ∷ "-f" ∷ src_path ∷ []))
    pure size

  unfoldable pub backup_postgres : Docker → String → String → String → String → String → M W ℕ
  backup_postgres docker container_id username db_name backup_dir filename = do
    let dump_path = "/tmp/" ++ filename
    exec_in_container svc docker container_id
        ("pg_dump" ∷ "-U" ∷ username ∷ "-d" ∷ db_name ∷ "-Fc" ∷ "-f" ∷ dump_path ∷ [])
    copy_from_container docker container_id dump_path backup_dir filename

  unfoldable pub backup_redis : Docker → String → String → String → String → M W ℕ
  backup_redis docker container_id password backup_dir filename = do
    exec_in_container svc docker container_id (redis_cli password ("BGSAVE" ∷ []))
    sleep svc 2
    copy_from_container docker container_id "/data/dump.rdb" backup_dir filename

  unfoldable pub backup_mariadb :
      Docker → String → String → String → String → String → String → M W ℕ
  backup_mariadb docker container_id username password db_name backup_dir filename = do
    let dump_path = "/tmp/" ++ filename
    exec_in_container svc docker container_id (
        "mariadb-dump"
        ∷ "-u"
        ∷ username
        ∷ ("-p" ++ password)
        ∷ "--single-transaction"
        ∷ "--routines"
        ∷ "--triggers"
        ∷ db_name
        ∷ "--result-file"
        ∷ dump_path
        ∷ [])
    copy_from_container docker container_id dump_path backup_dir filename

  unfoldable pub upload_file_to_container : Docker → String → String → String → M W (Unit {0})
  upload_file_to_container docker container_id host_path container_path = do
    content ← call (files.read_bytes host_path)
    tar_buf ← of_result (files.pack_tar (files.file_name container_path) content)
    call (files.upload docker container_id (files.parent container_path) tar_buf)

  unfoldable pub restore_postgres : Docker → String → String → String → String → M W (Unit {0})
  restore_postgres docker container_id username db_name backup_path = do
    upload_file_to_container docker container_id backup_path "/tmp/restore.dump"
    exec_in_container svc docker container_id (
        "pg_restore" ∷ "-U" ∷ username ∷ "-d" ∷ db_name ∷ "--clean" ∷ "--if-exists"
        ∷ "/tmp/restore.dump" ∷ [])
    pure tt

  unfoldable pub restore_mariadb :
      Docker → String → String → String → String → String → M W (Unit {0})
  restore_mariadb docker container_id username password db_name backup_path = do
    upload_file_to_container docker container_id backup_path "/tmp/restore.sql"
    exec_in_container svc docker container_id (
        "mariadb"
        ∷ ("-u" ++ username)
        ∷ ("-p" ++ password)
        ∷ db_name
        ∷ "-e"
        ∷ "source /tmp/restore.sql"
        ∷ [])
    pure tt

  unfoldable pub restore_redis : Docker → String → String → M W (Unit {0})
  restore_redis docker container_id backup_path = do
    upload_file_to_container docker container_id backup_path "/data/dump.rdb"
    restart_container svc docker container_id
