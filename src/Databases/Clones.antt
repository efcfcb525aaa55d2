-- ===== src/Databases/Clones.antt =====
-- A copy of a database from a backup: api/src/handlers/databases.rs (lines 2017 to 2179).
use dbsaa_s.Prelude.{ℕ, not, Option, none, some, [], ◌∷◌, String, ◌==◌, if◌then◌else◌}
use dbsaa_s.Prelude.Int.{pos, leb_ℤ}
use dbsaa_s.Models.{DatabaseInstance, DockerServer, DbType, DbStatus, DbEvent}
use dbsaa_s.Models.Records.{BackupRecord}
use dbsaa_s.Errors.{AppError, Result, ok, err}
use dbsaa_s.Platform.{
  M, Docker, Services, CertPair, pure, throw, throw_if, or_throw, call, ignore, attempt, send,
  new_uuid, ◌>>=◌, ◌>>◌,
}
use dbsaa_s.Config.{Config}
use dbsaa_s.Text.{concat}
use dbsaa_s.Subdomain.{generate_subdomain, subdomain_fqdn}
use dbsaa_s.Traefik.{generate_sni_config}
use dbsaa_s.Repository.Databases.{NewDatabase}
use dbsaa_s.Repository.Databases
use dbsaa_s.Repository.Servers
use dbsaa_s.Repository.Accounts.{find_backup_by_id}
use dbsaa_s.Repository.Billing.{record_usage_event}
use dbsaa_s.Provisioner.Host.{wait_for_healthy}
use dbsaa_s.Provisioner.Containers.{ProvisionResult, create_database_sni}
use dbsaa_s.Provisioner.Backups.{Archives, restore_postgres, restore_mariadb, restore_redis}
use dbsaa_s.Databases.Addresses.{compute_backend_address, unwrap_or}
use dbsaa_s.Databases.Resources.{allocate_port, generate_random_string, encrypt_string}
use dbsaa_s.Databases.Provisioning.{is_remote}
use dbsaa_s.Backups.{try_connect}

-- What the spawned task is given.
pub record Cloning : Type 0 where
  pub new_db_id : ℕ
  pub user_id : ℕ
  pub source : DatabaseInstance
  pub name : String
  pub password : String
  pub subdomain : String
  pub port : ℕ
  pub backup_path : String

-- A database of the user with this id; the claims of the token carry the id.
unfoldable pub source_of : {W : Type 0} → ℕ → ℕ → M W DatabaseInstance
source_of user_id db_id = do
  found ← Databases.find_by_id db_id
  source ← or_throw found (AppError.not_found "Source database not found")
  throw_if (not (source.user_id == user_id)) AppError.forbidden
  pure source

unfoldable pub backup_of_source : {W : Type 0} → ℕ → ℕ → M W BackupRecord
backup_of_source db_id backup_id = do
  found ← find_backup_by_id backup_id
  backup ← or_throw found (AppError.not_found "Backup not found")
  throw_if (not (backup.database_id == db_id))
      (AppError.bad_request "Backup does not belong to this database")
  pure backup

abbrev pub created : ℕ → ℕ → DbEvent
created user_id database_id = record {
  user_id = user_id;
  database_id = database_id;
  event_type = "created";
  status = some DbStatus.running;
}

module _ {W : Type 0} (svc : Services W) (cfg : Config) where
  -- `.map_err(|_| …)`
  abbrev or_encryption_failed : Result String → M W String
  or_encryption_failed (ok p) = pure p
  or_encryption_failed (err e) = throw (AppError.internal "Encryption failed")

  abbrev pub clone_row : ℕ → String → DatabaseInstance → ℕ → String → String → NewDatabase
  clone_row user_id name source port enc_password subdomain = record {
    user_id = user_id;
    name = name;
    db_type = source.db_type;
    host = cfg.platform_ip;
    port = port;
    username = source.username;
    password_encrypted = enc_password;
    database_name = source.database_name;
    cpu_limit = source.cpu_limit;
    memory_limit_mb = source.memory_limit_mb;
    bundle_id = none;
    tls_mode = source.tls_mode;
    plan_template_id = source.plan_template_id;
    docker_server_id = source.docker_server_id;
    subdomain = subdomain;
    routing_mode = "sni";
  }

  -- From the port on.
  abbrev pub insert_clone : ℕ → String → DatabaseInstance → BackupRecord → M W Cloning
  insert_clone user_id name source backup = do
    port ← allocate_port
    password ← generate_random_string svc 24
    encrypted ← attempt (encrypt_string svc password cfg.encryption_key)
    enc_password ← or_encryption_failed encrypted
    uuid ← new_uuid svc
    let subdomain = generate_subdomain svc.to_lowercase name (svc.show_uuid uuid)
    new_db ← Databases.create svc (clone_row user_id name source port enc_password subdomain)
    pure (record {
      new_db_id = new_db.id;
      user_id = user_id;
      source = source;
      name = name;
      password = password;
      subdomain = subdomain;
      port = port;
      backup_path = concat (cfg.backup_dir ∷ "/" ∷ backup.filename ∷ []);
    })

  unfoldable pub clone_database : ℕ → ℕ → ℕ → String → M W Cloning
  clone_database user_id db_id backup_id name = do
    source ← source_of user_id db_id
    backup ← backup_of_source db_id backup_id
    count ← Databases.count_by_user user_id
    throw_if (leb_ℤ cfg.max_databases_per_user (pos count))
        (AppError.bad_request "Maximum databases limit reached")
    insert_clone user_id name source backup

module _ {W : Type 0} (svc : Services W) (cfg : Config) (files : Archives W) where
  -- The server of the source, if it still has one.
  abbrev pub server_of : Option ℕ → M W (Option DockerServer)
  server_of none = pure none
  server_of (some server_id) = Servers.find_by_id server_id

  abbrev pub restore : Cloning → Docker → String → M W (Unit {0})
  restore t docker container_id = of_type t.source.db_type
    where
      of_type : DbType → M W (Unit {0})
      of_type DbType.postgresql =
          restore_postgres svc files docker container_id t.source.username
            (unwrap_or t.source.database_name t.name) t.backup_path
      of_type DbType.mariadb =
          restore_mariadb svc files docker container_id t.source.username t.password
            (unwrap_or t.source.database_name t.name) t.backup_path
      of_type DbType.redis = restore_redis svc files docker container_id t.backup_path

  unfoldable pub clone_failed : Cloning → M W (Unit {0})
  clone_failed t = ignore (Databases.update_status svc t.new_db_id DbStatus.error)

  -- Once the container has its certificate; a failure of any of these steps is dropped.
  abbrev pub clone_restored :
      Cloning → Option DockerServer → Docker → ProvisionResult → Result CertPair → M W (Unit {0})
  clone_restored t server docker result (err e) = clone_failed t
  clone_restored t server docker result (ok cert) = do
    ignore (
        generate_sni_config svc cfg (svc.show_uuid t.new_db_id) t.source.db_type
          (subdomain_fqdn t.subdomain cfg.platform_domain) cert.cert_pem cert.key_pem
          (compute_backend_address (svc.show_uuid t.new_db_id) t.source.db_type server
            result.exposed_port))
    ignore (
        Databases.update_provisioned svc t.new_db_id result.container_id result.network_id
          (some cert.cert_pem))
    ignore (wait_for_healthy svc docker result.container_id 60)
    ignore (restore t docker result.container_id)
    ignore (record_usage_event svc t.new_db_id "start" t.user_id t.name t.source.plan_template_id)
    send (created t.user_id t.new_db_id)

  abbrev pub clone_provisioned :
      Cloning → Option DockerServer → Docker → Result ProvisionResult → M W (Unit {0})
  clone_provisioned t server docker (err e) = clone_failed t
  clone_provisioned t server docker (ok result) = do
    cert ← attempt (call (svc.generate_cert (subdomain_fqdn t.subdomain cfg.platform_domain)))
    clone_restored t server docker result cert

  -- The spawned task. A container that is not local has its port published at 127.0.0.1.
  unfoldable pub provision_clone : Cloning → M W (Unit {0})
  provision_clone t = do
    server ← server_of t.source.docker_server_id
    docker ← try_connect svc server
    result ← attempt (
        create_database_sni svc docker t.new_db_id t.source.db_type t.source.username t.password
          (unwrap_or t.source.database_name t.name) t.source.cpu_limit t.source.memory_limit_mb
          (is_remote server) (if is_remote server then some t.port else none) none)
    clone_provisioned t server docker result
