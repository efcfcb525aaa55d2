-- ===== src/Databases/Provisioning.antt =====
-- The task that a new database is provisioned by: api/src/handlers/databases.rs (lines 227 to 331).
use dbsaa_s.Prelude.{ℕ, Bool, false, Option, none, some, String, if◌then◌else◌}
use dbsaa_s.Prelude.Int.{ℤ}
use dbsaa_s.Models.{DockerServer, DbType, DbStatus, DbEvent, F64}
use dbsaa_s.Errors.{Result, ok, err}
use dbsaa_s.Platform.{M, Services, CertPair, pure, call, ignore, attempt, send, ◌>>=◌, ◌>>◌}
use dbsaa_s.Config.{Config}
use dbsaa_s.Traefik.{generate_sni_config}
use dbsaa_s.Repository.Databases.{NewDatabase}
use dbsaa_s.Repository.Databases
use dbsaa_s.Repository.Billing.{record_usage_event}
use dbsaa_s.Provisioner.Host.{wait_for_healthy}
use dbsaa_s.Provisioner.Containers.{ProvisionResult, create_database_sni}
use dbsaa_s.Databases.Addresses.{
  unwrap_or, extract_server_ip, is_remote_server, compute_backend_address,
}
use dbsaa_s.Databases.Resources.{release_port, connect}

-- What the spawned task is given.
pub record Provisioning : Type 0 where
  pub db_id : ℕ
  pub target_server : Option DockerServer
  pub db_type : DbType
  pub username : String
  pub password : String
  pub db_name : Option String
  pub cpu_limit : F64
  pub memory_limit_mb : ℤ
  pub port : ℕ
  pub fqdn : String
  pub user_id : ℕ
  pub name : String
  pub plan_template_id : Option ℕ

abbrev pub server_id_of : Option DockerServer → Option ℕ
server_id_of none = none
server_id_of (some server) = some server.id

abbrev pub is_remote : Option DockerServer → Bool
is_remote none = false
is_remote (some server) = is_remote_server server.url

abbrev pub host_ip : Option DockerServer → Option String
host_ip none = none
host_ip (some server) = extract_server_ip server.url

abbrev pub status_changed : ℕ → ℕ → DbStatus → DbEvent
status_changed user_id database_id status = record {
  user_id = user_id;
  database_id = database_id;
  event_type = "status_changed";
  status = some status;
}

module _ {W : Type 0} (svc : Services W) (cfg : Config) where
  -- The part of the task that fails as a whole and changes no table: the container and the proxy.
  unfoldable pub provision_container : Provisioning → M W (ProvisionResult × CertPair)
  provision_container t = do
    target_docker ← connect svc t.target_server
    cert ← call (svc.generate_cert t.fqdn)
    result ←
        create_database_sni svc target_docker t.db_id t.db_type t.username t.password
          (unwrap_or t.db_name "default") t.cpu_limit t.memory_limit_mb (is_remote t.target_server)
          (if is_remote t.target_server then some t.port else none) (host_ip t.target_server)
    wait_for_healthy svc target_docker result.container_id 90
    generate_sni_config svc cfg (svc.show_uuid t.db_id) t.db_type t.fqdn cert.cert_pem cert.key_pem
        (compute_backend_address (svc.show_uuid t.db_id) t.db_type t.target_server
          result.exposed_port)
    pure (result, cert)

  abbrev pub provisioned : Provisioning → ProvisionResult × CertPair → M W (Unit {0})
  provisioned t (result, cert) = do
    Databases.update_provisioned svc t.db_id result.container_id result.network_id
        (some cert.cert_pem)
    ignore (record_usage_event svc t.db_id "start" t.user_id t.name t.plan_template_id)
    send (status_changed t.user_id t.db_id DbStatus.running)

  unfoldable pub provision : Provisioning → M W (Unit {0})
  provision t = provision_container t >>= provisioned t

  unfoldable pub failed : Provisioning → M W (Unit {0})
  failed t = do
    ignore (Databases.update_status svc t.db_id DbStatus.error)
    send (status_changed t.user_id t.db_id DbStatus.error)
    release_port t.port

  abbrev pub settle : Provisioning → Result (Unit {0}) → M W (Unit {0})
  settle t (ok _) = pure tt
  settle t (err _) = failed t

  -- The spawned task.
  unfoldable pub provision_database : Provisioning → M W (Unit {0})
  provision_database t = do result ← attempt (provision t); settle t result
