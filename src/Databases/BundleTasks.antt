-- ===== src/Databases/BundleTasks.antt =====
-- The task that provisions a bundle: api/src/handlers/databases.rs (lines 525 to 688).
use dbsaa_s.Prelude.{none, some, if◌then◌else◌}
use dbsaa_s.Models.{DbStatus}
use dbsaa_s.Errors.{Result, ok, err}
use dbsaa_s.Platform.{M, Docker, Services, CertPair, pure, call, ignore, attempt, send, ◌>>=◌, ◌>>◌}
use dbsaa_s.Config.{Config}
use dbsaa_s.Traefik.{generate_sni_config}
use dbsaa_s.Repository.Databases
use dbsaa_s.Repository.Billing.{record_usage_event}
use dbsaa_s.Provisioner.Host.{wait_for_healthy}
use dbsaa_s.Provisioner.Containers.{ProvisionResult, create_database_sni}
use dbsaa_s.Databases.Addresses.{compute_backend_address, unwrap_or}
use dbsaa_s.Databases.Resources.{release_port, connect}
use dbsaa_s.Databases.Provisioning.{Provisioning, is_remote, host_ip, status_changed}
use dbsaa_s.Databases.Bundles.{BundleTask}

module _ {W : Type 0} (svc : Services W) (cfg : Config) where
  -- The container of one of the two.
  unfoldable pub start_half : Docker → Provisioning → M W ProvisionResult
  start_half docker t =
      create_database_sni svc docker t.db_id t.db_type t.username t.password
        (unwrap_or t.db_name "default") t.cpu_limit t.memory_limit_mb (is_remote t.target_server)
        (if is_remote t.target_server then some t.port else none) (host_ip t.target_server)

  unfoldable pub configure_half : Provisioning → CertPair → ProvisionResult → M W (Unit {0})
  configure_half t cert result =
      generate_sni_config svc cfg (svc.show_uuid t.db_id) t.db_type t.fqdn cert.cert_pem
        cert.key_pem
        (compute_backend_address (svc.show_uuid t.db_id) t.db_type t.target_server
          result.exposed_port)

  -- The containers, up to both being healthy: no table is changed.
  unfoldable pub start_both :
      BundleTask → M W ((ProvisionResult × CertPair) × (ProvisionResult × CertPair))
  start_both t = do
    docker ← connect svc t.pg.target_server
    pg_cert ← call (svc.generate_cert t.pg.fqdn)
    redis_cert ← call (svc.generate_cert t.redis.fqdn)
    pg_result ← start_half docker t.pg
    redis_result ← start_half docker t.redis
    wait_for_healthy svc docker pg_result.container_id 90
    wait_for_healthy svc docker redis_result.container_id 90
    pure ((pg_result, pg_cert), (redis_result, redis_cert))

  unfoldable pub half_provisioned : Provisioning → ProvisionResult × CertPair → M W (Unit {0})
  half_provisioned t (result, cert) =
      Databases.update_provisioned svc t.db_id result.container_id result.network_id
        (some cert.cert_pem)

  abbrev pub bill_half : Provisioning → M W (Unit {0})
  bill_half t = ignore (record_usage_event svc t.db_id "start" t.user_id t.name t.plan_template_id)

  abbrev pub announce : Provisioning → DbStatus → M W (Unit {0})
  announce t status = send (status_changed t.user_id t.db_id status)

  -- The network of PostgreSQL stands for the bundle's.
  abbrev pub record_both :
      BundleTask → (ProvisionResult × CertPair) × (ProvisionResult × CertPair) → M W (Unit {0})
  record_both t (pg, redis) = do
    Databases.update_bundle_network t.bundle_id pg.0.network_id
    configure_half t.pg pg.1 pg.0
    configure_half t.redis redis.1 redis.0
    half_provisioned t.pg pg
    half_provisioned t.redis redis
    bill_half t.pg
    bill_half t.redis
    announce t.pg DbStatus.running
    announce t.redis DbStatus.running

  unfoldable pub bundle_failed : BundleTask → M W (Unit {0})
  bundle_failed t = do
    ignore (Databases.update_status svc t.pg.db_id DbStatus.error)
    ignore (Databases.update_status svc t.redis.db_id DbStatus.error)
    announce t.pg DbStatus.error
    announce t.redis DbStatus.error
    release_port t.pg.port
    release_port t.redis.port

  abbrev pub settle_bundle : BundleTask → Result (Unit {0}) → M W (Unit {0})
  settle_bundle t (ok _) = pure tt
  settle_bundle t (err _) = bundle_failed t

  -- The spawned task.
  unfoldable pub provision_bundle : BundleTask → M W (Unit {0})
  provision_bundle t = do result ← attempt (start_both t >>= record_both t); settle_bundle t result
