-- ===== src/Admin/Routing.antt =====
-- The move of a database to SNI routing: api/src/handlers/admin.rs (`migrate_to_sni`).
use Prim.Native.String.{◌++◌}
use dbsaa_s.Prelude.{ℕ, Bool, false, not, Option, none, some, String, str_eq, ◌&&◌, if◌then◌else◌}
use dbsaa_s.Prelude.Int.{pos}
use dbsaa_s.Models.{DockerServer, DbType}
use dbsaa_s.Errors.{AppError}
use dbsaa_s.Config.{Config}
use dbsaa_s.Text.{starts_with, contains, before, find_from, show_i32}
use dbsaa_s.Subdomain.{subdomain_fqdn}
use dbsaa_s.Platform.{M, Services, pure, throw_if, or_throw, call, ◌>>=◌, ◌>>◌}
use dbsaa_s.Traefik.{generate_sni_config}
use dbsaa_s.Repository.Databases
use dbsaa_s.Repository.Servers
use dbsaa_s.Provisioner.Containers.{connect_to_proxy_network}
use dbsaa_s.Databases.Addresses.{unwrap_or, drop_3}
use dbsaa_s.Databases.Resources.{connect}

abbrev pub is_remote_url : String → Bool
is_remote_url url =
    not (str_eq url "local")
    && (not (starts_with url "unix://")
        && (not (contains url "localhost") && not (contains url "127.0.0.1")))

abbrev pub is_remote_target : Option DockerServer → Bool
is_remote_target none = false
is_remote_target (some s) = is_remote_url s.url

abbrev pub internal_port : DbType → ℕ
internal_port DbType.postgresql = 5432
internal_port DbType.redis = 6379
internal_port DbType.mariadb = 3306

abbrev pub after_scheme : Option String → String → String
after_scheme none url = url
after_scheme (some s) url = drop_3 s

abbrev pub host_of : String → String
host_of url = before b':' (after_scheme (find_from url "://") url)

-- `db_id` is the UUID as it is written.
unfoldable pub migrated_address : String → DbType → Option DockerServer → ℕ → String
migrated_address db_id db_type none port =
    "sb-" ++ (db_id ++ (":" ++ show_i32 (pos (internal_port db_type))))
migrated_address db_id db_type (some srv) port =
    if is_remote_url srv.url
    then host_of srv.url ++ (":" ++ show_i32 (pos port))
    else "sb-" ++ (db_id ++ (":" ++ show_i32 (pos (internal_port db_type))))

pub record Migrated : Type 0 where
  pub subdomain : String
  pub fqdn : String

module _ {W : Type 0} (svc : Services W) where
  abbrev pub target_of : Option ℕ → M W (Option DockerServer)
  target_of none = pure none
  target_of (some server_id) = do
    found ← Servers.find_by_id server_id
    server ← or_throw found (AppError.internal "Docker server not found for instance")
    pure (some server)

  unfoldable pub migrate_to_sni : Config → ℕ → M W Migrated
  migrate_to_sni cfg id = do
    found ← Databases.find_by_id id
    inst ← or_throw found (AppError.not_found "Database not found")
    throw_if (str_eq inst.routing_mode "sni")
        (AppError.bad_request "Database is already using SNI routing")
    container_id ← or_throw inst.container_id (AppError.bad_request "Container not provisioned yet")
    target_server ← target_of inst.docker_server_id
    target_docker ← connect svc target_server
    cert ← call (svc.generate_cert (subdomain_fqdn inst.subdomain cfg.platform_domain))
    if is_remote_target target_server
        then pure tt
        else connect_to_proxy_network svc target_docker container_id "sb-proxy"
    generate_sni_config svc cfg (svc.show_uuid id) inst.db_type
        (subdomain_fqdn inst.subdomain cfg.platform_domain) cert.cert_pem cert.key_pem
        (migrated_address (svc.show_uuid id) inst.db_type target_server inst.port)
    Databases.update_routing_mode svc id "sni"
    Databases.update_provisioned svc id container_id (unwrap_or inst.network_id "")
        (some cert.cert_pem)
    pure (record {
      subdomain = inst.subdomain;
      fqdn = subdomain_fqdn inst.subdomain cfg.platform_domain;
    })
