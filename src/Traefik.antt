-- ===== src/Traefik.antt =====
-- The proxy's configuration files: api/src/services/traefik.rs (lines 88 to 162).
use Prim.Native.String.{◌++◌}
use dbsaa_s.Prelude.{Bool, String, [], ◌∷◌, if◌then◌else◌}
use dbsaa_s.Models.{DbType}
use dbsaa_s.Errors.{ok}
use dbsaa_s.Platform.{M, Services, pure, call, ignore, ◌>>=◌, ◌>>◌}
use dbsaa_s.Text.{concat}
use dbsaa_s.Config.{Config}

abbrev pub entrypoint : DbType → String
entrypoint DbType.postgresql = "postgres"
entrypoint DbType.redis = "redis"
entrypoint DbType.mariadb = "mariadb"

-- The router matches on the name that a client asks for (SNI) and ends TLS.
unfoldable pub sni_config : String → DbType → String → String → String
sni_config db_id db_type subdomain_fqdn backend_address = concat (
    "# Auto-generated SNI config for "
    ∷ db_id
    ∷ "\n\n[tcp.routers."
    ∷ db_id
    ∷ "]\n  rule = \"HostSNI(`"
    ∷ subdomain_fqdn
    ∷ "`)\"\n  entryPoints = [\""
    ∷ entrypoint db_type
    ∷ "\"]\n  service = \""
    ∷ db_id
    ∷ "\"\n  [tcp.routers."
    ∷ db_id
    ∷ ".tls]\n\n[tcp.services."
    ∷ db_id
    ∷ ".loadBalancer]\n  terminationDelay = 5000\n  [[tcp.services."
    ∷ db_id
    ∷ ".loadBalancer.servers]]\n    address = \""
    ∷ backend_address
    ∷ "\"\n\n[[tls.certificates]]\n  certFile = \"/etc/traefik/dynamic/certs/"
    ∷ db_id
    ∷ ".crt\"\n  keyFile = \"/etc/traefik/dynamic/certs/"
    ∷ db_id
    ∷ ".key\"\n"
    ∷ [])

module _ {W : Type 0} (svc : Services W) (cfg : Config) where
  abbrev certs_dir : String
  certs_dir = cfg.dynamic_dir ++ "/certs"

  unfoldable pub generate_sni_config :
      String → DbType → String → String → String → String → M W (Unit {0})
  unfolding sni_config
  generate_sni_config db_id db_type subdomain_fqdn cert_pem key_pem backend_address = do
    call (svc.create_dir_all cfg.dynamic_dir)
    call (
        svc.write_file (cfg.dynamic_dir ++ ("/" ++ (db_id ++ ".toml")))
          (sni_config db_id db_type subdomain_fqdn backend_address))
    call (svc.create_dir_all certs_dir)
    call (svc.write_file (certs_dir ++ ("/" ++ (db_id ++ ".crt"))) cert_pem)
    call (svc.write_file (certs_dir ++ ("/" ++ (db_id ++ ".key"))) key_pem)

  unfoldable pub file_exists : String → M W Bool
  file_exists path s =
      let (found, w) = svc.file_exists path s.world in (ok found, record s { world = w })

  unfoldable pub remove_config : String → M W (Unit {0})
  remove_config db_id = do
    found ← file_exists (cfg.dynamic_dir ++ ("/" ++ (db_id ++ ".toml")))
    if found
        then call (svc.remove_file (cfg.dynamic_dir ++ ("/" ++ (db_id ++ ".toml"))))
        else pure tt
    ignore (call (svc.remove_file (certs_dir ++ ("/" ++ (db_id ++ ".crt")))))
    ignore (call (svc.remove_file (certs_dir ++ ("/" ++ (db_id ++ ".key")))))
