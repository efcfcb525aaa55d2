-- ===== src/Provisioner/Containers.antt =====
-- The containers of databases: api/src/services/provisioner.rs (lines 112 to 618 and 881 to 905), in SNI
-- mode.
use Prim.Native.String.{◌++◌}
use dbsaa_s.Prelude.{
  ℕ, Bool, true, false, not, Option, none, some, List, [], ◌∷◌, String, ◌*◌, ◌-◌, suc,
  if◌then◌else◌,
}
use dbsaa_s.Prelude.Int.{ℤ, pos, negsuc}
use dbsaa_s.Models.{DbType, F64}
use dbsaa_s.Errors.{AppError, Result, ok, err}
use dbsaa_s.Platform.{
  M, Docker, Services, ContainerCreateBody, HostConfig, HealthConfig, pure, throw, call, attempt,
  ignore, ◌>>=◌, ◌>>◌,
}
use dbsaa_s.Text.{show_i32}
use dbsaa_s.Provisioner.{create_network_with_opts}

-- `memory_limit_mb * 1024 * 1024` as an `i64`, from an `i32`.
abbrev pub bytes_of_mb : ℤ → ℤ
bytes_of_mb (pos n) = pos (n * 1048576)
bytes_of_mb (negsuc n) = negsuc (suc n * 1048576 - 1)

abbrev pub get_or_local : Option String → String
get_or_local none = "127.0.0.1"
get_or_local (some ip) = ip

-- `build_host_config` and `build_host_config_sni`: with a port that is published, and without.
unfoldable pub build_host_config :
    {W : Type 0} → Services W → String → Option (String × String × String) → F64 → ℤ → HostConfig
build_host_config svc network binding cpu_limit memory_limit_mb = record {
  network_mode = some network;
  userns_mode = none;
  auto_remove = none;
  cap_add = [];
  unless_stopped = true;
  nano_cpus = some (svc.nano_cpus_of cpu_limit);
  memory = some (bytes_of_mb memory_limit_mb);
  memory_swap = some (bytes_of_mb memory_limit_mb);
  security_opt = "no-new-privileges:true" ∷ [];
  port_bindings = binding;
}

abbrev check : String → ℕ → HealthConfig
check test start_period = record {
  test = "CMD-SHELL" ∷ test ∷ [];
  interval = 10000000000;
  timeout = 5000000000;
  retries = 3;
  start_period = start_period;
}

unfoldable pub healthcheck_for_db_type : DbType → String → HealthConfig
healthcheck_for_db_type DbType.postgresql password =
    check "pg_isready -U $POSTGRES_USER || exit 1" 15000000000
healthcheck_for_db_type DbType.redis password =
    check ("redis-cli -a " ++ password ++ " --no-auth-warning ping | grep PONG") 10000000000
healthcheck_for_db_type DbType.mariadb password =
    check "healthcheck --connect --innodb_initialized" 30000000000

unfoldable pub image_for_db_type : DbType → String × String
image_for_db_type DbType.postgresql = ("postgres", "17-alpine")
image_for_db_type DbType.redis = ("redis", "8-alpine")
image_for_db_type DbType.mariadb = ("mariadb", "11-noble")

-- The port that a container of this type publishes.
unfoldable pub port_internal : DbType → String
port_internal DbType.postgresql = "5432/tcp"
port_internal DbType.redis = "6379/tcp"
port_internal DbType.mariadb = "3306/tcp"

-- The body of the request for a container, in the six `create_*_container*` functions.
unfoldable pub database_body :
    DbType → String → String → String → ℤ → HostConfig → ContainerCreateBody
unfolding healthcheck_for_db_type
database_body DbType.postgresql username password db_name memory_limit_mb host_config = record {
  image = "postgres:17-alpine";
  cmd = none;
  env = some (
      ("POSTGRES_USER=" ++ username)
      ∷ ("POSTGRES_PASSWORD=" ++ password)
      ∷ ("POSTGRES_DB=" ++ db_name)
      ∷ []);
  host_config = host_config;
  healthcheck = some (healthcheck_for_db_type DbType.postgresql password);
}
database_body DbType.redis username password db_name memory_limit_mb host_config = record {
  image = "redis:8-alpine";
  cmd = some (
      "redis-server"
      ∷ "--requirepass"
      ∷ password
      ∷ "--appendonly"
      ∷ "yes"
      ∷ "--maxmemory"
      ∷ (show_i32 memory_limit_mb ++ "mb")
      ∷ "--maxmemory-policy"
      ∷ "allkeys-lru"
      ∷ []);
  env = some (("REDIS_PASSWORD=" ++ password) ∷ []);
  host_config = host_config;
  healthcheck = some (healthcheck_for_db_type DbType.redis password);
}
database_body DbType.mariadb username password db_name memory_limit_mb host_config = record {
  image = "mariadb:11-noble";
  cmd = none;
  env = some (
      ("MARIADB_USER=" ++ username)
      ∷ ("MARIADB_PASSWORD=" ++ password)
      ∷ ("MARIADB_DATABASE=" ++ db_name)
      ∷ ("MARIADB_ROOT_PASSWORD=" ++ password)
      ∷ "MARIADB_AUTO_UPGRADE=1"
      ∷ []);
  host_config = host_config;
  healthcheck = some (healthcheck_for_db_type DbType.mariadb password);
}

pub record ProvisionResult : Type 0 where
  pub container_id : String
  pub network_id : String
  pub exposed_port : Option ℕ

module _ {W : Type 0} (svc : Services W) where
  -- The first failure in the stream of a pull; its text is left out.
  unfoldable pub drain : String → List (Result (Unit {0})) → M W (Unit {0})
  drain full [] = pure tt
  drain full (ok _ ∷ results) = drain full results
  drain full (err e ∷ results) = throw (AppError.internal ("Failed to pull image " ++ full))

  unfoldable pub pull : Docker → String → String → M W (List (Result (Unit {0})))
  pull docker image tag s =
      let (results, w) = svc.create_image docker image tag s.world in
      (ok results, record s { world = w })

  abbrev pub pull_if_missing : Docker → String → String → Result (Unit {0}) → M W (Unit {0})
  pull_if_missing docker image tag (ok _) = pure tt
  pull_if_missing docker image tag (err _) = do
    results ← pull docker image tag
    drain (image ++ ":" ++ tag) results

  unfoldable pub ensure_image : Docker → String → String → M W (Unit {0})
  ensure_image docker image tag = do
    present ← attempt (call (svc.inspect_image docker (image ++ ":" ++ tag)))
    pull_if_missing docker image tag present

  abbrev pub proxy_id :
      Docker → Result (Option String × Option (List (Option String × Option String))) → M W String
  proxy_id docker (ok (some id, _)) = pure id
  proxy_id docker _ = call (svc.create_network docker "sb-proxy" none [])

  unfoldable pub ensure_proxy_network : Docker → M W String
  ensure_proxy_network docker = do
    info ← attempt (call (svc.inspect_network docker "sb-proxy"))
    proxy_id docker info

  unfoldable pub connect_to_proxy_network : Docker → String → String → M W (Unit {0})
  connect_to_proxy_network docker container_id proxy_network =
      call (svc.connect_network docker proxy_network container_id)

  -- `(true, Some(port)) = (is_remote, exposed_port)`: what a remote container publishes.
  abbrev pub binding : DbType → Bool → Option ℕ → Option String → Option (String × String × String)
  binding db_type true (some port) host_ip =
      some (port_internal db_type, get_or_local host_ip, show_i32 (pos port))
  binding db_type true none host_ip = none
  binding db_type false exposed_port host_ip = none

  unfoldable pub create_database_sni :
      Docker
      → ℕ
      → DbType
      → String
      → String
      → String
      → F64
      → ℤ
      → Bool
      → Option ℕ
      → Option String
      → M W ProvisionResult
  unfolding port_internal build_host_config image_for_db_type database_body
  create_database_sni docker db_id db_type username password db_name cpu_limit memory_limit_mb
        is_remote exposed_port host_ip =
      do
        let network_name = "sb-net-" ++ svc.show_uuid db_id
        let image = image_for_db_type db_type
        ensure_image docker image.0 image.1
        network_id ← create_network_with_opts svc docker network_name (not is_remote)
        container_id ← call (
            svc.create_container docker ("sb-" ++ svc.show_uuid db_id) (
              database_body db_type username password db_name memory_limit_mb (
                build_host_config svc network_name (binding db_type is_remote exposed_port host_ip)
                  cpu_limit memory_limit_mb)))
        call (svc.start_container docker container_id)
        if is_remote then pure tt else join_proxy container_id
        pure (record {
          container_id = container_id;
          network_id = network_id;
          exposed_port = exposed_port;
        })
    where
      join_proxy : String → M W (Unit {0})
      join_proxy container_id = do
        ensure_proxy_network docker
        connect_to_proxy_network docker container_id "sb-proxy"

  unfoldable pub start_container : Docker → String → M W (Unit {0})
  start_container docker container_id = call (svc.start_container docker container_id)

  unfoldable pub stop_container : Docker → String → M W (Unit {0})
  stop_container docker container_id = call (svc.stop_container docker container_id)

  unfoldable pub restart_container : Docker → String → M W (Unit {0})
  restart_container docker container_id = call (svc.restart_container docker container_id)

  unfoldable pub remove_container : Docker → String → String → M W (Unit {0})
  remove_container docker container_id network_id = do
    ignore (call (svc.stop_container docker container_id))
    call (svc.remove_container docker container_id)
    call (svc.remove_network docker network_id)

  unfoldable pub update_container_resources : Docker → String → F64 → ℤ → M W (Unit {0})
  update_container_resources docker container_id cpu_limit memory_limit_mb = call (
      svc.update_container docker container_id (svc.nano_cpus_of cpu_limit)
        (bytes_of_mb memory_limit_mb))
