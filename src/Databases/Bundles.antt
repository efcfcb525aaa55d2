-- ===== src/Databases/Bundles.antt =====
-- A bundle of a PostgreSQL and a Redis database: api/src/handlers/databases.rs (lines 374 to 739).
use Prim.Native.String.{◌++◌}
use dbsaa_s.Prelude.{ℕ, ◌+◌, true, not, Option, none, some, String}
use dbsaa_s.Prelude.Int.{ℤ, pos, leb_ℤ}
use dbsaa_s.Models.{DatabaseInstance, Bundle, DockerServer, DbType, DbStatus, AuthUser, F64}
use dbsaa_s.Errors.{AppError, Result, ok, err}
use dbsaa_s.Platform.{M, Services, pure, throw, throw_if, attempt, new_uuid, ◌>>=◌, ◌>>◌}
use dbsaa_s.Config.{Config}
use dbsaa_s.Text.{show_i32}
use dbsaa_s.Subdomain.{generate_subdomain, subdomain_fqdn}
use dbsaa_s.Repository.Databases.{NewDatabase}
use dbsaa_s.Repository.Databases
use dbsaa_s.Databases.Addresses.{
  validate_db_name, build_connection_url_sni, standard_port_for_db_type,
}
use dbsaa_s.Databases.Resources.{
  allocate_port, release_port, resolve_plan, select_server, generate_random_string, encrypt_string,
  known_ssl_mode,
}
use dbsaa_s.Databases.Provisioning.{Provisioning, server_id_of}
use dbsaa_s.Databases.Create.{DatabaseResponse}

pub record CreateBundleRequest : Type 0 where
  pub name : String
  pub plan_template_id : Option ℕ
  pub cpu_limit : Option F64
  pub memory_limit_mb : Option ℤ
  pub ssl_mode : String
  pub server_id : Option ℕ

pub record BundleResponse : Type 0 where
  pub id : ℕ
  pub name : String
  pub postgresql : DatabaseResponse
  pub redis : DatabaseResponse
  pub created_at : ℕ

-- What the spawned task is given.
pub record BundleTask : Type 0 where
  pub bundle_id : ℕ
  pub pg : Provisioning
  pub redis : Provisioning

-- One database of the bundle: what the request and the generator give it.
pub record Half : Type 0 where
  pub db_type : DbType
  pub name : String
  pub db_name : Option String
  pub username : String
  pub password : String
  pub password_encrypted : String
  pub port : ℕ

-- What both databases are given.
pub record Common : Type 0 where
  pub user_id : ℕ
  pub bundle : Bundle
  pub cpu_limit : F64
  pub memory_limit_mb : ℤ
  pub plan_template_id : Option ℕ
  pub target : Option DockerServer
  pub ssl_mode : String

module _ {W : Type 0} (svc : Services W) (cfg : Config) where
  abbrev pub half_row : Common → Half → String → NewDatabase
  half_row c h subdomain = record {
    user_id = c.user_id;
    name = h.name;
    db_type = h.db_type;
    host = cfg.platform_domain;
    port = h.port;
    username = h.username;
    password_encrypted = h.password_encrypted;
    database_name = h.db_name;
    cpu_limit = c.cpu_limit;
    memory_limit_mb = c.memory_limit_mb;
    bundle_id = some c.bundle.id;
    tls_mode = c.ssl_mode;
    plan_template_id = c.plan_template_id;
    docker_server_id = server_id_of c.target;
    subdomain = subdomain;
    routing_mode = "sni";
  }

  abbrev pub half_response : Common → Half → DatabaseInstance → DatabaseResponse
  half_response c h inst =
      let fqdn = subdomain_fqdn inst.subdomain cfg.platform_domain in
      record {
        id = inst.id;
        name = h.name;
        db_type = h.db_type;
        status = DbStatus.provisioning;
        host = fqdn;
        port = standard_port_for_db_type h.db_type;
        username = h.username;
        password = h.password;
        database_name = h.db_name;
        connection_url =
            build_connection_url_sni h.db_type h.username h.password fqdn h.db_name c.ssl_mode;
        tls_enabled = true;
        ssl_mode = c.ssl_mode;
        cpu_limit = c.cpu_limit;
        memory_limit_mb = c.memory_limit_mb;
        bundle_id = some c.bundle.id;
        plan_template_id = c.plan_template_id;
        subdomain = some inst.subdomain;
        routing_mode = "sni";
        created_at = inst.created_at;
      }

  abbrev pub half_task : Common → Half → DatabaseInstance → Provisioning
  half_task c h inst = record {
    db_id = inst.id;
    target_server = c.target;
    db_type = h.db_type;
    username = h.username;
    password = h.password;
    db_name = h.db_name;
    cpu_limit = c.cpu_limit;
    memory_limit_mb = c.memory_limit_mb;
    port = h.port;
    fqdn = subdomain_fqdn inst.subdomain cfg.platform_domain;
    user_id = c.user_id;
    name = h.name;
    plan_template_id = c.plan_template_id;
  }

  -- The two rows.
  abbrev pub bundle_rows : Common → Half → Half → String → M W (BundleResponse × BundleTask)
  bundle_rows c pg redis name = do
    pg_uuid ← new_uuid svc
    redis_uuid ← new_uuid svc
    pg_instance ←
        Databases.create svc
          (half_row c pg (generate_subdomain svc.to_lowercase pg.name (svc.show_uuid pg_uuid)))
    redis_instance ← Databases.create svc (
        half_row c redis
          (generate_subdomain svc.to_lowercase redis.name (svc.show_uuid redis_uuid)))
    pure (
      record {
        id = c.bundle.id;
        name = name;
        postgresql = half_response c pg pg_instance;
        redis = half_response c redis redis_instance;
        created_at = c.bundle.created_at;
      },
      record {
        bundle_id = c.bundle.id;
        pg = half_task c pg pg_instance;
        redis = half_task c redis redis_instance;
      },
    )

  -- Without a second port the first is given back.
  abbrev pub second_port : ℕ → Result ℕ → M W ℕ
  second_port pg_port (ok p) = pure p
  second_port pg_port (err e) = release_port pg_port >> throw e

  unfoldable pub allocate_second : ℕ → M W ℕ
  allocate_second pg_port = attempt allocate_port >>= second_port pg_port

  abbrev pub pg_half : String → String → String → String → ℕ → Half
  pg_half name username password encrypted port = record {
    db_type = DbType.postgresql;
    name = name ++ "-pg";
    db_name = some name;
    username = username;
    password = password;
    password_encrypted = encrypted;
    port = port;
  }

  abbrev pub redis_half : String → String → String → ℕ → Half
  redis_half name password encrypted port = record {
    db_type = DbType.redis;
    name = name ++ "-redis";
    db_name = none;
    username = "default";
    password = password;
    password_encrypted = encrypted;
    port = port;
  }

  -- The credentials of Redis and its port, then the rows.
  abbrev pub bundle_redis : Common → Half → String → M W (BundleResponse × BundleTask)
  bundle_redis c pg name = do
    redis_password ← generate_random_string svc 32
    redis_encrypted ← encrypt_string svc redis_password cfg.encryption_key
    redis_port ← allocate_second pg.port
    bundle_rows c pg (redis_half name redis_password redis_encrypted redis_port) name

  -- The credentials of PostgreSQL and its port.
  abbrev pub bundle_pg : Common → String → M W (BundleResponse × BundleTask)
  bundle_pg c name = do
    random ← generate_random_string svc 12
    pg_password ← generate_random_string svc 32
    pg_encrypted ← encrypt_string svc pg_password cfg.encryption_key
    pg_port ← allocate_port
    bundle_redis c (pg_half name ("u_" ++ random) pg_password pg_encrypted pg_port) name

  abbrev pub common_of :
      AuthUser → CreateBundleRequest → F64 × ℤ × Option ℕ → Option DockerServer → Bundle → Common
  common_of user req (cpu_limit, memory_limit_mb, plan_id) target bundle = record {
    user_id = user.id;
    bundle = bundle;
    cpu_limit = cpu_limit;
    memory_limit_mb = memory_limit_mb;
    plan_template_id = plan_id;
    target = target;
    ssl_mode = req.ssl_mode;
  }

  unfoldable pub create_bundle : AuthUser → CreateBundleRequest → M W (BundleResponse × BundleTask)
  create_bundle user req = do
    throw_if (not (validate_db_name req.name)) (AppError.bad_request "name: Validation error")
    throw_if (not (known_ssl_mode req.ssl_mode))
        (AppError.bad_request "ssl_mode must be 'require' or 'verify-ca'")
    count ← Databases.count_by_user user.id
    throw_if (not (leb_ℤ (pos (count + 2)) cfg.max_databases_per_user)) (
        AppError.bad_request (
          "Database limit reached ("
          ++ (show_i32 cfg.max_databases_per_user ++ "). Bundle requires 2 slots.")))
    plan ← resolve_plan req.plan_template_id req.cpu_limit req.memory_limit_mb
    target ←
        select_server 2
          (AppError.bad_request "Selected server doesn't have enough capacity for a bundle")
          req.server_id
    bundle ← Databases.create_bundle svc user.id req.name
    bundle_pg (common_of user req plan target bundle) req.name
