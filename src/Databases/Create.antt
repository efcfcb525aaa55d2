-- ===== src/Databases/Create.antt =====
-- A new database: api/src/handlers/databases.rs (lines 95 to 372).
use Prim.Native.String.{◌++◌}
use dbsaa_s.Prelude.{ℕ, Bool, true, not, Option, none, some, String}
use dbsaa_s.Prelude.Int.{ℤ, pos, leb_ℤ}
use dbsaa_s.Models.{DatabaseInstance, DockerServer, DbType, DbStatus, AuthUser, F64}
use dbsaa_s.Errors.{AppError, Result, ok, err}
use dbsaa_s.Platform.{M, Services, pure, throw_if, attempt, new_uuid, ◌>>=◌, ◌>>◌}
use dbsaa_s.Config.{Config}
use dbsaa_s.Text.{show_i32}
use dbsaa_s.Subdomain.{generate_subdomain, subdomain_fqdn}
use dbsaa_s.Repository.Databases.{NewDatabase}
use dbsaa_s.Repository.Databases
use dbsaa_s.Databases.Addresses.{
  validate_db_name, build_connection_url_sni, standard_port_for_db_type,
}
use dbsaa_s.Databases.Resources.{
  allocate_port, resolve_plan, select_server, generate_random_string, encrypt_string,
  known_ssl_mode, db_name_for,
}
use dbsaa_s.Databases.Provisioning.{Provisioning, server_id_of}

pub record CreateDatabaseRequest : Type 0 where
  pub name : String
  pub db_type : DbType
  pub plan_template_id : Option ℕ
  pub cpu_limit : Option F64
  pub memory_limit_mb : Option ℤ
  pub ssl_mode : String
  pub server_id : Option ℕ

pub record DatabaseResponse : Type 0 where
  pub id : ℕ
  pub name : String
  pub db_type : DbType
  pub status : DbStatus
  pub host : String
  pub port : ℕ
  pub username : String
  pub password : String
  pub database_name : Option String
  pub connection_url : String
  pub tls_enabled : Bool
  pub ssl_mode : String
  pub cpu_limit : F64
  pub memory_limit_mb : ℤ
  pub bundle_id : Option ℕ
  pub plan_template_id : Option ℕ
  pub subdomain : Option String
  pub routing_mode : String
  pub created_at : ℕ

module _ {W : Type 0} (svc : Services W) (cfg : Config) where
  abbrev pub new_database :
      AuthUser
      → CreateDatabaseRequest
      → ℕ
      → String
      → String
      → F64 × ℤ × Option ℕ
      → Option DockerServer
      → String
      → NewDatabase
  new_database user req port username password_encrypted (cpu_limit, memory_limit_mb, plan_id)
        target subdomain =
      record {
        user_id = user.id;
        name = req.name;
        db_type = req.db_type;
        host = cfg.platform_domain;
        port = port;
        username = username;
        password_encrypted = password_encrypted;
        database_name = db_name_for req.db_type req.name;
        cpu_limit = cpu_limit;
        memory_limit_mb = memory_limit_mb;
        bundle_id = none;
        tls_mode = req.ssl_mode;
        plan_template_id = plan_id;
        docker_server_id = server_id_of target;
        subdomain = subdomain;
        routing_mode = "sni";
      }

  abbrev pub retry :
      (String → NewDatabase) → String → Result DatabaseInstance → M W DatabaseInstance
  retry new name (ok inst) = pure inst
  retry new name (err _) = do
    id ← new_uuid svc
    Databases.create svc (new (generate_subdomain svc.to_lowercase name (svc.show_uuid id)))

  -- The insert, and after a failure one more with another subdomain.
  unfoldable pub insert_database : (String → NewDatabase) → String → M W DatabaseInstance
  insert_database new name = do
    temp_id ← new_uuid svc
    first ← attempt (
        Databases.create svc
          (new (generate_subdomain svc.to_lowercase name (svc.show_uuid temp_id))))
    retry new name first

  abbrev pub response :
      CreateDatabaseRequest
      → DatabaseInstance
      → String
      → String
      → F64 × ℤ × Option ℕ
      → DatabaseResponse
  response req inst username password (cpu_limit, memory_limit_mb, plan_id) =
      let fqdn = subdomain_fqdn inst.subdomain cfg.platform_domain in
      record {
        id = inst.id;
        name = inst.name;
        db_type = inst.db_type;
        status = inst.status;
        host = fqdn;
        port = standard_port_for_db_type req.db_type;
        username = username;
        password = password;
        database_name = db_name_for req.db_type req.name;
        connection_url =
            build_connection_url_sni req.db_type username password fqdn
              (db_name_for req.db_type req.name) req.ssl_mode;
        tls_enabled = true;
        ssl_mode = req.ssl_mode;
        cpu_limit = cpu_limit;
        memory_limit_mb = memory_limit_mb;
        bundle_id = none;
        plan_template_id = plan_id;
        subdomain = some inst.subdomain;
        routing_mode = "sni";
        created_at = inst.created_at;
      }

  abbrev pub task :
      AuthUser
      → CreateDatabaseRequest
      → DatabaseInstance
      → ℕ
      → String
      → String
      → F64 × ℤ × Option ℕ
      → Option DockerServer
      → Provisioning
  task user req inst port username password (cpu_limit, memory_limit_mb, plan_id) target = record {
    db_id = inst.id;
    target_server = target;
    db_type = req.db_type;
    username = username;
    password = password;
    db_name = db_name_for req.db_type req.name;
    cpu_limit = cpu_limit;
    memory_limit_mb = memory_limit_mb;
    port = port;
    fqdn = subdomain_fqdn inst.subdomain cfg.platform_domain;
    user_id = user.id;
    name = req.name;
    plan_template_id = plan_id;
  }

  abbrev pub place :
      AuthUser
      → CreateDatabaseRequest
      → F64 × ℤ × Option ℕ
      → Option DockerServer
      → String
      → String
      → String
      → ℕ
      → M W (DatabaseResponse × Provisioning)
  place user req plan target username password password_encrypted port = do
    inst ←
        insert_database (new_database user req port username password_encrypted plan target)
          req.name
    pure (
      response req inst username password plan,
      task user req inst port username password plan target,
    )

  -- The port and the row.
  abbrev pub store :
      AuthUser
      → CreateDatabaseRequest
      → F64 × ℤ × Option ℕ
      → Option DockerServer
      → String
      → String
      → String
      → M W (DatabaseResponse × Provisioning)
  store user req plan target username password password_encrypted = do
    port ← allocate_port
    place user req plan target username password password_encrypted port

  -- The credentials.
  abbrev pub equip :
      AuthUser
      → CreateDatabaseRequest
      → F64 × ℤ × Option ℕ
      → Option DockerServer
      → M W (DatabaseResponse × Provisioning)
  equip user req plan target = do
    random ← generate_random_string svc 12
    password ← generate_random_string svc 32
    password_encrypted ← encrypt_string svc password cfg.encryption_key
    store user req plan target ("u_" ++ random) password password_encrypted

  -- The reply, and the task that is spawned with it.
  unfoldable pub create_database :
      AuthUser → CreateDatabaseRequest → M W (DatabaseResponse × Provisioning)
  create_database user req = do
    throw_if (not (validate_db_name req.name)) (AppError.bad_request "name: Validation error")
    throw_if (not (known_ssl_mode req.ssl_mode))
        (AppError.bad_request "ssl_mode must be 'require' or 'verify-ca'")
    count ← Databases.count_by_user user.id
    throw_if (leb_ℤ cfg.max_databases_per_user (pos count)) (
        AppError.bad_request
          ("Database limit reached (" ++ (show_i32 cfg.max_databases_per_user ++ ")")))
    plan ← resolve_plan req.plan_template_id req.cpu_limit req.memory_limit_mb
    target ← select_server 1 (AppError.bad_request "Selected server is at capacity") req.server_id
    equip user req plan target
