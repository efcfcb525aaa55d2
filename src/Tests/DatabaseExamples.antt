-- ===== src/Tests/DatabaseExamples.antt =====
-- Examples for the endpoints and tasks on databases.
use dbsaa_s.Prelude.{ℕ, ◌≡◌, refl, arith, none, some, true, String}
use dbsaa_s.Prelude.Int.{pos}
use dbsaa_s.Models.{DbType, DbStatus, ContainerAction}
use dbsaa_s.Errors.{AppError, Result, ok, err}
use dbsaa_s.Platform.{State, run, new_uuid, now_utc}
use dbsaa_s.Ports.{allocate, scan}
use dbsaa_s.Crypto.{cipher_of, encrypt_with, hex_decode, hex_bytes}
use dbsaa_s.Subdomain.{generate_subdomain, subdomain_fqdn}
use dbsaa_s.Repository.Databases
use dbsaa_s.Repository.Servers
use dbsaa_s.Databases.Addresses.{
  validate_db_name, build_connection_url_sni, standard_port_for_db_type,
}
use dbsaa_s.Databases.Resources.{
  resolve_plan, select_server, generate_random_string, random_index, encrypt_string, fill_nonce,
  allocate_port,
}
use dbsaa_s.Databases.Provisioning.{Provisioning}
use dbsaa_s.Databases.Lifecycle.{
  container_action, delete_database, scale_database, rename_database, clean_up,
}
use dbsaa_s.Databases.Create.{
  CreateDatabaseRequest, DatabaseResponse, create_database, insert_database,
}
use dbsaa_s.Databases.Actions.{Outcome, container_action-outcomes, database-forbidden}
use dbsaa_s.Databases.Removal.{IsRemoved, clean_up-IsRemoved}
use dbsaa_s.Databases.Quota.{IsCreated, create_database-IsCreated}
use dbsaa_s.Tests.Fixtures.{svc, cfg, alice, bob, empty, sales}

abbrev orders : CreateDatabaseRequest
orders = record {
  name = "orders";
  db_type = DbType.redis;
  plan_template_id = none;
  cpu_limit = none;
  memory_limit_mb = none;
  ssl_mode = "require";
  server_id = none;
}

abbrev outcome : Result (DatabaseResponse × Provisioning) × State ℕ
outcome = create_database svc cfg alice orders empty

abbrev reply : DatabaseResponse
reply = record {
  id = 146;
  name = "orders";
  db_type = DbType.redis;
  status = DbStatus.provisioning;
  host = "orders-00000000.db.example.com";
  port = 6379;
  username = "u_CDEFGHIJKLMN";
  password = "OPQRSTUVWXYZ0123456789abcdefghij";
  database_name = none;
  connection_url = "rediss://:OPQRSTUVWXYZ0123456789abcdefghij@orders-00000000.db.example.com:6379";
  tls_enabled = true;
  ssl_mode = "require";
  cpu_limit = 4602678819172646912;
  memory_limit_mb = pos 256;
  bundle_id = none;
  plan_template_id = none;
  subdomain = some "orders-00000000.db";
  routing_mode = "sni";
  created_at = 147;
}

abbrev work : Provisioning
work = record {
  db_id = 146;
  target_server = none;
  db_type = DbType.redis;
  username = "u_CDEFGHIJKLMN";
  password = "OPQRSTUVWXYZ0123456789abcdefghij";
  db_name = none;
  cpu_limit = 4602678819172646912;
  memory_limit_mb = pos 256;
  port = 10001;
  fqdn = "orders-00000000.db.example.com";
  user_id = 7;
  name = "orders";
  plan_template_id = none;
}

created : create_database svc cfg alice orders empty ≡ (ok (reply, work), outcome.1)
unfolding create_database run Databases.count_by_user Databases.create resolve_plan select_server
    Servers.select_best_client_server generate_random_string random_index encrypt_string fill_nonce
    encrypt_with hex_decode hex_bytes allocate_port allocate scan insert_database generate_subdomain
    cipher_of subdomain_fqdn validate_db_name build_connection_url_sni standard_port_for_db_type
    new_uuid now_utc
created = refl

create_database-IsCreated_example : IsCreated cfg alice empty outcome.1 work
create_database-IsCreated_example = create_database-IsCreated svc cfg alice orders empty created

container_action-outcomes_example :
    Outcome svc alice 50 empty ContainerAction.stop
      (container_action svc alice 50 ContainerAction.stop empty)
container_action-outcomes_example =
    container_action-outcomes svc alice 50 empty ContainerAction.stop

database-forbidden_example :
    ((action : ContainerAction)
      → container_action svc bob 50 action empty ≡ (err AppError.forbidden, empty))
    × (delete_database svc bob 50 empty ≡ (err AppError.forbidden, empty))
    × ((plan : ℕ) → scale_database svc bob 50 plan empty ≡ (err AppError.forbidden, empty))
    × ((name : String) → rename_database svc bob 50 name empty ≡ (err AppError.forbidden, empty))
database-forbidden_example = database-forbidden svc bob 50 empty refl (omega arith)

clean_up-IsRemoved_example : IsRemoved svc cfg sales none empty (clean_up svc cfg sales none empty)
clean_up-IsRemoved_example = clean_up-IsRemoved svc cfg sales none empty
