-- ===== src/Provisioner/Sql.antt =====
-- The SQL that is run inside the databases: api/src/services/provisioner.rs (lines 726 to 877).
pub mod Reading
pub mod Statements
use dbsaa_s.Prelude.{String, List, [], ◌∷◌}
use dbsaa_s.Text.{concat, replace}
use dbsaa_s.Models.Access.{DbPermission}

unfoldable pub escape_sql_literal : String → String
escape_sql_literal s = replace b'\'' "''" s

unfoldable pub escape_sql_identifier : String → String
escape_sql_identifier s = replace b'"' "\"\"" s

-- `CREATE ROLE`
unfoldable pub create_role_parts : String → String → List String
create_role_parts username password =
    ("CREATE ROLE \""
      ∷ escape_sql_identifier username
      ∷ "\" WITH LOGIN PASSWORD '"
      ∷ escape_sql_literal password
      ∷ "';"
      ∷ [])

unfoldable pub create_role_sql : String → String → String
unfolding create_role_parts
create_role_sql username password = concat (create_role_parts username password)

unfoldable pub pg_grant_parts : DbPermission → String → String → List String
pg_grant_parts DbPermission.admin db_name username =
    let esc_db = escape_sql_identifier db_name in
    let esc_user = escape_sql_identifier username in
    ("GRANT ALL PRIVILEGES ON DATABASE \"" ∷ esc_db ∷ "\" TO \"" ∷ esc_user
      ∷ "\"; GRANT ALL PRIVILEGES ON ALL TABLES IN SCHEMA public TO \"" ∷ esc_user
      ∷ "\"; GRANT ALL PRIVILEGES ON ALL SEQUENCES IN SCHEMA public TO \"" ∷ esc_user
      ∷ "\"; ALTER DEFAULT PRIVILEGES IN SCHEMA public GRANT ALL PRIVILEGES ON TABLES TO \""
      ∷ esc_user
      ∷ "\"; ALTER DEFAULT PRIVILEGES IN SCHEMA public GRANT ALL PRIVILEGES ON SEQUENCES TO \""
      ∷ esc_user ∷ "\";" ∷ [])
pg_grant_parts DbPermission.read_write db_name username =
    let esc_db = escape_sql_identifier db_name in
    let esc_user = escape_sql_identifier username in
    ("GRANT CONNECT ON DATABASE \"" ∷ esc_db ∷ "\" TO \"" ∷ esc_user
      ∷ "\"; GRANT USAGE ON SCHEMA public TO \"" ∷ esc_user
      ∷ "\"; GRANT SELECT, INSERT, UPDATE, DELETE ON ALL TABLES IN SCHEMA public TO \"" ∷ esc_user
      ∷ "\"; GRANT USAGE, SELECT ON ALL SEQUENCES IN SCHEMA public TO \"" ∷ esc_user
      ∷ "\"; ALTER DEFAULT PRIVILEGES IN SCHEMA public GRANT SELECT, INSERT, UPDATE, DELETE ON TABLES TO \""
      ∷ esc_user
      ∷ "\"; ALTER DEFAULT PRIVILEGES IN SCHEMA public GRANT USAGE, SELECT ON SEQUENCES TO \""
      ∷ esc_user ∷ "\";" ∷ [])
pg_grant_parts DbPermission.read_only db_name username =
    let esc_db = escape_sql_identifier db_name in
    let esc_user = escape_sql_identifier username in
    ("GRANT CONNECT ON DATABASE \"" ∷ esc_db ∷ "\" TO \"" ∷ esc_user
      ∷ "\"; GRANT USAGE ON SCHEMA public TO \"" ∷ esc_user
      ∷ "\"; GRANT SELECT ON ALL TABLES IN SCHEMA public TO \"" ∷ esc_user
      ∷ "\"; ALTER DEFAULT PRIVILEGES IN SCHEMA public GRANT SELECT ON TABLES TO \"" ∷ esc_user
      ∷ "\";" ∷ [])

unfoldable pub pg_grant_sql : DbPermission → String → String → String
unfolding pg_grant_parts
pg_grant_sql permission db_name username = concat (pg_grant_parts permission db_name username)

unfoldable pub drop_role_parts : String → String → List String
drop_role_parts db_name username =
    let esc_user = escape_sql_identifier username in
    ("REVOKE ALL PRIVILEGES ON ALL TABLES IN SCHEMA public FROM \""
      ∷ esc_user
      ∷ "\"; REVOKE ALL PRIVILEGES ON ALL SEQUENCES IN SCHEMA public FROM \""
      ∷ esc_user
      ∷ "\"; REVOKE ALL PRIVILEGES ON DATABASE \""
      ∷ escape_sql_identifier db_name
      ∷ "\" FROM \""
      ∷ esc_user
      ∷ "\"; REVOKE USAGE ON SCHEMA public FROM \""
      ∷ esc_user
      ∷ "\"; DROP ROLE IF EXISTS \""
      ∷ esc_user
      ∷ "\";"
      ∷ [])

unfoldable pub drop_role_sql : String → String → String
unfolding drop_role_parts
drop_role_sql db_name username = concat (drop_role_parts db_name username)

unfoldable pub alter_role_parts : String → String → List String
alter_role_parts username new_password =
    ("ALTER ROLE \""
      ∷ escape_sql_identifier username
      ∷ "\" WITH PASSWORD '"
      ∷ escape_sql_literal new_password
      ∷ "';"
      ∷ [])

unfoldable pub alter_role_sql : String → String → String
unfolding alter_role_parts
alter_role_sql username new_password = concat (alter_role_parts username new_password)

-- MariaDB
unfoldable pub create_user_sql : String → String → String
create_user_sql username password = concat (
    "CREATE USER '"
    ∷ escape_sql_literal username
    ∷ "'@'%' IDENTIFIED BY '"
    ∷ escape_sql_literal password
    ∷ "';"
    ∷ [])

unfoldable pub mariadb_grant_sql : DbPermission → String → String → String
mariadb_grant_sql DbPermission.admin db_name username = concat (
    "GRANT ALL PRIVILEGES ON `"
    ∷ escape_sql_literal db_name
    ∷ "`.* TO '"
    ∷ escape_sql_literal username
    ∷ "'@'%' WITH GRANT OPTION;"
    ∷ [])
mariadb_grant_sql DbPermission.read_write db_name username = concat (
    "GRANT SELECT, INSERT, UPDATE, DELETE, CREATE, ALTER, INDEX, DROP ON `"
    ∷ escape_sql_literal db_name
    ∷ "`.* TO '"
    ∷ escape_sql_literal username
    ∷ "'@'%';"
    ∷ [])
mariadb_grant_sql DbPermission.read_only db_name username = concat (
    "GRANT SELECT ON `"
    ∷ escape_sql_literal db_name
    ∷ "`.* TO '"
    ∷ escape_sql_literal username
    ∷ "'@'%';"
    ∷ [])

unfoldable pub drop_user_sql : String → String
drop_user_sql username =
    concat ("DROP USER IF EXISTS '" ∷ escape_sql_literal username ∷ "'@'%';" ∷ [])

unfoldable pub alter_user_sql : String → String → String
alter_user_sql username new_password = concat (
    "ALTER USER '"
    ∷ escape_sql_literal username
    ∷ "'@'%' IDENTIFIED BY '"
    ∷ escape_sql_literal new_password
    ∷ "'; FLUSH PRIVILEGES;"
    ∷ [])
