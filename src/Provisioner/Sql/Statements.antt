-- ===== src/Provisioner/Sql/Statements.antt =====
-- No name and no password changes what a statement means: api/src/services/provisioner.rs (lines 738 to 797).
use dbsaa_s.Prelude.{refl, ◌∙◌, ap, String}
use dbsaa_s.Text.Laws.{codes-concat}
use dbsaa_s.Models.Access.{DbPermission}
use dbsaa_s.Provisioner.Sql.{
  escape_sql_literal, escape_sql_identifier, create_role_sql, alter_role_sql, drop_role_sql,
  pg_grant_sql, create_role_parts, alter_role_parts, drop_role_parts, pg_grant_parts,
}
use dbsaa_s.Provisioner.Sql.Reading.{
  Template, finish, hole, Quote, ReadsAs, read, bare, read-flat, flat, is_plain,
}

-- A value in double quotes after a text.
abbrev name : String → String → Template → Template
name text value rest = hole text Quote.double value rest

abbrev pub role_template : String → String → String → String → Template
role_template head between username password =
    name head username (hole between Quote.single password (finish ";"))

abbrev pub drop_template : String → String → Template
drop_template db user = name "REVOKE ALL PRIVILEGES ON ALL TABLES IN SCHEMA public FROM " user (
    name "; REVOKE ALL PRIVILEGES ON ALL SEQUENCES IN SCHEMA public FROM " user (
      name "; REVOKE ALL PRIVILEGES ON DATABASE " db (
        name " FROM " user (
          name "; REVOKE USAGE ON SCHEMA public FROM " user
            (name "; DROP ROLE IF EXISTS " user (finish ";"))))))

abbrev pub grant_template : DbPermission → String → String → Template
grant_template DbPermission.admin db user = name "GRANT ALL PRIVILEGES ON DATABASE " db (
    name " TO " user (
      name "; GRANT ALL PRIVILEGES ON ALL TABLES IN SCHEMA public TO " user (
        name "; GRANT ALL PRIVILEGES ON ALL SEQUENCES IN SCHEMA public TO " user (
          name "; ALTER DEFAULT PRIVILEGES IN SCHEMA public GRANT ALL PRIVILEGES ON TABLES TO " user
            (name
              "; ALTER DEFAULT PRIVILEGES IN SCHEMA public GRANT ALL PRIVILEGES ON SEQUENCES TO "
              user (finish ";"))))))
grant_template DbPermission.read_write db user = name "GRANT CONNECT ON DATABASE " db (
    name " TO " user (
      name "; GRANT USAGE ON SCHEMA public TO " user (
        name "; GRANT SELECT, INSERT, UPDATE, DELETE ON ALL TABLES IN SCHEMA public TO " user (
          name "; GRANT USAGE, SELECT ON ALL SEQUENCES IN SCHEMA public TO " user (
            name
              "; ALTER DEFAULT PRIVILEGES IN SCHEMA public GRANT SELECT, INSERT, UPDATE, DELETE ON TABLES TO "
              user
              (name
                "; ALTER DEFAULT PRIVILEGES IN SCHEMA public GRANT USAGE, SELECT ON SEQUENCES TO "
                user (finish ";")))))))
grant_template DbPermission.read_only db user = name "GRANT CONNECT ON DATABASE " db (
    name " TO " user (
      name "; GRANT USAGE ON SCHEMA public TO " user (
        name "; GRANT SELECT ON ALL TABLES IN SCHEMA public TO " user (
          name "; ALTER DEFAULT PRIVILEGES IN SCHEMA public GRANT SELECT ON TABLES TO " user
            (finish ";")))))

ReadsAs-create_role :
    (user password : String)
    → ReadsAs
        (create_role_sql user password)
        (role_template "CREATE ROLE " " WITH LOGIN PASSWORD " user password)
unfolding create_role_sql create_role_parts escape_sql_literal escape_sql_identifier flat is_plain
ReadsAs-create_role user password =
    ap (read bare) (codes-concat (create_role_parts user password)) ∙ read-flat _ refl

ReadsAs-alter_role :
    (user password : String)
    → ReadsAs
        (alter_role_sql user password)
        (role_template "ALTER ROLE " " WITH PASSWORD " user password)
unfolding alter_role_sql alter_role_parts escape_sql_literal escape_sql_identifier flat is_plain
ReadsAs-alter_role user password =
    ap (read bare) (codes-concat (alter_role_parts user password)) ∙ read-flat _ refl

ReadsAs-drop_role : (db user : String) → ReadsAs (drop_role_sql db user) (drop_template db user)
unfolding drop_role_sql drop_role_parts escape_sql_identifier flat is_plain
ReadsAs-drop_role db user =
    ap (read bare) (codes-concat (drop_role_parts db user)) ∙ read-flat (drop_template db user) refl

ReadsAs-pg_grant :
    (permission : DbPermission) (db user : String)
    → ReadsAs (pg_grant_sql permission db user) (grant_template permission db user)
unfolding pg_grant_sql pg_grant_parts escape_sql_identifier flat is_plain
ReadsAs-pg_grant DbPermission.admin db user =
    ap (read bare) (codes-concat (pg_grant_parts DbPermission.admin db user))
    ∙ read-flat (grant_template DbPermission.admin db user) refl
ReadsAs-pg_grant DbPermission.read_write db user =
    ap (read bare) (codes-concat (pg_grant_parts DbPermission.read_write db user))
    ∙ read-flat (grant_template DbPermission.read_write db user) refl
ReadsAs-pg_grant DbPermission.read_only db user =
    ap (read bare) (codes-concat (pg_grant_parts DbPermission.read_only db user))
    ∙ read-flat (grant_template DbPermission.read_only db user) refl

-- Whatever the names of the user and of the database and the password are, PostgreSQL reads each statement
-- that creates, alters, drops or empowers a role as its fixed text, with a quoted identifier that spells the
-- name in each place for a name and a literal that spells the password in the place for it.
pub role_statements-ReadsAs :
    (user password db : String) (permission : DbPermission)
    → ReadsAs
        (create_role_sql user password)
        (role_template "CREATE ROLE " " WITH LOGIN PASSWORD " user password)
      × ReadsAs
          (alter_role_sql user password)
          (role_template "ALTER ROLE " " WITH PASSWORD " user password)
      × ReadsAs (drop_role_sql db user) (drop_template db user)
      × ReadsAs (pg_grant_sql permission db user) (grant_template permission db user)
role_statements-ReadsAs user password db permission = (
  ReadsAs-create_role user password,
  ReadsAs-alter_role user password,
  ReadsAs-drop_role db user,
  ReadsAs-pg_grant permission db user,
)
