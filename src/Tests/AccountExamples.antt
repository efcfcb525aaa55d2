-- ===== src/Tests/AccountExamples.antt =====
-- Examples for the users inside a database and for the statements that create them.
use dbsaa_s.Prelude.{ℕ, ◌≡◌, refl, find, some}
use dbsaa_s.Models.{DatabaseInstance, DbStatus}
use dbsaa_s.Models.Access.{DbPermission}
use dbsaa_s.Errors.{Result, ok}
use dbsaa_s.Platform.{State, run, new_uuid, now_utc}
use dbsaa_s.Crypto.{decrypt_string, cipher_of, encrypt_with, hex_decode, hex_bytes}
use dbsaa_s.Repository.Accounts
use dbsaa_s.Provisioner.Sql.Reading.{ReadsAs}
use dbsaa_s.Provisioner.Sql.Statements.{
  role_template, drop_template, grant_template, role_statements-ReadsAs,
}
use dbsaa_s.Provisioner.Sql.{create_role_sql, alter_role_sql, drop_role_sql, pg_grant_sql}
use dbsaa_s.Databases.Lifecycle.{own_database, resolve_docker_for_instance}
use dbsaa_s.Repository.Databases.{is_database}
use dbsaa_s.Repository.Databases
use dbsaa_s.Provisioner.Accounts.{create_pg_user, exec_in_container}
use dbsaa_s.Databases.Resources.{generate_random_string, random_index, encrypt_string, fill_nonce}
use dbsaa_s.Databases.Users.{
  DatabaseUserResponse, create_database_user, validate_username, owner_password_of,
}
use dbsaa_s.Databases.Names.{IsName}
use dbsaa_s.Databases.Accounts.{IsOpened, create_database_user-IsOpened}
use dbsaa_s.Tests.Fixtures.{svc, cfg, alice, empty}
use dbsaa_s.Tests.CryptoExamples.{plain-IsFaithful}

abbrev opened : Result DatabaseUserResponse × State ℕ
opened = create_database_user svc cfg alice 50 "reader" DbPermission.read_only empty

abbrev reply : DatabaseUserResponse
reply = record {
  id = 137;
  database_id = 50;
  username = "reader";
  password = "CDEFGHIJKLMNOPQRSTUVWXYZ01234567";
  permission = DbPermission.read_only;
  created_at = 138;
}

added :
    create_database_user svc cfg alice 50 "reader" DbPermission.read_only empty
    ≡ (ok reply, opened.1)
unfolding create_database_user run Accounts.create_database_user generate_random_string random_index
    encrypt_string fill_nonce encrypt_with hex_decode hex_bytes cipher_of new_uuid now_utc
    validate_username own_database Databases.find_by_id resolve_docker_for_instance
    owner_password_of decrypt_string create_pg_user exec_in_container
added = refl

create_database_user-IsOpened_example :
    IsName "reader"
    × ((inst : DatabaseInstance) × (find (is_database 50) empty.instances ≡ some inst)
        × (inst.user_id ≡ alice.id)
        × (inst.status ≡ DbStatus.running))
    × IsOpened svc cfg 50 "reader" DbPermission.read_only empty opened.1 reply
create_database_user-IsOpened_example =
    create_database_user-IsOpened svc cfg plain-IsFaithful (λ w. refl) 50 "reader"
      DbPermission.read_only empty alice refl added

role_statements-ReadsAs_example :
    ReadsAs
      (create_role_sql "o'brien" "a\"b'c")
      (role_template "CREATE ROLE " " WITH LOGIN PASSWORD " "o'brien" "a\"b'c")
    × ReadsAs
        (alter_role_sql "o'brien" "a\"b'c")
        (role_template "ALTER ROLE " " WITH PASSWORD " "o'brien" "a\"b'c")
    × ReadsAs (drop_role_sql "sales" "o'brien") (drop_template "sales" "o'brien")
    × ReadsAs
        (pg_grant_sql DbPermission.read_only "sales" "o'brien")
        (grant_template DbPermission.read_only "sales" "o'brien")
role_statements-ReadsAs_example =
    role_statements-ReadsAs "o'brien" "a\"b'c" "sales" DbPermission.read_only
