-- ===== src/Databases/Addresses.antt =====
-- Where a database is reached: api/src/handlers/databases.rs (lines 1611 to 1701), and the checks of a name
-- in api/src/models/database.rs (lines 112 to 124).
use Prim.Native.Char.{code}
use Prim.Native.String.{◌++◌, len}
use dbsaa_s.Prelude.{
  ℕ, Bool, true, false, not, Option, none, some, [], ◌∷◌, String, str_eq, ltb, ◌==◌, ◌&&◌, ◌||◌,
  if◌then◌else◌,
}
use dbsaa_s.Prelude.Int.{pos}
use dbsaa_s.Models.{DbType, DockerServer}
use dbsaa_s.Text.{show_i32, concat, starts_with, find_from, contains, before}
use dbsaa_s.Subdomain.{is_ascii_alphabetic, is_ascii_alphanumeric}

abbrev pub all_chars : (ℕ → Bool) → String → Bool
all_chars p String.[] = true
all_chars p (String.◌∷◌ c s) = let rest = all_chars p s in p (code c) && rest

abbrev starts_alphabetic : String → Bool
starts_alphabetic String.[] = false
starts_alphabetic (String.◌∷◌ c s) = is_ascii_alphabetic (code c)

abbrev pub name_char : ℕ → Bool
name_char c = is_ascii_alphanumeric c || (c == b'_' || c == b'-')

-- Whether the name is accepted; all three refusals are a 400.
unfoldable pub validate_db_name : String → Bool
validate_db_name name =
    not (str_eq name "" || ltb 63 (len name))
    && (starts_alphabetic name && all_chars name_char name)

abbrev pub unwrap_or : Option String → String → String
unwrap_or none d = d
unwrap_or (some s) d = s

unfoldable pub build_connection_url_sni :
    DbType → String → String → String → Option String → String → String
build_connection_url_sni DbType.postgresql username password fqdn db_name ssl_mode = concat (
    "postgresql://"
    ∷ username
    ∷ ":"
    ∷ password
    ∷ "@"
    ∷ fqdn
    ∷ ":5432/"
    ∷ unwrap_or db_name "postgres"
    ∷ "?"
    ∷ (if str_eq ssl_mode "verify-ca" then "sslmode=verify-ca" else "sslmode=require")
    ∷ [])
build_connection_url_sni DbType.redis username password fqdn db_name ssl_mode =
    concat ("rediss://:" ∷ password ∷ "@" ∷ fqdn ∷ ":6379" ∷ [])
build_connection_url_sni DbType.mariadb username password fqdn db_name ssl_mode = concat (
    "mysql://"
    ∷ username
    ∷ ":"
    ∷ password
    ∷ "@"
    ∷ fqdn
    ∷ ":3306/"
    ∷ unwrap_or db_name "default"
    ∷ "?"
    ∷ (if str_eq ssl_mode "verify-ca" then "ssl-mode=VERIFY_CA" else "ssl-mode=REQUIRED")
    ∷ [])

-- The text after a place that `://` begins.
abbrev pub drop_3 : String → String
drop_3 (String.◌∷◌ a (String.◌∷◌ b (String.◌∷◌ c s))) = s
drop_3 s = s

abbrev without_scheme : Option String → String → String
without_scheme none url = url
without_scheme (some s) url = drop_3 s

abbrev pub real_host : String → Option String
real_host host =
    if str_eq host "" || (str_eq host "localhost" || starts_with host "/") then none else some host

unfoldable pub extract_server_ip : String → Option String
extract_server_ip url = real_host (before b':' (without_scheme (find_from url "://") url))

unfoldable pub is_remote_server : String → Bool
is_remote_server url =
    not (str_eq url "local")
    && (not (starts_with url "unix://")
        && (not (contains url "localhost") && not (contains url "127.0.0.1")))

unfoldable pub standard_port_for_db_type : DbType → ℕ
standard_port_for_db_type DbType.postgresql = 5432
standard_port_for_db_type DbType.redis = 6379
standard_port_for_db_type DbType.mariadb = 3306

abbrev pub host_and_port : Option String → Option ℕ → Option String
host_and_port (some ip) (some port) = some (ip ++ (":" ++ show_i32 (pos port)))
host_and_port _ _ = none

abbrev remote_address : Option DockerServer → Option ℕ → Option String
remote_address none exposed_port = none
remote_address (some srv) exposed_port =
    if is_remote_server srv.url
    then host_and_port (extract_server_ip srv.url) exposed_port
    else none

-- `db_id` is the UUID as it is written.
unfoldable pub compute_backend_address : String → DbType → Option DockerServer → Option ℕ → String
unfolding standard_port_for_db_type extract_server_ip is_remote_server
compute_backend_address db_id db_type server exposed_port =
    unwrap_or (remote_address server exposed_port)
      ("sb-" ++ (db_id ++ (":" ++ show_i32 (pos (standard_port_for_db_type db_type)))))
