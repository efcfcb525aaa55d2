-- ===== src/Admin/Addresses.antt =====
-- The address of a database that is moved to SNI routing (api/src/handlers/admin.rs, lines 427 to 451) and that
-- of a new one (api/src/handlers/databases.rs, lines 1676 to 1693).
use dbsaa_s.Prelude.{
  ℕ, ◌≡◌, refl, ap, sym, ◌∙◌, Bool, true, false, Option, none, some, String, str_eq, ◌||◌,
  if◌then◌else◌,
}
use dbsaa_s.Text.{starts_with, show_i32}
use Prim.Native.String.{◌++◌}
use dbsaa_s.Prelude.Int.{pos}
use dbsaa_s.Models.{DockerServer, DbType}
use dbsaa_s.Databases.Addresses.{
  compute_backend_address, extract_server_ip, is_remote_server, standard_port_for_db_type,
  real_host, host_and_port, unwrap_or,
}
use dbsaa_s.Admin.Routing.{migrated_address, is_remote_url, host_of}

real-host : (host : String) {ip : String} → real_host host ≡ some ip → host ≡ ip
real-host host {ip} h = go (str_eq host "" || (str_eq host "localhost" || starts_with host "/")) h
  where
    go : (b : Bool) → (if b then none else some host) ≡ some ip → host ≡ ip
    go true h = cc
    go false h = cc

agree :
    (b : Bool) (o : Option String) (host fallback : String) (port : ℕ) {ip : String}
    → o ≡ some ip
    → host ≡ ip
    → (if b then host ++ (":" ++ show_i32 (pos port)) else fallback)
      ≡ unwrap_or (if b then host_and_port o (some port) else none) fallback
agree true o host fallback port e h =
    ap (λ x. x ++ (":" ++ show_i32 (pos port))) h
    ∙ ap (λ x. unwrap_or (host_and_port x (some port)) fallback) (sym e)
agree false o host fallback port e h = refl

-- The URL of the server names a host; where there is no server, nothing is asked.
abbrev pub NamesHost : Option DockerServer → Type 0
NamesHost none = Unit {0}
NamesHost (some server) = (ip : String) × (extract_server_ip server.url ≡ some ip)

-- Where the URL of the server names a host, or there is no server, a database that is moved to SNI routing gets
-- the address that a new database gets at its port, by the other of the two computations in the code.
pub migrated_address-compute_backend_address :
    (db_id : String) (db_type : DbType) (server : Option DockerServer) (port : ℕ)
    → NamesHost server
    → migrated_address db_id db_type server port
      ≡ compute_backend_address db_id db_type server (some port)
unfolding migrated_address compute_backend_address extract_server_ip is_remote_server
    standard_port_for_db_type
migrated_address-compute_backend_address db_id DbType.postgresql none port h = refl
migrated_address-compute_backend_address db_id DbType.redis none port h = refl
migrated_address-compute_backend_address db_id DbType.mariadb none port h = refl
migrated_address-compute_backend_address db_id DbType.postgresql (some server) port (ip, h) =
    agree (is_remote_url server.url) (extract_server_ip server.url) (host_of server.url) _ port h
      (real-host (host_of server.url) h)
migrated_address-compute_backend_address db_id DbType.redis (some server) port (ip, h) =
    agree (is_remote_url server.url) (extract_server_ip server.url) (host_of server.url) _ port h
      (real-host (host_of server.url) h)
migrated_address-compute_backend_address db_id DbType.mariadb (some server) port (ip, h) =
    agree (is_remote_url server.url) (extract_server_ip server.url) (host_of server.url) _ port h
      (real-host (host_of server.url) h)
