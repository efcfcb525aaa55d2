-- ===== src/Tests/ServerExamples.antt =====
-- Examples for Docker servers: the choice of one, the removal of one, and the addresses on one.
use dbsaa_s.Prelude.{ℕ, ◌≡◌, refl, true, Option, none, some, [], ◌∷◌}
use dbsaa_s.Prelude.Int.{pos}
use dbsaa_s.Models.{DockerServer, DbType}
use dbsaa_s.Errors.{ok}
use dbsaa_s.Platform.{State, run}
use dbsaa_s.Platform.Returns.{Returns}
use dbsaa_s.Repository.Servers.{count_containers_on_server, select_best_client_server}
use dbsaa_s.Repository.Servers.Admin.{is_server, is_referred}
use dbsaa_s.Repository.Servers.Admin as Rows
use dbsaa_s.Repository.Servers.Placement.{IsPlaced, select_best_client_server-IsPlaced}
use dbsaa_s.Repository.Servers.Removal.{Outcome, delete_server-outcomes}
use dbsaa_s.Databases.Addresses.{compute_backend_address, extract_server_ip}
use dbsaa_s.Admin.Servers.{delete_server}
use dbsaa_s.Admin.Routing.{migrated_address}
use dbsaa_s.Admin.Addresses.{migrated_address-compute_backend_address}
use dbsaa_s.Tests.Fixtures.{empty, sales}

abbrev paris : ℕ → DockerServer
paris id = record {
  id = id;
  name = "paris";
  url = "tcp://192.168.1.12:2376";
  tls_ca = none;
  tls_cert = none;
  tls_key = none;
  max_containers = pos id;
  active = true;
  region = none;
  notes = none;
  server_type = "client";
  last_seen_at = none;
  created_at = 0;
}

named : extract_server_ip "tcp://192.168.1.12:2376" ≡ some "192.168.1.12"
unfolding extract_server_ip
named = refl

migrated_address-compute_backend_address_example :
    migrated_address "id" DbType.redis (some (paris 4)) 10001
    ≡ compute_backend_address "id" DbType.redis (some (paris 4)) (some 10001)
migrated_address-compute_backend_address_example =
    migrated_address-compute_backend_address "id" DbType.redis (some (paris 4)) 10001
      ("192.168.1.12", named)

abbrev two_servers : State ℕ
two_servers = record empty { servers = paris 4 ∷ paris 9 ∷ [] }

select_best_client_server-IsPlaced_example :
    (o : Option DockerServer) × (select_best_client_server two_servers ≡ (ok o, two_servers))
    × IsPlaced two_servers o
select_best_client_server-IsPlaced_example = select_best_client_server-IsPlaced two_servers

abbrev one_server : State ℕ
one_server = record empty { servers = paris 9 ∷ [] }

removed : Returns (delete_server 4) two_servers tt one_server
unfolding delete_server count_containers_on_server Rows.remove run
removed = refl

-- Alice's database runs on the server.
abbrev busy_server : State ℕ
busy_server = record two_servers { instances = record sales { docker_server_id = some 4 } ∷ [] }

unchanged : (delete_server 4 busy_server).1 ≡ busy_server
unfolding delete_server count_containers_on_server run
unchanged = refl

delete_server-outcomes_example : Outcome 4 busy_server (delete_server 4 busy_server)
delete_server-outcomes_example = delete_server-outcomes 4 busy_server refl
