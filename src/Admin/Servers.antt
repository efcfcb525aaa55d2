-- ===== src/Admin/Servers.antt =====
-- The endpoints of the administrator on Docker servers: api/src/handlers/docker_servers.rs (lines 16 to 80, 209
-- to 266). The daemon's answers to a ping and about itself are parameters.
use dbsaa_s.Prelude.{ℕ, Bool, true, false, Option, none, some, List, [], ◌∷◌, String, ltb}
use dbsaa_s.Prelude.Int.{ℤ, pos}
use dbsaa_s.Text.{concat, show_i32}
use dbsaa_s.Models.{DockerServer}
use dbsaa_s.Errors.{AppError, Result, ok, err}
use dbsaa_s.Platform.{
  M, Call, Services, pure, throw_if, or_throw, call, ignore, attempt, now_utc, ◌>>=◌, ◌>>◌,
}
use dbsaa_s.Repository.Servers
use dbsaa_s.Repository.Servers.Admin.{CreateDockerServerRequest, UpdateDockerServerRequest}
use dbsaa_s.Repository.Servers.Admin as Rows
use dbsaa_s.Provisioner.{connect_to_server}

pub record SystemInfo : Type 0 where
  pub containers_running : Option ℤ
  pub containers : Option ℤ
  pub ncpu : Option ℤ
  pub mem_total : Option ℤ

pub record DockerServerStatus : Type 0 where
  pub id : ℕ
  pub name : String
  pub url : String
  pub region : Option String
  pub active : Bool
  pub server_type : String
  pub max_containers : ℤ
  pub online : Bool
  pub containers_running : Option ℤ
  pub containers_total : Option ℤ
  pub cpu_count : Option ℤ
  pub memory_bytes : Option ℤ
  pub docker_version : Option String
  pub last_seen_at : Option ℕ
  pub error : Option String

-- What a daemon, by its handle, is asked; and an error as it is written.
pub record Daemon (W : Type 0) : Type 0 where
  pub ping : ℕ → Call W (Unit {0})
  pub info : ℕ → Call W SystemInfo
  pub version : ℕ → Call W (Option String)
  pub show_error : AppError → String

abbrev pub offline : DockerServer → DockerServerStatus
offline server = record {
  id = server.id;
  name = server.name;
  url = server.url;
  region = server.region;
  active = server.active;
  server_type = server.server_type;
  max_containers = server.max_containers;
  online = false;
  containers_running = none;
  containers_total = none;
  cpu_count = none;
  memory_bytes = none;
  docker_version = none;
  last_seen_at = server.last_seen_at;
  error = none;
}

abbrev pub with_info : Result SystemInfo → DockerServerStatus → DockerServerStatus
with_info (err e) status = status
with_info (ok info) status = record status {
  containers_running = info.containers_running;
  containers_total = info.containers;
  cpu_count = info.ncpu;
  memory_bytes = info.mem_total;
}

abbrev pub with_version : Result (Option String) → DockerServerStatus → DockerServerStatus
with_version (err e) status = status
with_version (ok version) status = record status { docker_version = version }

module _ {W : Type 0} where
  unfoldable pub list_servers : M W (List DockerServer)
  list_servers = Rows.list_all

  unfoldable pub update_server : ℕ → UpdateDockerServerRequest → M W DockerServer
  update_server id req = Rows.change id req

  unfoldable pub delete_server : ℕ → M W (Unit {0})
  delete_server id = do
    count ← Servers.count_containers_on_server id
    throw_if (ltb 0 count) (
        AppError.bad_request (
          concat (
            "Server still has "
            ∷ show_i32 (pos count)
            ∷ " active containers. Migrate them first."
            ∷ [])))
    Rows.remove id

module _ {W : Type 0} (svc : Services W) (daemon : Daemon W) where
  unfoldable pub create_server : CreateDockerServerRequest → M W DockerServer
  create_server req = Rows.create svc req

  abbrev pub describe : DockerServer → ℕ → M W DockerServerStatus
  describe server docker = do
    info ← attempt (call (daemon.info docker))
    version ← attempt (call (daemon.version docker))
    ignore (Rows.update_last_seen svc server.id)
    t ← now_utc svc
    pure
        (record (with_version version
          (with_info info (record (offline server) { online = true }))) { last_seen_at = some t })

  abbrev pub pinged : DockerServer → ℕ → Result (Unit {0}) → M W DockerServerStatus
  pinged server docker (err e) = pure (record (offline server) {
    error = some (concat ("Ping failed: " ∷ daemon.show_error e ∷ []));
  })
  pinged server docker (ok _) = describe server docker

  abbrev pub connected : DockerServer → Result ℕ → M W DockerServerStatus
  connected server (err e) = pure (record (offline server) {
    error = some (concat ("Connection failed: " ∷ daemon.show_error e ∷ []));
  })
  connected server (ok docker) = attempt (call (daemon.ping docker)) >>= pinged server docker

  unfoldable pub check_server_health : DockerServer → M W DockerServerStatus
  check_server_health server = attempt (connect_to_server svc server) >>= connected server

  abbrev pub check_all : List DockerServer → M W (List DockerServerStatus)
  check_all [] = pure []
  check_all (server ∷ servers) = do
    status ← check_server_health server
    statuses ← check_all servers
    pure (status ∷ statuses)

  unfoldable pub servers_status : M W (List DockerServerStatus)
  servers_status = Rows.list_all >>= check_all

  unfoldable pub server_status : ℕ → M W DockerServerStatus
  server_status id = do
    found ← Servers.find_by_id id
    server ← or_throw found (AppError.not_found "Server not found")
    check_server_health server
