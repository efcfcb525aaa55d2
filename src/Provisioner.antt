-- ===== src/Provisioner.antt =====
-- The container service: api/src/services/provisioner.rs. Its calls of the Docker daemon are
-- `Services`; a call takes the daemon of a server, or the local one.
pub mod Host
pub mod Rounds
pub mod Firewall
pub mod Containers
pub mod Backups
pub mod Accounts
pub mod Sql
use Prim.Native.String.{◌++◌}
use dbsaa_s.Prelude.{
  ℕ, Bool, true, false, Option, none, some, List, [], ◌∷◌, String, str_eq, ◌||◌, if◌then◌else◌,
}
use dbsaa_s.Models.{DockerServer}
use dbsaa_s.Errors.{AppError, Result, ok, err}
use dbsaa_s.Platform.{
  State, M, Docker, Services, pure, throw, throw_if, or_throw, call, attempt, ◌>>=◌, ◌>>◌,
}

-- `ipam.config.first()`, if the network could be inspected.
abbrev pub first_config :
    Result (Option String × Option (List (Option String × Option String)))
    → Option String × Option String
first_config (ok (_, some (c ∷ _))) = c
first_config _ = (none, none)

module _ {W : Type 0} (svc : Services W) where
  unfoldable pub connect_to_server : DockerServer → M W ℕ
  connect_to_server server =
      if str_eq server.url "local" || str_eq server.url "unix:///var/run/docker.sock"
      then call svc.connect_local
      else do
        ca ← or_throw server.tls_ca (
            AppError.bad_request
              "TLS certificates required for remote Docker connections (missing CA)")
        cert ← or_throw server.tls_cert (
            AppError.bad_request
              "TLS certificates required for remote Docker connections (missing cert)")
        key ← or_throw server.tls_key (
            AppError.bad_request
              "TLS certificates required for remote Docker connections (missing key)")
        call (svc.connect_ssl server.id server.url ca cert key)

  unfoldable pub create_network_with_opts : Docker → String → Bool → M W String
  create_network_with_opts docker name internal = do
    id ← call (svc.create_network docker name (some internal) [])
    throw_if (str_eq id "") (AppError.internal "Network creation returned no ID")
    pure id

  unfoldable pub create_private_network :
      Docker → String → M W (String × Option String × Option String)
  create_private_network docker name = do
    net_id ← create_network_with_opts docker name true
    info ← attempt (call (svc.inspect_network docker net_id))
    let config = first_config info
    pure (net_id, config.0, config.1)

  unfoldable pub attach_container_to_network : Docker → String → String → M W (Unit {0})
  attach_container_to_network docker container_id network_id =
      call (svc.connect_network docker network_id container_id)

  unfoldable pub detach_container_from_network : Docker → String → String → M W (Unit {0})
  detach_container_from_network docker container_id network_id =
      call (svc.disconnect_network docker network_id container_id)

  unfoldable pub remove_private_network : Docker → String → M W (Unit {0})
  remove_private_network docker network_id = call (svc.remove_network docker network_id)

  -- Traffic between the containers of the bridge is off (ICC=false).
  unfoldable pub create_peering_network : Docker → String → M W String
  create_peering_network docker name = do
    id ← call (
        svc.create_network docker name (some false)
          (("com.docker.network.bridge.enable_icc", "false") ∷ []))
    throw_if (str_eq id "") (AppError.internal "Peering network creation returned no ID")
    pure id
