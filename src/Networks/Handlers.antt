-- ===== src/Networks/Handlers.antt =====
-- The endpoints on private networks: api/src/handlers/private_networks.rs (lines 15 to 387).

use Prim.Native.String.{◌++◌, len}
use dbsaa_s.Prelude.{
  ℕ, Bool, false, not, Option, none, some, List, [], String, str_eq, ltb, leb, ◌==◌, ◌||◌,
  if◌then◌else◌, find,
}
use dbsaa_s.Models.{DatabaseInstance, PrivateNetwork, NetworkPeering, AuthUser, is_running}
use dbsaa_s.Errors.{AppError}
use dbsaa_s.Platform.{
  M, Docker, Services, pure, throw_if, or_throw, gets, ignore, for_each, ◌>>=◌, ◌>>◌,
}
use dbsaa_s.Text.{trim}
use dbsaa_s.Repository.Networks.{PrivateNetworkMemberInfo}
use dbsaa_s.Repository.Networks
use dbsaa_s.Repository.Peerings
use dbsaa_s.Provisioner.{
  connect_to_server, create_private_network, attach_container_to_network,
  detach_container_from_network, remove_private_network,
}
use dbsaa_s.Provisioner.Firewall.{remove_firewall_rules}

abbrev pub max_networks_per_user : ℕ
max_networks_per_user = 10

abbrev pub max_members_per_network : ℕ
max_members_per_network = 20

pub record PrivateNetworkResponse : Type 0 where
  pub network : PrivateNetwork
  pub members : List PrivateNetworkMemberInfo

-- `DatabaseRepository::find_by_id`
abbrev pub find_database : {W : Type 0} → ℕ → M W (Option DatabaseInstance)
find_database id = gets (λ s. find (λ d. d.id == id) s.instances)

abbrev pub container_of : Option DatabaseInstance → Option String
container_of none = none
container_of (some d) = d.container_id

abbrev pub opt_eq : Option ℕ → ℕ → Bool
opt_eq none b = false
opt_eq (some a) b = a == b

module _ {W : Type 0} (svc : Services W) where
  unfoldable pub resolve_docker_for_server : Option ℕ → M W Docker
  resolve_docker_for_server none = pure none
  resolve_docker_for_server (some sid) = do
    found ← gets (λ s. find (λ d. d.id == sid) s.servers)
    server ← or_throw found (AppError.internal "Docker server not found")
    docker ← connect_to_server svc server
    pure (some docker)

  unfoldable pub create_network : AuthUser → String → M W PrivateNetworkResponse
  create_network user requested = do
    let name : String = trim requested
    throw_if (str_eq name "" || ltb 63 (len name))
        (AppError.bad_request "Name must be 1-63 characters")
    count ← Networks.count_by_user user.id
    throw_if (leb max_networks_per_user count) (AppError.bad_request "Maximum 10 networks per user")
    network ← Networks.create svc user.id name
    pure (record { network = network; members = [] })

  -- The network, if it is there and the user's own.
  unfoldable pub own_network : AuthUser → ℕ → M W PrivateNetwork
  own_network user id = do
    found ← Networks.find_by_id id
    network ← or_throw found (AppError.not_found "Network not found")
    throw_if (not (network.user_id == user.id)) AppError.forbidden
    pure network

  unfoldable pub get_network : AuthUser → ℕ → M W PrivateNetworkResponse
  get_network user id = do
    network ← own_network user id
    members ← Networks.find_members_with_db_info network.id
    pure (record { network = network; members = members })

  abbrev pub detach_container : Docker → String → Option String → M W (Unit {0})
  detach_container docker network_id none = pure tt
  detach_container docker network_id (some cid) =
      ignore (detach_container_from_network svc docker cid network_id)

  -- Detach a database's container from a Docker network, if it has one; errors are dropped.
  unfoldable pub detach_member : Docker → String → PrivateNetworkMemberInfo → M W (Unit {0})
  detach_member docker network_id member = do
    found ← find_database member.database_id
    detach_container docker network_id (container_of found)

  unfoldable pub detach_members : Docker → String → ℕ → M W (Unit {0})
  detach_members docker docker_network_id network_id = do
    members ← Networks.find_members_with_db_info network_id
    for_each members (detach_member docker docker_network_id)

  -- Take down the bridge of a peering: its firewall table, its containers, the Docker network.
  -- `first` and `second` are the networks in the order in which they are emptied.
  unfoldable pub remove_bridge : NetworkPeering → ℕ → ℕ → Option String → M W (Unit {0})
  remove_bridge peering first second none = pure tt
  remove_bridge peering first second (some bridge_id) = do
    docker ← resolve_docker_for_server peering.docker_server_id
    remove_firewall_rules svc docker (svc.show_uuid peering.id)
    detach_members docker bridge_id first
    detach_members docker bridge_id second
    ignore (remove_private_network svc docker bridge_id)

  unfoldable pub remove_peering_of : ℕ → NetworkPeering → M W (Unit {0})
  remove_peering_of id peering = do
    remove_bridge peering id
        (if peering.network_a_id == id then peering.network_b_id else peering.network_a_id)
        peering.docker_bridge_id
    Peerings.delete_peering peering.id

  unfoldable pub remove_docker_network : PrivateNetwork → Option String → M W (Unit {0})
  remove_docker_network network none = pure tt
  remove_docker_network network (some docker_net_id) = do
    docker ← resolve_docker_for_server network.docker_server_id
    detach_members docker docker_net_id network.id
    ignore (remove_private_network svc docker docker_net_id)

  unfoldable pub delete_network : AuthUser → ℕ → M W String
  delete_network user id = do
    network ← own_network user id
    peerings ← Peerings.find_peerings_for_network id
    for_each peerings (remove_peering_of id)
    remove_docker_network network network.docker_network_id
    Networks.delete_row id
    pure "deleted"

  -- `peering.status == "active"` with a bridge: the bridge's id.
  abbrev pub active_bridge : NetworkPeering → Option String
  active_bridge peering = if str_eq peering.status "active" then peering.docker_bridge_id else none

  abbrev pub join_bridge : Docker → String → Option String → M W (Unit {0})
  join_bridge docker cid none = pure tt
  join_bridge docker cid (some bridge_id) =
      ignore (attach_container_to_network svc docker cid bridge_id)

  abbrev pub leave_bridge : Docker → String → Option String → M W (Unit {0})
  leave_bridge docker cid none = pure tt
  leave_bridge docker cid (some bridge_id) =
      ignore (detach_container_from_network svc docker cid bridge_id)

  -- Step 4 of `attach_database`: a network that has a server takes databases of that server alone.
  abbrev pub wrong_server : Option ℕ → Option ℕ → Bool
  wrong_server none db_server = false
  wrong_server (some server) db_server = not (opt_eq db_server server)

  -- A network with no server takes that of its first database.
  unfoldable pub settle_server : PrivateNetwork → Option ℕ → Option ℕ → M W PrivateNetwork
  settle_server network none (some server_id) = do
    Networks.update_docker_server_id network.id server_id
    pure (record network { docker_server_id = some server_id })
  settle_server network none none = pure network
  settle_server network (some _) db_server = pure network

  -- Step 6: the Docker network is created when the first database joins.
  unfoldable pub settle_docker_network :
      Docker → PrivateNetwork → Option String → M W (String × PrivateNetwork)
  settle_docker_network docker network (some net_id) = pure (net_id, network)
  settle_docker_network docker network none = do
    made ← create_private_network svc docker ("sb-pn-" ++ svc.show_uuid network.id)
    Networks.update_docker_network_id network.id made.0
    Networks.update_subnet_info network.id made.1 made.2
    pure (
      made.0,
      record network { docker_network_id = some made.0; subnet = made.1; gateway = made.2 },
    )

  unfoldable pub attach_database : AuthUser → ℕ → ℕ → M W PrivateNetworkResponse
  attach_database user network_id database_id = do
    found ← own_network user network_id
    found_db ← find_database database_id
    db ← or_throw found_db (AppError.not_found "Database not found")
    throw_if (not (db.user_id == user.id)) AppError.forbidden
    throw_if (not (is_running db.status))
        (AppError.bad_request "Database must be running to attach")
    container_id ← or_throw db.container_id (AppError.bad_request "Database has no container")
    throw_if (wrong_server found.docker_server_id db.docker_server_id)
        (AppError.bad_request "Database must be on the same Docker server as the network")
    joined ← Networks.is_member network_id database_id
    throw_if joined (AppError.conflict "Database is already a member of this network")
    member_count ← Networks.count_members network_id
    throw_if (leb max_members_per_network member_count)
        (AppError.bad_request "Maximum 20 members per network")
    network ← settle_server found found.docker_server_id db.docker_server_id
    docker ← resolve_docker_for_server network.docker_server_id
    made ← settle_docker_network docker network network.docker_network_id
    attach_container_to_network svc docker container_id made.0
    Networks.add_member svc network_id database_id
    peerings ← Peerings.find_peerings_for_network network_id
    for_each peerings (λ p. join_bridge docker container_id (active_bridge p))
    members ← Networks.find_members_with_db_info network_id
    pure (record { network = made.1; members = members })

  -- The Docker side of `detach_database`, where both ids are known.
  unfoldable pub leave_docker : PrivateNetwork → Option String → Option String → M W (Unit {0})
  leave_docker network (some container_id) (some docker_net_id) = do
    docker ← resolve_docker_for_server network.docker_server_id
    ignore (detach_container_from_network svc docker container_id docker_net_id)
    peerings ← Peerings.find_peerings_for_network network.id
    for_each peerings (λ p. leave_bridge docker container_id (active_bridge p))
  leave_docker network (some _) none = pure tt
  leave_docker network none _ = pure tt

  unfoldable pub detach_database : AuthUser → ℕ → ℕ → M W PrivateNetworkResponse
  detach_database user network_id database_id = do
    network ← own_network user network_id
    found ← find_database database_id
    leave_docker network (container_of found) network.docker_network_id
    Networks.remove_member network_id database_id
    members ← Networks.find_members_with_db_info network_id
    pure (record { network = network; members = members })
