-- ===== src/Networks/Peering.antt =====
-- The endpoints on peerings: api/src/handlers/private_networks.rs (lines 389 to 587). What the
-- handler spawns is a function of its own, run at some later state.
use Prim.Native.String.{◌++◌}
use dbsaa_s.Prelude.{ℕ, Bool, false, not, Option, none, some, List, String, leb, ◌==◌}
use dbsaa_s.Models.{NetworkPeering, FirewallRule, AuthUser}
use dbsaa_s.Errors.{AppError, Result, ok, err}
use dbsaa_s.Platform.{
  M, Docker, Services, pure, throw_if, or_throw, ignore, attempt, for_each, ◌>>=◌, ◌>>◌,
}
use dbsaa_s.Repository.Networks.{PrivateNetworkMemberInfo}
use dbsaa_s.Repository.Networks
use dbsaa_s.Repository.Peerings
use dbsaa_s.Provisioner.{create_peering_network, attach_container_to_network}
use dbsaa_s.Networks.Handlers.{
  find_database, container_of, resolve_docker_for_server, remove_bridge,
}

abbrev pub max_peerings_per_user : ℕ
max_peerings_per_user = 10

pub record PeeringNetworkInfo : Type 0 where
  pub id : ℕ
  pub name : String
  pub member_count : ℕ

pub record PeeringResponse : Type 0 where
  pub id : ℕ
  pub network_a : PeeringNetworkInfo
  pub network_b : PeeringNetworkInfo
  pub status : String
  pub rules : List FirewallRule
  pub created_at : ℕ

-- `(Some(a), Some(b)) if a != b`
abbrev pub servers_differ : Option ℕ → Option ℕ → Bool
servers_differ (some a) (some b) = not (a == b)
servers_differ _ _ = false

-- `Option::or`
abbrev pub or_else : Option ℕ → Option ℕ → Option ℕ
or_else none b = b
or_else (some a) b = some a

module _ {W : Type 0} where
  unfoldable pub build_peering_response : NetworkPeering → M W PeeringResponse
  build_peering_response peering = do
    found_a ← Networks.find_by_id peering.network_a_id
    net_a ← or_throw found_a (AppError.internal "Network A not found")
    found_b ← Networks.find_by_id peering.network_b_id
    net_b ← or_throw found_b (AppError.internal "Network B not found")
    count_a ← Networks.count_members peering.network_a_id
    count_b ← Networks.count_members peering.network_b_id
    rules ← Peerings.find_rules_by_peering peering.id
    pure (record {
      id = peering.id;
      network_a = record { id = net_a.id; name = net_a.name; member_count = count_a };
      network_b = record { id = net_b.id; name = net_b.name; member_count = count_b };
      status = peering.status;
      rules = rules;
      created_at = peering.created_at;
    })

  -- The peering, if it is there and the user's own.
  unfoldable pub own_peering : AuthUser → ℕ → M W NetworkPeering
  own_peering user id = do
    found ← Peerings.find_peering_by_id id
    peering ← or_throw found (AppError.not_found "Peering not found")
    throw_if (not (peering.user_id == user.id)) AppError.forbidden
    pure peering

  unfoldable pub get_peering : AuthUser → ℕ → M W PeeringResponse
  get_peering user id = do peering ← own_peering user id; build_peering_response peering

module _ {W : Type 0} (svc : Services W) where
  abbrev pub attach_container : Docker → String → Option String → M W (Unit {0})
  attach_container docker bridge_id none = pure tt
  attach_container docker bridge_id (some cid) =
      ignore (attach_container_to_network svc docker cid bridge_id)

  unfoldable pub attach_member : Docker → String → PrivateNetworkMemberInfo → M W (Unit {0})
  attach_member docker bridge_id member = do
    found ← find_database member.database_id
    attach_container docker bridge_id (container_of found)

  unfoldable pub attach_members : Docker → String → ℕ → M W (Unit {0})
  attach_members docker bridge_id network_id = do
    members ← Networks.find_members_with_db_info network_id
    for_each members (attach_member docker bridge_id)

  -- The second `match` of the task: the bridge was made, or it was not.
  unfoldable pub finish_peering : Docker → ℕ → ℕ → ℕ → Result String → M W (Unit {0})
  finish_peering docker peering_id a b (ok bridge_id) = do
    Peerings.update_peering_bridge peering_id bridge_id
    attach_members docker bridge_id a
    attach_members docker bridge_id b
    Peerings.update_peering_status peering_id "active"
  finish_peering docker peering_id a b (err e) = Peerings.update_peering_status peering_id "error"

  unfoldable pub connect_peering : ℕ → ℕ → ℕ → Result Docker → M W (Unit {0})
  connect_peering peering_id a b (ok docker) = do
    made ← attempt (create_peering_network svc docker ("sb-peer-" ++ svc.show_uuid peering_id))
    finish_peering docker peering_id a b made
  connect_peering peering_id a b (err e) = Peerings.update_peering_status peering_id "error"

  -- The task that `create_peering` spawns.
  unfoldable pub provision_peering : NetworkPeering → M W (Unit {0})
  provision_peering p = do
    docker ← attempt (resolve_docker_for_server svc p.docker_server_id)
    connect_peering p.id p.network_a_id p.network_b_id docker

  -- The handler, up to the task; the peering that the task is for comes with the reply.
  unfoldable pub create_peering : AuthUser → ℕ → ℕ → M W (NetworkPeering × PeeringResponse)
  create_peering user a b = do
    throw_if (a == b) (AppError.bad_request "Cannot peer a network with itself")
    found_a ← Networks.find_by_id a
    net_a ← or_throw found_a (AppError.not_found "Network A not found")
    throw_if (not (net_a.user_id == user.id)) AppError.forbidden
    found_b ← Networks.find_by_id b
    net_b ← or_throw found_b (AppError.not_found "Network B not found")
    throw_if (not (net_b.user_id == user.id)) AppError.forbidden
    throw_if (servers_differ net_a.docker_server_id net_b.docker_server_id)
        (AppError.bad_request "Networks must be on the same Docker server")
    exists ← Peerings.peering_exists a b
    throw_if exists (AppError.conflict "Peering already exists between these networks")
    count ← Peerings.count_peerings_by_user user.id
    throw_if (leb max_peerings_per_user count) (AppError.bad_request "Maximum 10 peerings per user")
    peering ←
        Peerings.create_peering svc user.id a b
          (or_else net_a.docker_server_id net_b.docker_server_id)
    reply ← build_peering_response peering
    pure (peering, reply)

  unfoldable pub delete_peering : AuthUser → ℕ → M W String
  delete_peering user id = do
    peering ← own_peering user id
    remove_bridge svc peering peering.network_a_id peering.network_b_id peering.docker_bridge_id
    Peerings.delete_peering id
    pure "deleted"
