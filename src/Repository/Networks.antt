-- ===== src/Repository/Networks.antt =====
-- Private networks and their members: api/src/repository/private_network_repo.rs (lines 9 to 195).
use dbsaa_s.Prelude.{
  ℕ, Bool, Option, none, some, List, [], ◌∷◌, leb, sort_by, select, ◌++◌, String, str_eq, ◌==◌, leb,
  ◌&&◌, ◌||◌, select, count, find, update, delete, any, sort_by, not,
}
use dbsaa_s.Models.{
  DbType, DatabaseInstance, PrivateNetwork, PrivateNetworkMember, NetworkPeering, FirewallRule,
}
use dbsaa_s.Errors.{AppError}
use dbsaa_s.Platform.{M, Services, pure, gets, modify, throw_if, new_uuid, now_utc, ◌>>=◌, ◌>>◌}

abbrev pub duplicate_key : AppError
duplicate_key = AppError.database "duplicate key value violates unique constraint"

abbrev pub foreign_key : AppError
foreign_key = AppError.database "insert violates foreign key constraint"

-- A row of `SELECT m.database_id, d.name, … JOIN database_instances d`.
pub record PrivateNetworkMemberInfo : Type 0 where
  pub database_id : ℕ
  pub database_name : String
  pub db_type : DbType
  pub hostname : ℕ  -- the UUID that follows `sb-`
  pub port : ℕ
  pub joined_at : ℕ

abbrev pub has_id : ℕ → PrivateNetwork → Bool
has_id id n = n.id == id

abbrev pub is_row : ℕ → ℕ → PrivateNetworkMember → Bool
is_row network_id database_id m = m.network_id == network_id && m.database_id == database_id

module _ {W : Type 0} (svc : Services W) where
  unfoldable pub create : ℕ → String → M W PrivateNetwork
  create user_id name = do
    id ← new_uuid svc
    t ← now_utc svc
    taken ←
        gets (λ s. any (λ n. n.id == id || (n.user_id == user_id && str_eq n.name name)) s.networks)
    throw_if taken duplicate_key
    let row : PrivateNetwork = record {
      id = id;
      user_id = user_id;
      name = name;
      docker_network_id = none;
      docker_server_id = none;
      subnet = none;
      gateway = none;
      created_at = t;
    }
    modify (λ s. record s { networks = s.networks ++ (row ∷ []) })
    pure row

  unfoldable pub add_member : ℕ → ℕ → M W PrivateNetworkMember
  add_member network_id database_id = do
    id ← new_uuid svc
    t ← now_utc svc
    taken ← gets (λ s. any (λ m. m.id == id || is_row network_id database_id m) s.members)
    throw_if taken duplicate_key
    known ←
        gets (λ s. any (has_id network_id) s.networks && any (λ d. d.id == database_id) s.instances)
    throw_if (not known) foreign_key
    let row : PrivateNetworkMember = record {
      id = id;
      network_id = network_id;
      database_id = database_id;
      joined_at = t;
    }
    modify (λ s. record s { members = s.members ++ (row ∷ []) })
    pure row

abbrev pub touches : ℕ → NetworkPeering → Bool
touches id p = p.network_a_id == id || p.network_b_id == id

-- The rows of `firewall_rules` that go with network `id`: by their own columns, or by the peering.
abbrev pub rule_goes : ℕ → List NetworkPeering → FirewallRule → Bool
rule_goes id gone r =
    r.source_network_id == id || (r.dest_network_id == id || any (λ p. p.id == r.peering_id) gone)

-- The inner join drops a member whose database is gone.
abbrev pub joined :
    List DatabaseInstance → List PrivateNetworkMember → List PrivateNetworkMemberInfo
joined instances [] = []
joined instances (m ∷ ms) = elim (find (λ d. d.id == m.database_id) instances) [
  | none ↦ joined instances ms
  | some d ↦ info m d ∷ joined instances ms
]
  where
    info : PrivateNetworkMember → DatabaseInstance → PrivateNetworkMemberInfo
    info m d = record {
      database_id = m.database_id;
      database_name = d.name;
      db_type = d.db_type;
      hostname = d.id;
      port = d.port;
      joined_at = m.joined_at;
    }

module _ {W : Type 0} where
  unfoldable pub find_by_id : ℕ → M W (Option PrivateNetwork)
  find_by_id id = gets (λ s. find (has_id id) s.networks)

  unfoldable pub count_by_user : ℕ → M W ℕ
  count_by_user user_id = gets (λ s. count (λ n. n.user_id == user_id) s.networks)

  -- `DELETE`, with the `ON DELETE CASCADE` of migrations 012 and 016.

  unfoldable pub find_by_user : ℕ → M W (List PrivateNetwork)
  find_by_user user_id = gets (λ s.
      sort_by (λ a b. leb b.created_at a.created_at)
        (select (λ n. n.user_id == user_id) s.networks))

  unfoldable pub delete_row : ℕ → M W (Unit {0})
  delete_row id = modify (λ s. record s {
    networks = delete (has_id id) s.networks;
    members = delete (λ m. m.network_id == id) s.members;
    peerings = delete (touches id) s.peerings;
    rules = delete (rule_goes id (select (touches id) s.peerings)) s.rules;
  })

  unfoldable pub update_docker_network_id : ℕ → String → M W (Unit {0})
  update_docker_network_id id v = modify (λ s. record s {
    networks = update (has_id id) (λ n. record n { docker_network_id = some v }) s.networks;
  })

  unfoldable pub update_subnet_info : ℕ → Option String → Option String → M W (Unit {0})
  update_subnet_info id subnet gateway = modify (λ s. record s {
    networks = update (has_id id) (λ n. record n { subnet = subnet; gateway = gateway }) s.networks;
  })

  unfoldable pub update_docker_server_id : ℕ → ℕ → M W (Unit {0})
  update_docker_server_id id server_id = modify (λ s. record s {
    networks = update (has_id id) (λ n. record n { docker_server_id = some server_id }) s.networks;
  })

  unfoldable pub remove_member : ℕ → ℕ → M W (Unit {0})
  remove_member network_id database_id =
      modify (λ s. record s { members = delete (is_row network_id database_id) s.members })

  unfoldable pub count_members : ℕ → M W ℕ
  count_members network_id = gets (λ s. count (λ m. m.network_id == network_id) s.members)

  unfoldable pub is_member : ℕ → ℕ → M W Bool
  is_member network_id database_id = gets (λ s. any (is_row network_id database_id) s.members)

  unfoldable pub find_members_with_db_info : ℕ → M W (List PrivateNetworkMemberInfo)
  find_members_with_db_info network_id = gets (λ s. joined s.instances (
      sort_by (λ a b. leb a.joined_at b.joined_at)
        (select (λ m. m.network_id == network_id) s.members)))

  unfoldable pub find_networks_for_database : ℕ → M W (List PrivateNetwork)
  find_networks_for_database database_id =
      gets (λ s. select (λ n. any (is_row n.id database_id) s.members) s.networks)
