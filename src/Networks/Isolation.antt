-- ===== src/Networks/Isolation.antt =====
-- Tenants are kept apart: what a member, a peering and a firewall rule of
-- api/src/handlers/private_networks.rs may connect.
pub mod Statements
pub mod Handlers
pub mod Attach
pub mod Peerings
pub mod Histories
use dbsaa_s.Prelude.{
  ℕ, ◌≡◌, refl, ◌≢◌, ◌⊎◌, Bool, true, false, Option, none, some, List, [], ◌∷◌, ◌++◌, String, arith,
  ◌==◌, ◌||◌, ==→eq, look, look-append, look-update, look-delete, any-select_of_disjoint, All,
  All-map, All-append, All-delete, All-delete_map, All-update, any, select, delete, update, sym,
  ◌∙◌,
}
use dbsaa_s.Models.{
  DatabaseInstance, PrivateNetwork, PrivateNetworkMember, NetworkPeering, FirewallRule,
}
use dbsaa_s.Platform.{State, M, modify}
use dbsaa_s.Platform.Rules.{At, Keeps, IsInner, At-modify}
use dbsaa_s.Repository.Networks.{
  has_id, is_row, touches, rule_goes, delete_row, update_docker_network_id, update_subnet_info,
  update_docker_server_id, remove_member,
}
use dbsaa_s.Repository.Peerings.{
  is_peering, update_peering_status, update_peering_bridge, delete_peering, delete_firewall_rule,
}

-- Whose network, and whose database, an id names.
abbrev pub owner : ℕ → List PrivateNetwork → Option ℕ
owner id = look (has_id id) (λ n. n.user_id)

abbrev pub owner_db : ℕ → List DatabaseInstance → Option ℕ
owner_db id = look (λ d. d.id == id) (λ d. d.user_id)

-- The two networks that a peering's id names.
abbrev pub ends : ℕ → List NetworkPeering → Option (ℕ × ℕ)
ends id = look (is_peering id) (λ p. (p.network_a_id, p.network_b_id))

-- A member joins a database to a network of the same user.
abbrev pub MemberOk : List PrivateNetwork → List DatabaseInstance → PrivateNetworkMember → Type 0
MemberOk nets dbs m =
    (u : ℕ) × (owner m.network_id nets ≡ some u) × (owner_db m.database_id dbs ≡ some u)

-- A peering joins two networks of its own user.
abbrev pub PeeringOk : List PrivateNetwork → NetworkPeering → Type 0
PeeringOk nets p =
    (owner p.network_a_id nets ≡ some p.user_id)
    × (owner p.network_b_id nets ≡ some p.user_id)
    × (p.network_a_id ≢ p.network_b_id)

abbrev pub IsEnd : ℕ → ℕ × ℕ → Type 0
IsEnd id e = (id ≡ e.0) ⊎ (id ≡ e.1)

-- A rule is about the two networks of its peering.
abbrev pub RuleOk : List NetworkPeering → FirewallRule → Type 0
RuleOk ps r =
    (e : ℕ × ℕ) × (ends r.peering_id ps ≡ some e)
    × IsEnd r.source_network_id e
    × IsEnd r.dest_network_id e

pub record IsIsolated {W : Type 0} (s : State W) : Type 0 where
  pub members_ok : All (MemberOk s.networks s.instances) s.members
  pub peerings_ok : All (PeeringOk s.networks) s.peerings
  pub rules_ok : All (RuleOk s.peerings) s.rules

pub IsIsolated-inner : {W : Type 0} → IsInner (IsIsolated {W = W})
IsIsolated-inner s w i = record {
  members_ok = i.members_ok;
  peerings_ok = i.peerings_ok;
  rules_ok = i.rules_ok;
}

-- The owners that were known are still known.
abbrev SameOwners : List PrivateNetwork → List PrivateNetwork → Type 0
SameOwners nets nets' = (id u : ℕ) → owner id nets ≡ some u → owner id nets' ≡ some u

module _ {W : Type 0} (s : State W) (i : IsIsolated s) where
  pub with_networks :
      (nets : List PrivateNetwork)
      → SameOwners s.networks nets
      → IsIsolated (record s { networks = nets })
  with_networks nets same = record {
    members_ok = All-map _ _ (λ m (u, a, b). (u, same m.network_id u a, b)) s.members i.members_ok;
    peerings_ok =
        All-map _ _ (λ p (a, b, ne). (same p.network_a_id _ a, same p.network_b_id _ b, ne))
          s.peerings i.peerings_ok;
    rules_ok = i.rules_ok;
  }

  pub add_network-IsIsolated :
      (n : PrivateNetwork) → IsIsolated (record s { networks = s.networks ++ (n ∷ []) })
  add_network-IsIsolated n =
      with_networks (s.networks ++ (n ∷ [])) (λ id u e. look-append _ _ s.networks _ u e)

  pub update_network :
      (id : ℕ) (g : PrivateNetwork → PrivateNetwork)
      → ((n : PrivateNetwork) → (g n).id ≡ n.id)
      → ((n : PrivateNetwork) → (g n).user_id ≡ n.user_id)
      → IsIsolated (record s { networks = update (has_id id) g s.networks })
  update_network id g same keep = with_networks (update (has_id id) g s.networks) λ j u e.
      look-update (has_id j) (has_id id) (λ n. n.user_id) g (λ n. cc (same n)) keep s.networks ∙ e

  pub add_member-IsIsolated :
      (m : PrivateNetworkMember)
      → MemberOk s.networks s.instances m
      → IsIsolated (record s { members = s.members ++ (m ∷ []) })
  add_member-IsIsolated m h = record {
    members_ok = All-append _ s.members (m ∷ []) i.members_ok (h, tt);
    peerings_ok = i.peerings_ok;
    rules_ok = i.rules_ok;
  }

  pub add_peering-IsIsolated :
      (p : NetworkPeering)
      → PeeringOk s.networks p
      → IsIsolated (record s { peerings = s.peerings ++ (p ∷ []) })
  add_peering-IsIsolated p h = record {
    members_ok = i.members_ok;
    peerings_ok = All-append _ s.peerings (p ∷ []) i.peerings_ok (h, tt);
    rules_ok =
        All-map _ _ (λ r (e, a, b, c). (e, look-append _ _ s.peerings (p ∷ []) e a, b, c)) s.rules
          i.rules_ok;
  }

  pub add_rule-IsIsolated :
      (r : FirewallRule)
      → RuleOk s.peerings r
      → IsIsolated (record s { rules = s.rules ++ (r ∷ []) })
  add_rule-IsIsolated r h = record {
    members_ok = i.members_ok;
    peerings_ok = i.peerings_ok;
    rules_ok = All-append _ s.rules (r ∷ []) i.rules_ok (h, tt);
  }

  pub update_peering :
      (id : ℕ) (g : NetworkPeering → NetworkPeering)
      → ((nets : List PrivateNetwork) (p : NetworkPeering)
          → PeeringOk nets p
          → PeeringOk nets (g p))
      → ((p : NetworkPeering) → (g p).id ≡ p.id)
      → ((p : NetworkPeering)
          → ((g p).network_a_id ≡ p.network_a_id) × ((g p).network_b_id ≡ p.network_b_id))
      → IsIsolated (record s { peerings = update (is_peering id) g s.peerings })
  update_peering id g fine same keep = record {
    members_ok = i.members_ok;
    peerings_ok = All-update _ (is_peering id) g (fine s.networks) s.peerings i.peerings_ok;
    rules_ok = All-map _ _ (λ r (e, a, b, c). (e, moved r.peering_id ∙ a, b, c)) s.rules i.rules_ok;
  }
    where
      moved : (j : ℕ) → ends j (update (is_peering id) g s.peerings) ≡ ends j s.peerings
      moved j =
          look-update (is_peering j) (is_peering id) (λ p. (p.network_a_id, p.network_b_id)) g
            (λ p. cc (same p)) (λ p. ground (arith, keep p)) s.peerings

  pub delete_member-IsIsolated :
      (q : PrivateNetworkMember → Bool) → IsIsolated (record s { members = delete q s.members })
  delete_member-IsIsolated q = record {
    members_ok = All-delete _ q s.members i.members_ok;
    peerings_ok = i.peerings_ok;
    rules_ok = i.rules_ok;
  }

  pub delete_rule-IsIsolated :
      (q : FirewallRule → Bool) → IsIsolated (record s { rules = delete q s.rules })
  delete_rule-IsIsolated q = record {
    members_ok = i.members_ok;
    peerings_ok = i.peerings_ok;
    rules_ok = All-delete _ q s.rules i.rules_ok;
  }

  pub drop_peering :
      (id : ℕ)
      → IsIsolated (record s {
        peerings = delete (is_peering id) s.peerings;
        rules = delete (λ r. r.peering_id == id) s.rules;
      })
  drop_peering id = record {
    members_ok = i.members_ok;
    peerings_ok = All-delete _ (is_peering id) s.peerings i.peerings_ok;
    rules_ok =
        All-delete_map _ _ _ (λ r other (e, a, b, c). (e, moved r.peering_id other ∙ a, b, c))
          s.rules i.rules_ok;
  }
    where
      moved :
          (j : ℕ)
          → (j == id) ≡ false
          → ends j (delete (is_peering id) s.peerings) ≡ ends j s.peerings
      moved j other =
          look-delete _ (is_peering id) _ s.peerings
            (any-select_of_disjoint _ (is_peering id) (λ p e. ground arith) s.peerings)

  owner-delete :
      (id j : ℕ) → (j == id) ≡ false → owner j (delete (has_id id) s.networks) ≡ owner j s.networks
  owner-delete id j other =
      look-delete _ (has_id id) _ s.networks
        (any-select_of_disjoint _ (has_id id) (λ n e. ground arith) s.networks)

  pub drop_network :
      (id : ℕ)
      → IsIsolated (record s {
        networks = delete (has_id id) s.networks;
        members = delete (λ m. m.network_id == id) s.members;
        peerings = delete (touches id) s.peerings;
        rules = delete (rule_goes id (select (touches id) s.peerings)) s.rules;
      })
  drop_network id = record {
    members_ok =
        All-delete_map _ _ _ (λ m other (u, a, b). (u, owner-delete id m.network_id other ∙ a, b))
          s.members i.members_ok;
    peerings_ok =
        All-delete_map _ _ _
          (λ p other (a, b, ne). (
            owner-delete id p.network_a_id (ground arith) ∙ a,
            owner-delete id p.network_b_id (ground arith) ∙ b,
            ne,
          ))
          s.peerings i.peerings_ok;
    rules_ok =
        All-delete_map _ _ _
          (λ r other (e, a, b, c).
            (e, look-delete _ (touches id) _ s.peerings (ground arith) ∙ a, b, c))
          s.rules i.rules_ok;
  }
