-- ===== src/Networks/Rules.antt =====
-- The endpoints on firewall rules: api/src/handlers/private_networks.rs (lines 589 to 715).
use Prim.Native.String.{◌++◌}
use dbsaa_s.Prelude.{
  ℕ, Bool, false, not, Option, none, some, String, str_eq, leb, ◌==◌, ◌&&◌, ◌||◌, map,
  if◌then◌else◌,
}
use dbsaa_s.Prelude.Int.{ℤ, pos, leb_ℤ}
use dbsaa_s.Models.{PrivateNetwork, NetworkPeering, FirewallRule, AuthUser}
use dbsaa_s.Errors.{AppError}
use dbsaa_s.Platform.{M, Services, pure, throw_if, or_throw, ◌>>=◌, ◌>>◌}
use dbsaa_s.Repository.Networks
use dbsaa_s.Repository.Peerings
use dbsaa_s.Provisioner.Firewall.{Rule, apply_firewall_rules}
use dbsaa_s.Networks.Handlers.{resolve_docker_for_server}
use dbsaa_s.Networks.Peering.{own_peering}

abbrev pub max_rules_per_peering : ℕ
max_rules_per_peering = 20

pub record CreateFirewallRuleRequest : Type 0 where
  pub action : String
  pub source_network_id : ℕ
  pub dest_network_id : ℕ
  pub port : Option ℤ
  pub protocol : Option String
  pub priority : Option ℤ
  pub description : Option String

abbrev pub subnet_of : Option PrivateNetwork → String
subnet_of none = "0.0.0.0/0"
subnet_of (some n) = or_any n.subnet
  where
    or_any : Option String → String
    or_any none = "0.0.0.0/0"
    or_any (some subnet) = subnet

-- `port <= 0 || port >= 65536`
abbrev pub bad_port : Option ℤ → Bool
bad_port none = false
bad_port (some p) = leb_ℤ p (pos 0) || leb_ℤ (pos 65536) p

abbrev pub bad_protocol : Option String → Bool
bad_protocol none = false
bad_protocol (some p) = not (str_eq p "tcp") && not (str_eq p "udp")

abbrev pub or_hundred : Option ℤ → ℤ
or_hundred none = pos 100
or_hundred (some p) = p

abbrev pub not_end : NetworkPeering → ℕ → Bool
not_end p id = not (id == p.network_a_id) && not (id == p.network_b_id)

-- A stored rule as the provisioner takes it.
abbrev pub to_rule : NetworkPeering → String → String → FirewallRule → Rule
to_rule p subnet_a subnet_b r = record {
  src_subnet = if r.source_network_id == p.network_a_id then subnet_a else subnet_b;
  dst_subnet = if r.dest_network_id == p.network_a_id then subnet_a else subnet_b;
  port = r.port;
  protocol = r.protocol;
  action = r.action;
}

module _ {W : Type 0} (svc : Services W) where
  unfoldable pub apply_peering_iptables : NetworkPeering → M W (Unit {0})
  apply_peering_iptables p = do
    docker ← resolve_docker_for_server svc p.docker_server_id
    rules ← Peerings.find_rules_by_peering p.id
    net_a ← Networks.find_by_id p.network_a_id
    net_b ← Networks.find_by_id p.network_b_id
    apply_firewall_rules svc docker (svc.show_uuid p.id) ("sb-peer-" ++ svc.show_uuid p.id)
        (map (to_rule p (subnet_of net_a) (subnet_of net_b)) rules)

  abbrev pub reapply : NetworkPeering → M W (Unit {0})
  reapply p = if str_eq p.status "active" then apply_peering_iptables p else pure tt

  -- The checks of a request, in the order of the handler.
  unfoldable pub validate_rule : NetworkPeering → CreateFirewallRuleRequest → M W (Unit {0})
  validate_rule peering req = do
    throw_if (not (str_eq req.action "allow") && not (str_eq req.action "deny"))
        (AppError.bad_request "Action must be 'allow' or 'deny'")
    throw_if (not_end peering req.source_network_id)
        (AppError.bad_request "Source network must be part of this peering")
    throw_if (not_end peering req.dest_network_id)
        (AppError.bad_request "Destination network must be part of this peering")
    throw_if (bad_port req.port) (AppError.bad_request "Port must be between 1 and 65535")
    throw_if (bad_protocol req.protocol) (AppError.bad_request "Protocol must be 'tcp' or 'udp'")

  unfoldable pub create_firewall_rule : AuthUser → ℕ → CreateFirewallRuleRequest → M W FirewallRule
  create_firewall_rule user peering_id req = do
    peering ← own_peering user peering_id
    validate_rule peering req
    count ← Peerings.count_rules_by_peering peering_id
    throw_if (leb max_rules_per_peering count) (AppError.bad_request "Maximum 20 rules per peering")
    rule ←
        Peerings.create_firewall_rule svc peering_id (or_hundred req.priority) req.action
          req.source_network_id req.dest_network_id req.port req.protocol req.description
    reapply peering
    pure rule

  unfoldable pub delete_firewall_rule : AuthUser → ℕ → ℕ → M W String
  delete_firewall_rule user peering_id rule_id = do
    peering ← own_peering user peering_id
    found ← Peerings.find_rule_by_id rule_id
    rule ← or_throw found (AppError.not_found "Rule not found")
    throw_if (not (rule.peering_id == peering_id))
        (AppError.not_found "Rule not found in this peering")
    Peerings.delete_firewall_rule rule_id
    reapply peering
    pure "deleted"
