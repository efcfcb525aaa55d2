-- ===== src/Tests/NetworkExamples.antt =====
-- Examples for the API on private networks and for the firewall scripts.
use Prim.Native.String.{◌++◌, slice}
use dbsaa_s.Prelude.{ℕ, ◌≡◌, refl, arith, [], ◌∷◌, none, some, ◌&&◌}
use dbsaa_s.Prelude.Int.{pos}
use dbsaa_s.Errors.{AppError, err}
use dbsaa_s.Platform.{State, pure, ◌>>◌}
use dbsaa_s.Provisioner.Host.{exec_on_host}
use dbsaa_s.Provisioner.Firewall.{Rule, apply_firewall_rules}
use dbsaa_s.Provisioner.Firewall.Commands.{script_of}
use dbsaa_s.Provisioner.Firewall.Scripts.{Guards, value_ok, rules_ok, apply_firewall_rules-Guards}
use dbsaa_s.Networks.Handlers.{
  get_network, create_network, delete_network, attach_database, detach_database,
}
use dbsaa_s.Networks.Peering.{get_peering, delete_peering}
use dbsaa_s.Networks.Rules.{CreateFirewallRuleRequest, create_firewall_rule, delete_firewall_rule}
use dbsaa_s.Networks.Refusals.{network-forbidden, peering-forbidden}
use dbsaa_s.Networks.Isolation.{IsIsolated}
use dbsaa_s.Networks.Isolation.Histories.{NetStep, Reach, Reach-IsIsolated}
use dbsaa_s.Tests.Fixtures.{svc, alice, bob, empty, shared}

-- Alice creates a network; Bob tries to delete it; Alice attaches her database.
abbrev created : State ℕ
created = (create_network svc alice "home" empty).1

abbrev attacked : State ℕ
attacked = (delete_network svc bob 100 created).1

abbrev attached : State ℕ
attached = (attach_database svc alice 100 50 attacked).1

Reach-IsIsolated_example : IsIsolated attached
Reach-IsIsolated_example =
    Reach-IsIsolated svc (record { members_ok = tt; peerings_ok = tt; rules_ok = tt })
      (Reach.next
        (Reach.next (Reach.next Reach.done (NetStep.network_created alice "home" empty))
          (NetStep.network_deleted bob 100 created))
        (NetStep.database_attached alice 100 50 attacked))

network-forbidden_example :
    (get_network svc bob 1 shared ≡ (err AppError.forbidden, shared))
    × (delete_network svc bob 1 shared ≡ (err AppError.forbidden, shared))
    × ((database_id : ℕ)
        → attach_database svc bob 1 database_id shared ≡ (err AppError.forbidden, shared))
    × ((database_id : ℕ)
        → detach_database svc bob 1 database_id shared ≡ (err AppError.forbidden, shared))
network-forbidden_example = network-forbidden svc bob 1 shared refl (omega arith)

peering-forbidden_example :
    (get_peering bob 3 shared ≡ (err AppError.forbidden, shared))
    × (delete_peering svc bob 3 shared ≡ (err AppError.forbidden, shared))
    × ((req : CreateFirewallRuleRequest)
        → create_firewall_rule svc bob 3 req shared ≡ (err AppError.forbidden, shared))
    × ((rule_id : ℕ)
        → delete_firewall_rule svc bob 3 rule_id shared ≡ (err AppError.forbidden, shared))
peering-forbidden_example = peering-forbidden svc bob 3 shared refl (omega arith)

abbrev web : Rule
web = record {
  src_subnet = "10.0.1.0/24";
  dst_subnet = "10.0.2.0/24";
  port = some (pos 443);
  protocol = some "tcp";
  action = "allow";
}

apply_firewall_rules-Guards_example :
    Guards
      (value_ok svc "0a1b2c3d" && (value_ok svc "sb-peer-0a1b2c3d" && rules_ok svc (web ∷ [])))
      empty
      (apply_firewall_rules svc none "0a1b2c3d" "sb-peer-0a1b2c3d" (web ∷ []))
      ((exec_on_host svc none
            (script_of ("sb_peer_" ++ slice "0a1b2c3d" 0 8) "sb-peer-0a1b2c3d" (web ∷ []))
          >> pure tt)
        empty)
apply_firewall_rules-Guards_example =
    apply_firewall_rules-Guards svc none "0a1b2c3d" "sb-peer-0a1b2c3d" (web ∷ []) empty
