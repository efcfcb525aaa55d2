-- ===== src/Networks/Isolation/Histories.antt =====
-- Histories of the API on private networks (api/src/handlers/private_networks.rs): any users call any
-- endpoints in any order, and the task of a peering runs at any later time.
use dbsaa_s.Prelude.{ℕ, String}
use dbsaa_s.Models.{AuthUser, NetworkPeering}
use dbsaa_s.Platform.{State, Services}
use dbsaa_s.Networks.Handlers.{create_network, delete_network, attach_database, detach_database}
use dbsaa_s.Networks.Peering.{create_peering, provision_peering, delete_peering}
use dbsaa_s.Networks.Rules.{CreateFirewallRuleRequest, create_firewall_rule, delete_firewall_rule}
use dbsaa_s.Networks.Isolation.{IsIsolated}
use dbsaa_s.Networks.Isolation.Handlers.{
  create_network-IsIsolated, delete_network-IsIsolated, detach_database-IsIsolated,
}
use dbsaa_s.Networks.Isolation.Attach.{attach_database-IsIsolated}
use dbsaa_s.Networks.Isolation.Peerings.{
  create_peering-IsIsolated, provision_peering-IsIsolated, delete_own_peering-IsIsolated,
  create_firewall_rule-IsIsolated, delete_firewall_rule-IsIsolated,
}

-- One request, or one run of the task that `create_peering` spawns; each runs to its end, with an
-- error or without.
pub data NetStep {W : Type 0} (svc : Services W) : State W → State W → Type 0 where
  network_created :
      (user : AuthUser) (name : String) (s : State W)
      → NetStep svc s (create_network svc user name s).1
  network_deleted :
      (user : AuthUser) (id : ℕ) (s : State W) → NetStep svc s (delete_network svc user id s).1
  database_attached :
      (user : AuthUser) (network_id database_id : ℕ) (s : State W)
      → NetStep svc s (attach_database svc user network_id database_id s).1
  database_detached :
      (user : AuthUser) (network_id database_id : ℕ) (s : State W)
      → NetStep svc s (detach_database svc user network_id database_id s).1
  peering_created :
      (user : AuthUser) (a b : ℕ) (s : State W) → NetStep svc s (create_peering svc user a b s).1
  peering_provisioned :
      (p : NetworkPeering) (s : State W) → NetStep svc s (provision_peering svc p s).1
  peering_deleted :
      (user : AuthUser) (id : ℕ) (s : State W) → NetStep svc s (delete_peering svc user id s).1
  rule_created :
      (user : AuthUser) (id : ℕ) (req : CreateFirewallRuleRequest) (s : State W)
      → NetStep svc s (create_firewall_rule svc user id req s).1
  rule_deleted :
      (user : AuthUser) (id rule_id : ℕ) (s : State W)
      → NetStep svc s (delete_firewall_rule svc user id rule_id s).1

pub data Reach {W : Type 0} (svc : Services W) : State W → State W → Type 0 where
  done : {s : State W} → Reach svc s s
  next : {s t u : State W} → Reach svc s t → NetStep svc t u → Reach svc s u

module _ {W : Type 0} (svc : Services W) where
  step-IsIsolated : {s t : State W} → NetStep svc s t → IsIsolated s → IsIsolated t
  step-IsIsolated (NetStep.network_created user name s) i =
      (create_network-IsIsolated svc user name s i).at
  step-IsIsolated (NetStep.network_deleted user id s) i =
      (delete_network-IsIsolated svc user id s i).at
  step-IsIsolated (NetStep.database_attached user n d s) i =
      (attach_database-IsIsolated svc user n d s i).at
  step-IsIsolated (NetStep.database_detached user n d s) i =
      (detach_database-IsIsolated svc user n d s i).at
  step-IsIsolated (NetStep.peering_created user a b s) i =
      (create_peering-IsIsolated svc user a b s i).at
  step-IsIsolated (NetStep.peering_provisioned p s) i = (provision_peering-IsIsolated svc p s i).at
  step-IsIsolated (NetStep.peering_deleted user id s) i =
      (delete_own_peering-IsIsolated svc user id s i).at
  step-IsIsolated (NetStep.rule_created user id req s) i =
      (create_firewall_rule-IsIsolated svc user id req s i).at
  step-IsIsolated (NetStep.rule_deleted user id rule_id s) i =
      (delete_firewall_rule-IsIsolated svc user id rule_id s i).at

  -- Whatever the users do and whatever Docker answers, from a state in which every member joins a
  -- database to a network of the same user, every peering joins two networks of its own user, and
  -- every firewall rule is about the two networks of its peering, only such states are reached.
  pub Reach-IsIsolated : {s t : State W} → IsIsolated s → Reach svc s t → IsIsolated t
  Reach-IsIsolated i Reach.done = i
  Reach-IsIsolated i (Reach.next r step) = step-IsIsolated step (Reach-IsIsolated i r)
