-- ===== src/Networks/Isolation/Statements.antt =====
-- The SQL statements of api/src/repository/private_network_repo.rs keep the tenants apart.
use dbsaa_s.Prelude.{ℕ, refl, Option, String}
use dbsaa_s.Platform.Rules.{Keeps, At-modify}
use dbsaa_s.Repository.Networks.{
  delete_row, update_docker_network_id, update_subnet_info, update_docker_server_id, remove_member,
}
use dbsaa_s.Repository.Peerings.{
  update_peering_status, update_peering_bridge, delete_peering, delete_firewall_rule,
}
use dbsaa_s.Networks.Isolation.{
  IsIsolated, delete_member-IsIsolated, delete_rule-IsIsolated, update_network, update_peering,
  drop_peering, drop_network,
}

module _ {W : Type 0} where
  pub delete_row-IsIsolated : (id : ℕ) → Keeps (IsIsolated {W = W}) (delete_row id)
  unfolding delete_row
  delete_row-IsIsolated id s i = At-modify _ (drop_network s i id)

  pub delete_peering-IsIsolated : (id : ℕ) → Keeps (IsIsolated {W = W}) (delete_peering id)
  unfolding delete_peering
  delete_peering-IsIsolated id s i = At-modify _ (drop_peering s i id)

  pub delete_rule_row-IsIsolated : (id : ℕ) → Keeps (IsIsolated {W = W}) (delete_firewall_rule id)
  unfolding delete_firewall_rule
  delete_rule_row-IsIsolated id s i = At-modify _ (delete_rule-IsIsolated s i _)

  pub remove_member-IsIsolated :
      (network_id database_id : ℕ)
      → Keeps (IsIsolated {W = W}) (remove_member network_id database_id)
  unfolding remove_member
  remove_member-IsIsolated network_id database_id s i = At-modify _ (delete_member-IsIsolated s i _)

  pub update_docker_network_id-IsIsolated :
      (id : ℕ) (v : String) → Keeps (IsIsolated {W = W}) (update_docker_network_id id v)
  unfolding update_docker_network_id
  update_docker_network_id-IsIsolated id v s i =
      At-modify _ (update_network s i id _ (λ n. refl) (λ n. refl))

  pub update_subnet_info-IsIsolated :
      (id : ℕ) (a b : Option String) → Keeps (IsIsolated {W = W}) (update_subnet_info id a b)
  unfolding update_subnet_info
  update_subnet_info-IsIsolated id a b s i =
      At-modify _ (update_network s i id _ (λ n. refl) (λ n. refl))

  pub update_docker_server_id-IsIsolated :
      (id server : ℕ) → Keeps (IsIsolated {W = W}) (update_docker_server_id id server)
  unfolding update_docker_server_id
  update_docker_server_id-IsIsolated id server s i =
      At-modify _ (update_network s i id _ (λ n. refl) (λ n. refl))

  pub update_peering_status-IsIsolated :
      (id : ℕ) (v : String) → Keeps (IsIsolated {W = W}) (update_peering_status id v)
  unfolding update_peering_status
  update_peering_status-IsIsolated id v s i =
      At-modify _ (update_peering s i id _ (λ nets p h. h) (λ p. refl) (λ p. (refl, refl)))

  pub update_peering_bridge-IsIsolated :
      (id : ℕ) (v : String) → Keeps (IsIsolated {W = W}) (update_peering_bridge id v)
  unfolding update_peering_bridge
  update_peering_bridge-IsIsolated id v s i =
      At-modify _ (update_peering s i id _ (λ nets p h. h) (λ p. refl) (λ p. (refl, refl)))
