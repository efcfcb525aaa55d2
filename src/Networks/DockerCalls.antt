-- ===== src/Networks/DockerCalls.antt =====
-- The parts of the network endpoints that only talk to Docker leave the tables alone: they keep every
-- property that says nothing of the world outside.
use dbsaa_s.Prelude.{
  ℕ, Bool, Option, none, some, List, [], ◌∷◌, String, Bool-cases, inl, inr, str_eq, ◌||◌,
}
use dbsaa_s.Models.{DockerServer, PrivateNetwork, NetworkPeering}
use dbsaa_s.Platform.{State, Docker, Services, ignore}
use dbsaa_s.Platform.Rules.{
  Keeps, IsInner, At-pure, At-gets, At-throw_if, At-or_throw, At-call, At-ignore, At-attempt,
  Keeps-throw_if, At-bind, At-new_uuid, Keeps-for_each,
}
use dbsaa_s.Repository.Networks.{PrivateNetworkMemberInfo, find_members_with_db_info, find_by_id}
use dbsaa_s.Repository.Peerings.{find_rules_by_peering}
use dbsaa_s.Provisioner.{
  connect_to_server, create_network_with_opts, create_private_network, attach_container_to_network,
  detach_container_from_network, remove_private_network, create_peering_network,
}
use dbsaa_s.Provisioner.Host.{exec_on_host, read_logs}
use dbsaa_s.Provisioner.Firewall.{
  Rule, check_port, validate_nft_value, check_rule, add_rules, apply_firewall_rules,
  remove_firewall_rules,
}
use dbsaa_s.Networks.Handlers.{
  resolve_docker_for_server, detach_member, detach_members, remove_bridge, remove_docker_network,
  join_bridge, leave_bridge, detach_container, active_bridge, leave_docker,
}
use dbsaa_s.Networks.Peering.{attach_container, attach_member, attach_members}
use dbsaa_s.Repository.Peerings.{find_peerings_for_network}
use dbsaa_s.Prelude.Int.{ℤ}
use dbsaa_s.Networks.Rules.{apply_peering_iptables, reapply}

module _ {W : Type 0} (svc : Services W) (I : State W → Type 0) (inner : IsInner I) where
  pub Keeps-connect_to_server : (server : DockerServer) → Keeps I (connect_to_server svc server)
  unfolding connect_to_server
  Keeps-connect_to_server server s i =
      elim (Bool-cases
        (str_eq server.url "local" || str_eq server.url "unix:///var/run/docker.sock")) [
          | inl here ↦ rw here (At-call _ inner i)
          | inr away ↦ rw away (
              At-or_throw _ _ _ i λ ca _.
                At-or_throw _ _ _ i λ cert _. At-or_throw _ _ _ i λ key _. At-call _ inner i)
        ]

  pub Keeps-resolve : (server : Option ℕ) → Keeps I (resolve_docker_for_server svc server)
  unfolding resolve_docker_for_server
  Keeps-resolve none s i = At-pure none i
  Keeps-resolve (some sid) s i = At-gets _ _ (
      At-or_throw _ _ _ i λ server _.
        At-bind _ _ (Keeps-connect_to_server server s i) (λ s' j. j) λ a s' j. At-pure _ j)

  pub Keeps-create_network_with_opts :
      (docker : Docker) (name : String) (internal : Bool)
      → Keeps I (create_network_with_opts svc docker name internal)
  unfolding create_network_with_opts
  Keeps-create_network_with_opts docker name internal s i =
      At-bind _ _ (At-call _ inner i) (λ s' j. j) λ id s' j. At-throw_if _ _ _ j λ _. At-pure _ j

  pub Keeps-create_peering_network :
      (docker : Docker) (name : String) → Keeps I (create_peering_network svc docker name)
  unfolding create_peering_network
  Keeps-create_peering_network docker name s i =
      At-bind _ _ (At-call _ inner i) (λ s' j. j) λ id s' j. At-throw_if _ _ _ j λ _. At-pure _ j

  pub Keeps-create_private_network :
      (docker : Docker) (name : String) → Keeps I (create_private_network svc docker name)
  unfolding create_private_network
  Keeps-create_private_network docker name s i =
      At-bind _ _ (Keeps-create_network_with_opts docker name _ s i) (λ s' j. j)
        λ id s' j. At-bind _ _ (At-attempt _ (At-call _ inner j)) (λ t k. k) λ info t k. At-pure _ k

  pub Keeps-attach :
      (docker : Docker) (cid net : String)
      → Keeps I (attach_container_to_network svc docker cid net)
  unfolding attach_container_to_network
  Keeps-attach docker cid net s i = At-call _ inner i

  Keeps-detach :
      (docker : Docker) (cid net : String)
      → Keeps I (ignore (detach_container_from_network svc docker cid net))
  unfolding detach_container_from_network
  Keeps-detach docker cid net s i = At-ignore _ (At-call _ inner i)

  Keeps-remove :
      (docker : Docker) (net : String) → Keeps I (ignore (remove_private_network svc docker net))
  unfolding remove_private_network
  Keeps-remove docker net s i = At-ignore _ (At-call _ inner i)

  Keeps-detach_container :
      (docker : Docker) (net : String) (cid : Option String)
      → Keeps I (detach_container svc docker net cid)
  Keeps-detach_container docker net none s i = At-pure tt i
  Keeps-detach_container docker net (some cid) s i = Keeps-detach docker cid net s i

  Keeps-attach_container :
      (docker : Docker) (net : String) (cid : Option String)
      → Keeps I (attach_container svc docker net cid)
  Keeps-attach_container docker net none s i = At-pure tt i
  Keeps-attach_container docker net (some cid) s i = At-ignore _ (Keeps-attach docker cid net s i)

  Keeps-detach_member :
      (docker : Docker) (net : String) (m : PrivateNetworkMemberInfo)
      → Keeps I (detach_member svc docker net m)
  unfolding detach_member
  Keeps-detach_member docker net m s i = At-gets _ _ (Keeps-detach_container docker net _ s i)

  Keeps-attach_member :
      (docker : Docker) (net : String) (m : PrivateNetworkMemberInfo)
      → Keeps I (attach_member svc docker net m)
  unfolding attach_member
  Keeps-attach_member docker net m s i = At-gets _ _ (Keeps-attach_container docker net _ s i)

  pub Keeps-detach_members :
      (docker : Docker) (net : String) (id : ℕ) → Keeps I (detach_members svc docker net id)
  unfolding detach_members find_members_with_db_info
  Keeps-detach_members docker net id s i =
      At-gets _ _ (Keeps-for_each _ _ (Keeps-detach_member docker net) s i)

  pub Keeps-attach_members :
      (docker : Docker) (net : String) (id : ℕ) → Keeps I (attach_members svc docker net id)
  unfolding attach_members find_members_with_db_info
  Keeps-attach_members docker net id s i =
      At-gets _ _ (Keeps-for_each _ _ (Keeps-attach_member docker net) s i)

  Keeps-exec_on_host :
      (docker : Docker) (script : String) → Keeps I (exec_on_host svc docker script)
  unfolding exec_on_host read_logs
  Keeps-exec_on_host docker script s i =
      At-bind _ _ (At-new_uuid svc inner i) (λ s' j. j)
        λ u s₁ i₁.
          At-bind _ _ (At-call _ inner i₁) (λ s' j. j)
            λ cid s₂ i₂.
              At-bind _ _ (At-call _ inner i₂) (λ s' j. j) λ _ s₃ i₃. record { at = inner s₃ _ i₃ }

  pub Keeps-remove_firewall_rules :
      (docker : Docker) (id : String) → Keeps I (remove_firewall_rules svc docker id)
  unfolding remove_firewall_rules
  Keeps-remove_firewall_rules docker id s i = At-ignore _ (Keeps-exec_on_host docker _ s i)

  pub Keeps-remove_bridge :
      (p : NetworkPeering) (a b : ℕ) (bridge : Option String)
      → Keeps I (remove_bridge svc p a b bridge)
  unfolding remove_bridge
  Keeps-remove_bridge p a b none s i = At-pure tt i
  Keeps-remove_bridge p a b (some bridge) s i =
      At-bind _ _ (Keeps-resolve p.docker_server_id s i) (λ s' j. j)
        λ d s₁ i₁.
          At-bind _ _ (Keeps-remove_firewall_rules d _ s₁ i₁) (λ s' j. j)
            λ _ s₂ i₂.
              At-bind _ _ (Keeps-detach_members d bridge a s₂ i₂) (λ s' j. j)
                λ _ s₃ i₃.
                  At-bind _ _ (Keeps-detach_members d bridge b s₃ i₃) (λ s' j. j)
                    λ _ s₄ i₄. Keeps-remove d bridge s₄ i₄

  pub Keeps-remove_docker_network :
      (n : PrivateNetwork) (net : Option String) → Keeps I (remove_docker_network svc n net)
  unfolding remove_docker_network
  Keeps-remove_docker_network n none s i = At-pure tt i
  Keeps-remove_docker_network n (some net) s i =
      At-bind _ _ (Keeps-resolve n.docker_server_id s i) (λ s' j. j)
        λ d s₁ i₁.
          At-bind _ _ (Keeps-detach_members d net n.id s₁ i₁) (λ s' j. j)
            λ _ s₂ i₂. Keeps-remove d net s₂ i₂

  pub Keeps-join_bridge :
      (docker : Docker) (cid : String) (bridge : Option String)
      → Keeps I (join_bridge svc docker cid bridge)
  Keeps-join_bridge docker cid none s i = At-pure tt i
  Keeps-join_bridge docker cid (some bridge) s i = At-ignore _ (Keeps-attach docker cid bridge s i)

  pub Keeps-leave_docker :
      (n : PrivateNetwork) (cid net : Option String) → Keeps I (leave_docker svc n cid net)
  unfolding leave_docker find_peerings_for_network
  Keeps-leave_docker n none net s i = At-pure tt i
  Keeps-leave_docker n (some cid) none s i = At-pure tt i
  Keeps-leave_docker n (some cid) (some net) s i =
      At-bind _ _ (Keeps-resolve n.docker_server_id s i) (λ s' j. j)
        λ d s₁ i₁.
          At-bind _ _ (Keeps-detach d cid net s₁ i₁) (λ s' j. j)
            λ _ s₂ i₂.
              At-gets _ _ (Keeps-for_each _ _ (λ p. leaves d cid (active_bridge svc p)) s₂ i₂)
    where
      leaves :
          (d : Docker) (cid : String) (bridge : Option String)
          → Keeps I (leave_bridge svc d cid bridge)
      leaves d cid none s i = At-pure tt i
      leaves d cid (some bridge) s i = Keeps-detach d cid bridge s i

  Keeps-validate : (val field : String) → Keeps I (validate_nft_value svc val field)
  unfolding validate_nft_value
  Keeps-validate val field s i = At-throw_if _ _ _ i λ _. Keeps-throw_if _ _ s i

  Keeps-check_rule : (r : Rule) → Keeps I (check_rule svc r)
  unfolding check_rule
  Keeps-check_rule r s i =
      At-bind _ _ (Keeps-validate _ _ s i) (λ s' j. j)
        λ _ s₁ i₁.
          At-bind _ _ (Keeps-validate _ _ s₁ i₁) (λ s' j. j)
            λ _ s₂ i₂.
              At-bind _ _ (Keeps-validate _ _ s₂ i₂) (λ s' j. j) λ _ s₃ i₃. port r.port s₃ i₃
    where
      port : (p : Option ℤ) → Keeps I (check_port svc p)
      port none s i = At-pure tt i
      port (some p) s i = Keeps-throw_if _ _ s i

  Keeps-add_rules :
      (table bridge : String) (rs : List Rule) (script : String)
      → Keeps I (add_rules svc table bridge rs script)
  unfolding add_rules
  Keeps-add_rules table bridge [] script s i = At-pure script i
  Keeps-add_rules table bridge (r ∷ rs) script s i =
      At-bind _ _ (Keeps-check_rule r s i) (λ s' j. j)
        λ _ s₁ i₁. Keeps-add_rules table bridge rs _ s₁ i₁

  Keeps-apply_firewall_rules :
      (docker : Docker) (id bridge : String) (rs : List Rule)
      → Keeps I (apply_firewall_rules svc docker id bridge rs)
  unfolding apply_firewall_rules
  Keeps-apply_firewall_rules docker id bridge rs s i =
      At-bind _ _ (Keeps-validate _ _ s i) (λ s' j. j)
        λ _ s₁ i₁.
          At-bind _ _ (Keeps-validate _ _ s₁ i₁) (λ s' j. j)
            λ _ s₂ i₂.
              At-bind _ _ (Keeps-add_rules _ _ rs _ s₂ i₂) (λ s' j. j)
                λ script s₃ i₃.
                  At-bind _ _ (Keeps-exec_on_host docker _ s₃ i₃) (λ s' j. j)
                    λ _ s₄ i₄. At-pure tt i₄

  pub Keeps-reapply : (p : NetworkPeering) → Keeps I (reapply svc p)
  unfolding apply_peering_iptables find_rules_by_peering find_by_id
  Keeps-reapply p s i = elim (Bool-cases (str_eq p.status "active")) [
    | inr idle ↦ rw idle (At-pure tt i)
    | inl active ↦ rw active (
        At-bind _ _ (Keeps-resolve p.docker_server_id s i) (λ s' j. j)
          λ d s₁ i₁.
            At-gets _ _ (At-gets _ _ (At-gets _ _ (Keeps-apply_firewall_rules d _ _ _ s₁ i₁))))
  ]
