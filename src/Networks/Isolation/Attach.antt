-- ===== src/Networks/Isolation/Attach.antt =====
-- `attach_database` and the creation of peerings and rules keep the tenants apart: what they check is
-- what the new row needs.
use dbsaa_s.Prelude.{ℕ, ◌≡◌, refl, Option, none, some, String, arith, look-find, look-update, ◌∙◌}
use dbsaa_s.Models.{AuthUser, PrivateNetwork}
use dbsaa_s.Platform.{State, Docker, Services}
use dbsaa_s.Platform.Rules.{
  At, Keeps, IsInner, At-pure, At-gets, At-modify, At-throw_if, At-or_throw, At-bind, At-both,
  At-new_uuid, At-now_utc, Keeps-for_each,
}
use dbsaa_s.Repository.Networks.{
  has_id, add_member, update_docker_network_id, update_subnet_info, update_docker_server_id,
  count_members, is_member, find_members_with_db_info,
}
use dbsaa_s.Repository.Peerings.{find_peerings_for_network}
use dbsaa_s.Networks.Handlers.{settle_server, settle_docker_network, attach_database, active_bridge}
use dbsaa_s.Networks.DockerCalls.{
  Keeps-resolve, Keeps-attach, Keeps-join_bridge, Keeps-create_private_network,
}
use dbsaa_s.Networks.Isolation.{
  IsIsolated, IsIsolated-inner, owner, owner_db, add_member-IsIsolated,
}
use dbsaa_s.Networks.Isolation.Statements.{
  update_docker_network_id-IsIsolated, update_subnet_info-IsIsolated,
  update_docker_server_id-IsIsolated,
}
use dbsaa_s.Networks.Isolation.Handlers.{Iso, At-own_network}

-- Apart, and the network and the database are known to be of user `u`.
abbrev SameUser : {W : Type 0} → ℕ → ℕ → ℕ → State W → Type 0
SameUser u nid did s =
    IsIsolated s × ((owner nid s.networks ≡ some u) × (owner_db did s.instances ≡ some u))

SameUser-inner : {W : Type 0} (u nid did : ℕ) → IsInner (SameUser {W = W} u nid did)
SameUser-inner u nid did s w i = (IsIsolated-inner s w i.0, i.1)

module _ {W : Type 0} (u nid did : ℕ) where
  abbrev J : State W → Type 0
  J = SameUser u nid did

  abbrev K : State W → Type 0
  K s = (owner nid s.networks ≡ some u) × (owner_db did s.instances ≡ some u)

  K-server : (id server : ℕ) → Keeps K (update_docker_server_id id server)
  unfolding update_docker_server_id
  K-server id server s k =
      At-modify _ (look-update _ (has_id id) _ _ (λ n. refl) (λ n. refl) s.networks ∙ k.0, k.1)

  K-network : (id : ℕ) (v : String) → Keeps K (update_docker_network_id id v)
  unfolding update_docker_network_id
  K-network id v s k =
      At-modify _ (look-update _ (has_id id) _ _ (λ n. refl) (λ n. refl) s.networks ∙ k.0, k.1)

  K-subnet : (id : ℕ) (a b : Option String) → Keeps K (update_subnet_info id a b)
  unfolding update_subnet_info
  K-subnet id a b s k =
      At-modify _ (look-update _ (has_id id) _ _ (λ n. refl) (λ n. refl) s.networks ∙ k.0, k.1)

module _ {W : Type 0} (svc : Services W) (u nid did : ℕ) where
  settle_server-SameUser :
      (n : PrivateNetwork) (a b : Option ℕ) → Keeps (SameUser u nid did) (settle_server svc n a b)
  unfolding settle_server
  settle_server-SameUser n none none s j = At-pure n j
  settle_server-SameUser n (some _) b s j = At-pure n j
  settle_server-SameUser n none (some server) s j =
      At-bind _ _
        (At-both (update_docker_server_id-IsIsolated n.id server s j.0)
          (K-server u nid did n.id server s j.1))
        (λ t k. k) λ _ t k. At-pure _ k

  settle_docker_network-SameUser :
      (docker : Docker) (n : PrivateNetwork) (net : Option String)
      → Keeps (SameUser u nid did) (settle_docker_network svc docker n net)
  unfolding settle_docker_network
  settle_docker_network-SameUser docker n (some net) s j = At-pure _ j
  settle_docker_network-SameUser docker n none s j =
      At-bind _ _
        (Keeps-create_private_network svc (SameUser u nid did) (SameUser-inner u nid did) docker _ s
          j)
        (λ t k. k)
        λ made s₁ j₁.
          At-bind _ _
            (At-both (update_docker_network_id-IsIsolated n.id made.0 s₁ j₁.0)
              (K-network u nid did n.id made.0 s₁ j₁.1))
            (λ t k. k)
            λ _ s₂ j₂.
              At-bind _ _
                (At-both (update_subnet_info-IsIsolated n.id made.1 made.2 s₂ j₂.0)
                  (K-subnet u nid did n.id made.1 made.2 s₂ j₂.1))
                (λ t k. k) λ _ s₃ j₃. At-pure _ j₃

  add_member-At : (s : State W) → SameUser u nid did s → At Iso s (add_member svc nid did)
  unfolding add_member
  add_member-At s j =
      At-bind _ _ (At-new_uuid svc (SameUser-inner u nid did) j) (λ t k. k.0)
        λ id s₁ j₁.
          At-bind _ _ (At-now_utc svc (SameUser-inner u nid did) j₁) (λ t k. k.0)
            λ now s₂ j₂. At-gets _ _ (
              At-throw_if _ _ _ j₂.0 λ _. At-gets _ _ (
                At-throw_if _ _ _ j₂.0 λ _.
                  At-bind _ _ (At-modify _ (add_member-IsIsolated s₂ j₂.0 _ (u, j₂.1.0, j₂.1.1)))
                    (λ t k. k) λ _ s₃ j₃. At-pure _ j₃))

module _ {W : Type 0} (svc : Services W) where
  pub attach_database-IsIsolated :
      (user : AuthUser) (nid did : ℕ) → Keeps Iso (attach_database svc user nid did)
  unfolding attach_database is_member count_members find_peerings_for_network
      find_members_with_db_info
  attach_database-IsIsolated user nid did s i =
      At-own_network user nid _ i
        (λ n e own. At-gets _ _ (
          At-or_throw _ _ _ i λ d f. At-throw_if _ _ _ i λ mine. At-throw_if _ _ _ i λ _.
            At-or_throw _ _ _ i λ cid _. At-throw_if _ _ _ i λ _. At-gets _ _ (
              At-throw_if _ _ _ i λ _. At-gets _ _ (
                At-throw_if _ _ _ i λ _.
                  let u : ℕ = user.id in
                  let inner : IsInner (SameUser u nid did) = SameUser-inner u nid did in
                  let j : SameUser u nid did s = (
                    i,
                    (
                      look-find _ _ s.networks n e ∙ cc,
                      look-find _ _ s.instances d f ∙ ground arith,
                    ),
                  ) in
                  At-bind _ _ (settle_server-SameUser svc u nid did n _ _ s j) (λ t k. k.0)
                    λ net s₁ j₁.
                      At-bind _ _ (Keeps-resolve svc _ inner _ s₁ j₁) (λ t k. k.0)
                        λ docker s₂ j₂.
                          At-bind _ _
                            (settle_docker_network-SameUser svc u nid did docker net _ s₂ j₂)
                            (λ t k. k.0)
                            λ made s₃ j₃.
                              At-bind _ _ (Keeps-attach svc _ inner docker cid _ s₃ j₃) (λ t k. k.0)
                                λ _ s₄ j₄.
                                  At-bind _ _ (add_member-At svc u nid did s₄ j₄) (λ t k. k)
                                    λ _ s₅ i₅. At-gets _ _ (
                                      At-bind _ _
                                        (Keeps-for_each _ _
                                          (λ p.
                                            Keeps-join_bridge svc Iso IsIsolated-inner docker cid
                                              (active_bridge svc p))
                                          s₅ i₅)
                                        (λ t k. k) λ _ s₆ i₆. At-gets _ _ (At-pure _ i₆))))))
        svc
