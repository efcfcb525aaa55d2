-- ===== src/Networks/Isolation/Handlers.antt =====
-- The endpoints of api/src/handlers/private_networks.rs keep the tenants apart.
use dbsaa_s.Prelude.{ℕ, ◌≡◌, some, String, arith, find}
use dbsaa_s.Models.{AuthUser, PrivateNetwork, NetworkPeering}
use dbsaa_s.Platform.{State, M, Services, ◌>>=◌}
use dbsaa_s.Platform.Rules.{
  At, Keeps, At-pure, At-gets, At-modify, At-throw_if, At-or_throw, At-bind, At-assoc, At-pure_bind,
  At-new_uuid, At-now_utc, Keeps-for_each,
}
use dbsaa_s.Repository.Networks.{
  has_id, find_by_id, create, count_by_user, find_members_with_db_info,
}
use dbsaa_s.Repository.Peerings.{is_peering, find_peering_by_id, find_peerings_for_network}
use dbsaa_s.Networks.Handlers.{
  own_network, create_network, delete_network, remove_peering_of, detach_database,
}
use dbsaa_s.Networks.Peering.{own_peering}
use dbsaa_s.Networks.DockerCalls.{
  Keeps-remove_bridge, Keeps-remove_docker_network, Keeps-leave_docker,
}
use dbsaa_s.Networks.Isolation.{IsIsolated, IsIsolated-inner, add_network-IsIsolated}
use dbsaa_s.Networks.Isolation.Statements.{
  delete_row-IsIsolated, delete_peering-IsIsolated, remove_member-IsIsolated,
}

-- The gate of every endpoint on a network.
pub At-own_network :
    {W A : Type 0} {I : State W → Type 0} {s : State W} (user : AuthUser) (id : ℕ)
    (k : PrivateNetwork → M W A)
    → I s
    → ((n : PrivateNetwork)
        → find (has_id id) s.networks ≡ some n
        → n.user_id ≡ user.id
        → At I s (k n))
    → (svc : Services W) → At I s (own_network svc user id >>= k)
unfolding own_network find_by_id
At-own_network user id k i h svc = At-assoc _ _ _ (
    At-gets _ _ (
      At-assoc _ _ _ (
        At-or_throw _ _ _ i λ n e.
          At-assoc _ _ _ (At-throw_if _ _ _ i λ own. At-pure_bind _ _ (h n e (ground arith))))))

pub At-own_peering :
    {W A : Type 0} {I : State W → Type 0} {s : State W} (user : AuthUser) (id : ℕ)
    (k : NetworkPeering → M W A)
    → I s
    → ((p : NetworkPeering) → find (is_peering id) s.peerings ≡ some p → At I s (k p))
    → At I s (own_peering user id >>= k)
unfolding own_peering find_peering_by_id
At-own_peering user id k i h = At-assoc _ _ _ (
    At-gets _ _ (
      At-assoc _ _ _ (
        At-or_throw _ _ _ i
          λ p e. At-assoc _ _ _ (At-throw_if _ _ _ i λ own. At-pure_bind _ _ (h p e)))))

abbrev pub Iso : {W : Type 0} → State W → Type 0
Iso = IsIsolated

module _ {W : Type 0} (svc : Services W) where
  create-IsIsolated : (user_id : ℕ) (name : String) → Keeps Iso (create svc user_id name)
  unfolding create
  create-IsIsolated user_id name s i =
      At-bind _ _ (At-new_uuid svc IsIsolated-inner i) (λ t j. j)
        λ id s₁ i₁.
          At-bind _ _ (At-now_utc svc IsIsolated-inner i₁) (λ t j. j)
            λ now s₂ i₂. At-gets _ _ (
              At-throw_if _ _ _ i₂ λ _.
                At-bind _ _ (At-modify _ (add_network-IsIsolated s₂ i₂ _)) (λ t j. j)
                  λ _ s₃ i₃. At-pure _ i₃)

  pub create_network-IsIsolated :
      (user : AuthUser) (name : String) → Keeps Iso (create_network svc user name)
  unfolding create_network count_by_user
  create_network-IsIsolated user name s i = At-throw_if _ _ _ i λ _. At-gets _ _ (
      At-throw_if _ _ _ i
        λ _. At-bind _ _ (create-IsIsolated user.id _ s i) (λ t j. j) λ n t j. At-pure _ j)

  remove_peering_of-IsIsolated :
      (id : ℕ) (p : NetworkPeering) → Keeps Iso (remove_peering_of svc id p)
  unfolding remove_peering_of
  remove_peering_of-IsIsolated id p s i =
      At-bind _ _ (Keeps-remove_bridge svc Iso IsIsolated-inner p _ _ _ s i) (λ t j. j)
        λ _ t j. delete_peering-IsIsolated p.id t j

  pub delete_network-IsIsolated :
      (user : AuthUser) (id : ℕ) → Keeps Iso (delete_network svc user id)
  unfolding delete_network find_peerings_for_network
  delete_network-IsIsolated user id s i =
      At-own_network user id _ i
        (λ n e own. At-gets _ _ (
          At-bind _ _ (Keeps-for_each _ _ (remove_peering_of-IsIsolated id) s i) (λ t j. j)
            λ _ s₁ i₁.
              At-bind _ _ (Keeps-remove_docker_network svc Iso IsIsolated-inner n _ s₁ i₁)
                (λ t j. j)
                λ _ s₂ i₂.
                  At-bind _ _ (delete_row-IsIsolated id s₂ i₂) (λ t j. j) λ _ s₃ i₃. At-pure _ i₃))
        svc

  pub detach_database-IsIsolated :
      (user : AuthUser) (network_id database_id : ℕ)
      → Keeps Iso (detach_database svc user network_id database_id)
  unfolding detach_database find_members_with_db_info
  detach_database-IsIsolated user network_id database_id s i =
      At-own_network user network_id _ i
        (λ n e own. At-gets _ _ (
          At-bind _ _ (Keeps-leave_docker svc Iso IsIsolated-inner n _ _ s i) (λ t j. j)
            λ _ s₁ i₁.
              At-bind _ _ (remove_member-IsIsolated network_id database_id s₁ i₁) (λ t j. j)
                λ _ s₂ i₂. At-gets _ _ (At-pure _ i₂)))
        svc
