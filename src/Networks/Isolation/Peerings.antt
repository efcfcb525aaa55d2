-- ===== src/Networks/Isolation/Peerings.antt =====
-- The endpoints on peerings and firewall rules keep the tenants apart: what they check is what the new
-- row needs.
use dbsaa_s.Prelude.{ℕ, ◌≡◌, false, Option, some, String, arith, ◌==◌, look-find, ◌∙◌}
use dbsaa_s.Prelude.Int.{ℤ}
use dbsaa_s.Models.{AuthUser, NetworkPeering}
use dbsaa_s.Errors.{Result, ok, err}
use dbsaa_s.Platform.{State, Docker, Services}
use dbsaa_s.Platform.Rules.{
  At, Keeps, IsInner, At-pure, At-gets, At-modify, At-throw_if, At-or_throw, At-bind, At-assoc,
  At-new_uuid, At-now_utc, At-attempt,
}
use dbsaa_s.Repository.Networks.{find_by_id, count_members}
use dbsaa_s.Repository.Peerings.{
  is_peering, find_peerings_for_network, find_rules_by_peering, count_peerings_by_user,
  peering_exists, count_rules_by_peering, find_rule_by_id,
}
use dbsaa_s.Repository.Peerings
use dbsaa_s.Networks.Peering.{
  build_peering_response, create_peering, delete_peering, provision_peering, connect_peering,
  finish_peering,
}
use dbsaa_s.Networks.Rules.{
  CreateFirewallRuleRequest, not_end, validate_rule, create_firewall_rule, delete_firewall_rule,
}
use dbsaa_s.Networks.DockerCalls.{
  Keeps-resolve, Keeps-remove_bridge, Keeps-create_peering_network, Keeps-attach_members,
  Keeps-reapply,
}
use dbsaa_s.Networks.Isolation.{
  IsIsolated, IsIsolated-inner, owner, ends, IsEnd, add_peering-IsIsolated, add_rule-IsIsolated,
}
use dbsaa_s.Networks.Isolation.Statements.{
  delete_peering-IsIsolated, delete_rule_row-IsIsolated, update_peering_status-IsIsolated,
  update_peering_bridge-IsIsolated,
}
use dbsaa_s.Networks.Isolation.Handlers.{Iso, At-own_peering}

-- Apart, and both networks are known to be of user `u`.
abbrev SameUser : {W : Type 0} → ℕ → ℕ → ℕ → State W → Type 0
SameUser u a b s = IsIsolated s × ((owner a s.networks ≡ some u) × (owner b s.networks ≡ some u))

SameUser-inner : {W : Type 0} (u a b : ℕ) → IsInner (SameUser {W = W} u a b)
SameUser-inner u a b s w i = (IsIsolated-inner s w i.0, i.1)

-- Apart, and peering `id` is known to join `e`.
abbrev Joins : {W : Type 0} → ℕ → ℕ × ℕ → State W → Type 0
Joins id e s = IsIsolated s × (ends id s.peerings ≡ some e)

Joins-inner : {W : Type 0} (id : ℕ) (e : ℕ × ℕ) → IsInner (Joins {W = W} id e)
Joins-inner id e s w i = (IsIsolated-inner s w i.0, i.1)

IsEnd-of_passed :
    (p : NetworkPeering) (id : ℕ) → not_end p id ≡ false → IsEnd id (p.network_a_id, p.network_b_id)
IsEnd-of_passed p id h = ground arith

module _ {W : Type 0} where
  build_peering_response-IsIsolated :
      (p : NetworkPeering) → Keeps (Iso {W = W}) (build_peering_response p)
  unfolding build_peering_response find_by_id count_members find_rules_by_peering
  build_peering_response-IsIsolated p s i = At-gets _ _ (
      At-or_throw _ _ _ i λ a _.
        At-gets _ _
          (At-or_throw _ _ _ i λ b _. At-gets _ _ (At-gets _ _ (At-gets _ _ (At-pure _ i)))))

module _ {W : Type 0} (svc : Services W) where
  create_peering_row :
      (u a b : ℕ) (server : Option ℕ)
      → (a == b) ≡ false
      → (s : State W) → SameUser u a b s
      → At Iso s (Peerings.create_peering svc u a b server)
  unfolding Peerings.create_peering
  create_peering_row u a b server apart s j =
      At-bind _ _ (At-new_uuid svc (SameUser-inner u a b) j) (λ t k. k.0)
        λ id s₁ j₁.
          At-bind _ _ (At-now_utc svc (SameUser-inner u a b) j₁) (λ t k. k.0)
            λ now s₂ j₂. At-gets _ _ (
              At-throw_if _ _ _ j₂.0 λ _. At-throw_if _ _ _ j₂.0 λ _. At-gets _ _ (
                At-throw_if _ _ _ j₂.0 λ _.
                  At-bind _ _
                    (At-modify _
                      (add_peering-IsIsolated s₂ j₂.0 _ (j₂.1.0, j₂.1.1, λ e. ground arith)))
                    (λ t k. k) λ _ s₃ j₃. At-pure _ j₃))

  pub create_peering-IsIsolated :
      (user : AuthUser) (a b : ℕ) → Keeps Iso (create_peering svc user a b)
  unfolding create_peering find_by_id peering_exists count_peerings_by_user
  create_peering-IsIsolated user a b s i = At-throw_if _ _ _ i λ apart. At-gets _ _ (
      At-or_throw _ _ _ i λ na ea. At-throw_if _ _ _ i λ ownA. At-gets _ _ (
        At-or_throw _ _ _ i λ nb eb. At-throw_if _ _ _ i λ ownB. At-throw_if _ _ _ i λ _.
          At-gets _ _ (
            At-throw_if _ _ _ i λ _. At-gets _ _ (
              At-throw_if _ _ _ i λ _.
                At-bind _ _
                  (create_peering_row user.id a b _ apart s (
                    i,
                    (
                      look-find _ _ s.networks na ea ∙ ground arith,
                      look-find _ _ s.networks nb eb ∙ ground arith,
                    ),
                  ))
                  (λ t k. k)
                  λ p s₁ i₁.
                    At-bind _ _ (build_peering_response-IsIsolated p s₁ i₁) (λ t k. k)
                      λ reply s₂ i₂. At-pure _ i₂))))

  finish_peering-IsIsolated :
      (docker : Docker) (id a b : ℕ) (r : Result String)
      → Keeps Iso (finish_peering svc docker id a b r)
  unfolding finish_peering
  finish_peering-IsIsolated docker id a b (err e) s i = update_peering_status-IsIsolated id _ s i
  finish_peering-IsIsolated docker id a b (ok bridge) s i =
      At-bind _ _ (update_peering_bridge-IsIsolated id bridge s i) (λ t k. k)
        λ _ s₁ i₁.
          At-bind _ _ (Keeps-attach_members svc Iso IsIsolated-inner docker bridge a s₁ i₁)
            (λ t k. k)
            λ _ s₂ i₂.
              At-bind _ _ (Keeps-attach_members svc Iso IsIsolated-inner docker bridge b s₂ i₂)
                (λ t k. k) λ _ s₃ i₃. update_peering_status-IsIsolated id _ s₃ i₃

  connect_peering-IsIsolated :
      (id a b : ℕ) (r : Result Docker) → Keeps Iso (connect_peering svc id a b r)
  unfolding connect_peering
  connect_peering-IsIsolated id a b (err e) s i = update_peering_status-IsIsolated id _ s i
  connect_peering-IsIsolated id a b (ok docker) s i =
      At-bind _ _
        (At-attempt _ (Keeps-create_peering_network svc Iso IsIsolated-inner docker _ s i))
        (λ t k. k) λ made s₁ i₁. finish_peering-IsIsolated docker id a b made s₁ i₁

  pub provision_peering-IsIsolated : (p : NetworkPeering) → Keeps Iso (provision_peering svc p)
  unfolding provision_peering
  provision_peering-IsIsolated p s i =
      At-bind _ _ (At-attempt _ (Keeps-resolve svc Iso IsIsolated-inner p.docker_server_id s i))
        (λ t k. k)
        λ docker s₁ i₁. connect_peering-IsIsolated p.id p.network_a_id p.network_b_id docker s₁ i₁

  pub delete_own_peering-IsIsolated :
      (user : AuthUser) (id : ℕ) → Keeps Iso (delete_peering svc user id)
  unfolding delete_peering
  delete_own_peering-IsIsolated user id s i = At-own_peering user id _ i λ p e.
      At-bind _ _ (Keeps-remove_bridge svc Iso IsIsolated-inner p _ _ _ s i) (λ t k. k)
        λ _ s₁ i₁.
          At-bind _ _ (delete_peering-IsIsolated id s₁ i₁) (λ t k. k) λ _ s₂ i₂. At-pure _ i₂

  create_rule_row :
      (id : ℕ) (e : ℕ × ℕ) (priority : ℤ) (action : String) (src dst : ℕ) (port : Option ℤ)
      (protocol description : Option String)
      → IsEnd src e
      → IsEnd dst e
      → (s : State W) → Joins id e s
      → At Iso s
          (Peerings.create_firewall_rule svc id priority action src dst port protocol description)
  unfolding Peerings.create_firewall_rule
  create_rule_row id e priority action src dst port protocol description hs hd s j =
      At-bind _ _ (At-new_uuid svc (Joins-inner id e) j) (λ t k. k.0)
        λ rid s₁ j₁.
          At-bind _ _ (At-now_utc svc (Joins-inner id e) j₁) (λ t k. k.0)
            λ now s₂ j₂. At-gets _ _ (
              At-throw_if _ _ _ j₂.0 λ _. At-throw_if _ _ _ j₂.0 λ _. At-gets _ _ (
                At-throw_if _ _ _ j₂.0 λ _.
                  At-bind _ _ (At-modify _ (add_rule-IsIsolated s₂ j₂.0 _ (e, j₂.1, hs, hd)))
                    (λ t k. k) λ _ s₃ j₃. At-pure _ j₃))

  pub create_firewall_rule-IsIsolated :
      (user : AuthUser) (id : ℕ) (req : CreateFirewallRuleRequest)
      → Keeps Iso (create_firewall_rule svc user id req)
  unfolding create_firewall_rule validate_rule count_rules_by_peering
  create_firewall_rule-IsIsolated user id req s i = At-own_peering user id _ i λ p e.
      At-assoc _ _ _ (
        At-throw_if _ _ _ i λ _. At-assoc _ _ _ (
          At-throw_if _ _ _ i λ src. At-assoc _ _ _ (
            At-throw_if _ _ _ i λ dst. At-assoc _ _ _ (
              At-throw_if _ _ _ i λ _. At-throw_if _ _ _ i λ _. At-gets _ _ (
                At-throw_if _ _ _ i λ _.
                  At-bind _ _
                    (create_rule_row id _ _ _ _ _ _ _ _ (IsEnd-of_passed p _ src)
                      (IsEnd-of_passed p _ dst) s (i, look-find _ _ s.peerings p e))
                    (λ t k. k)
                    λ rule s₁ i₁.
                      At-bind _ _ (Keeps-reapply svc Iso IsIsolated-inner p s₁ i₁) (λ t k. k)
                        λ _ s₂ i₂. At-pure _ i₂)))))

  pub delete_firewall_rule-IsIsolated :
      (user : AuthUser) (id rule_id : ℕ) → Keeps Iso (delete_firewall_rule svc user id rule_id)
  unfolding delete_firewall_rule find_rule_by_id
  delete_firewall_rule-IsIsolated user id rule_id s i = At-own_peering user id _ i λ p e.
      At-gets _ _ (
        At-or_throw _ _ _ i λ r f. At-throw_if _ _ _ i λ _.
          At-bind _ _ (delete_rule_row-IsIsolated rule_id s i) (λ t k. k)
            λ _ s₁ i₁.
              At-bind _ _ (Keeps-reapply svc Iso IsIsolated-inner p s₁ i₁) (λ t k. k)
                λ _ s₂ i₂. At-pure _ i₂)
