-- ===== src/Networks/Refusals.antt =====
-- What the endpoints of api/src/handlers/private_networks.rs refuse.
use dbsaa_s.Prelude.{ℕ, ◌≡◌, refl, ◌≢◌, some, find, ==-ne}
use dbsaa_s.Models.{AuthUser, PrivateNetwork, NetworkPeering}
use dbsaa_s.Errors.{AppError, err}
use dbsaa_s.Platform.{State, Services, run}
use dbsaa_s.Platform.Returns.{after_err}
use dbsaa_s.Repository.Networks.{has_id}
use dbsaa_s.Repository.Networks
use dbsaa_s.Repository.Peerings
use dbsaa_s.Repository.Peerings.{is_peering}
use dbsaa_s.Networks.Handlers.{
  own_network, get_network, delete_network, attach_database, detach_database,
}
use dbsaa_s.Networks.Peering.{own_peering, get_peering, delete_peering}
use dbsaa_s.Networks.Rules.{CreateFirewallRuleRequest, create_firewall_rule, delete_firewall_rule}

module _ {W : Type 0} (svc : Services W) (user : AuthUser) (id : ℕ) (s : State W) where
  own_network-forbidden :
      {n : PrivateNetwork}
      → find (has_id id) s.networks ≡ some n
      → n.user_id ≢ user.id
      → own_network svc user id s ≡ (err AppError.forbidden, s)
  unfolding own_network Networks.find_by_id run
  own_network-forbidden {n} found other = rw (found, ==-ne n.user_id user.id other) refl

  own_peering-forbidden :
      {p : NetworkPeering}
      → find (is_peering id) s.peerings ≡ some p
      → p.user_id ≢ user.id
      → own_peering user id s ≡ (err AppError.forbidden, s)
  unfolding own_peering Peerings.find_peering_by_id run
  own_peering-forbidden {p} found other = rw (found, ==-ne p.user_id user.id other) refl

module _ {W : Type 0} (svc : Services W) (user : AuthUser) (id : ℕ) (s : State W) where
  -- A user who is not the owner of a network gets 403 from each endpoint on that network, and nothing
  -- has changed: no table, no port, nothing in Docker.
  pub network-forbidden :
      {n : PrivateNetwork}
      → find (has_id id) s.networks ≡ some n
      → n.user_id ≢ user.id
      → (get_network svc user id s ≡ (err AppError.forbidden, s))
        × (delete_network svc user id s ≡ (err AppError.forbidden, s))
        × ((database_id : ℕ)
            → attach_database svc user id database_id s ≡ (err AppError.forbidden, s))
        × ((database_id : ℕ)
            → detach_database svc user id database_id s ≡ (err AppError.forbidden, s))
  unfolding get_network delete_network attach_database detach_database
  network-forbidden found other =
      let h : own_network svc user id s ≡ (err AppError.forbidden, s) =
        own_network-forbidden svc user id s found other in
      (after_err _ _ s _ h, after_err _ _ s _ h, λ d. after_err _ _ s _ h, λ d. after_err _ _ s _ h)

  -- A user who is not the owner of a peering gets 403 from each endpoint on it and on its firewall
  -- rules, and nothing has changed.
  pub peering-forbidden :
      {p : NetworkPeering}
      → find (is_peering id) s.peerings ≡ some p
      → p.user_id ≢ user.id
      → (get_peering user id s ≡ (err AppError.forbidden, s))
        × (delete_peering svc user id s ≡ (err AppError.forbidden, s))
        × ((req : CreateFirewallRuleRequest)
            → create_firewall_rule svc user id req s ≡ (err AppError.forbidden, s))
        × ((rule_id : ℕ) → delete_firewall_rule svc user id rule_id s ≡ (err AppError.forbidden, s))
  unfolding get_peering delete_peering create_firewall_rule delete_firewall_rule
  peering-forbidden found other =
      let h : own_peering user id s ≡ (err AppError.forbidden, s) =
        own_peering-forbidden svc user id s found other in
      (after_err _ _ s _ h, after_err _ _ s _ h, λ d. after_err _ _ s _ h, λ d. after_err _ _ s _ h)
