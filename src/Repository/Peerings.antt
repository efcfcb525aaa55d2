-- ===== src/Repository/Peerings.antt =====
-- Peerings and firewall rules: api/src/repository/private_network_repo.rs (lines 197 to 373).
use dbsaa_s.Prelude.{
  ℕ, Bool, Option, none, some, List, [], ◌∷◌, ◌++◌, String, str_eq, ◌==◌, leb, ◌&&◌, ◌||◌, select,
  count, find, update, delete, any, sort_by, if◌then◌else◌, true, not,
}
use dbsaa_s.Prelude.Int.{ℤ, pos, leb_ℤ}
use dbsaa_s.Models.{NetworkPeering, FirewallRule}
use dbsaa_s.Errors.{AppError}
use dbsaa_s.Platform.{M, Services, pure, gets, modify, throw_if, new_uuid, now_utc, ◌>>=◌, ◌>>◌}
use dbsaa_s.Repository.Networks.{duplicate_key, foreign_key, touches, has_id}

abbrev pub is_peering : ℕ → NetworkPeering → Bool
is_peering id p = p.id == id

abbrev least : ℕ → ℕ → ℕ
least a b = if leb a b then a else b

abbrev greatest : ℕ → ℕ → ℕ
greatest a b = if leb a b then b else a

-- `LEAST(network_a_id, network_b_id) = LEAST(a, b) AND GREATEST(…) = GREATEST(a, b)`
abbrev pub same_pair : ℕ → ℕ → NetworkPeering → Bool
same_pair a b p =
    least p.network_a_id p.network_b_id == least a b
    && greatest p.network_a_id p.network_b_id == greatest a b

-- The checks of migration 016 on a rule's columns.
abbrev pub is_action : String → Bool
is_action a = str_eq a "allow" || str_eq a "deny"

abbrev pub is_port : Option ℤ → Bool
is_port none = true
is_port (some p) = leb_ℤ (pos 1) p && leb_ℤ p (pos 65535)

abbrev pub is_protocol : Option String → Bool
is_protocol none = true
is_protocol (some p) = str_eq p "tcp" || str_eq p "udp"

module _ {W : Type 0} (svc : Services W) where
  -- The primary key, the index `idx_peering_unique` and the check `peering_different`.
  unfoldable pub create_peering : ℕ → ℕ → ℕ → Option ℕ → M W NetworkPeering
  create_peering user_id a b server_id = do
    id ← new_uuid svc
    t ← now_utc svc
    taken ← gets (λ s. any (λ p. p.id == id || same_pair a b p) s.peerings)
    throw_if taken duplicate_key
    throw_if (a == b) (AppError.database "check constraint peering_different")
    known ← gets (λ s. any (has_id a) s.networks && any (has_id b) s.networks)
    throw_if (not known) foreign_key
    let row : NetworkPeering = record {
      id = id;
      user_id = user_id;
      network_a_id = a;
      network_b_id = b;
      docker_bridge_id = none;
      docker_server_id = server_id;
      status = "pending";
      created_at = t;
    }
    modify (λ s. record s { peerings = s.peerings ++ (row ∷ []) })
    pure row

  unfoldable pub create_firewall_rule :
      ℕ → ℤ → String → ℕ → ℕ → Option ℤ → Option String → Option String → M W FirewallRule
  create_firewall_rule peering_id priority action src dst port protocol description = do
    id ← new_uuid svc
    t ← now_utc svc
    taken ← gets (λ s. any (λ r. r.id == id) s.rules)
    throw_if taken duplicate_key
    throw_if (not (is_action action && (is_port port && is_protocol protocol)))
        (AppError.database "check constraint")
    known ← gets (λ s.
        any (is_peering peering_id) s.peerings
        && (any (has_id src) s.networks && any (has_id dst) s.networks))
    throw_if (not known) foreign_key
    let row : FirewallRule = record {
      id = id;
      peering_id = peering_id;
      priority = priority;
      action = action;
      source_network_id = src;
      dest_network_id = dst;
      port = port;
      protocol = protocol;
      description = description;
      created_at = t;
    }
    modify (λ s. record s { rules = s.rules ++ (row ∷ []) })
    pure row

-- `ORDER BY priority, created_at`
abbrev pub rule_le : FirewallRule → FirewallRule → Bool
rule_le a b =
    if leb_ℤ b.priority a.priority
    then leb_ℤ a.priority b.priority && leb a.created_at b.created_at
    else true

module _ {W : Type 0} where
  unfoldable pub find_peering_by_id : ℕ → M W (Option NetworkPeering)
  find_peering_by_id id = gets (λ s. find (is_peering id) s.peerings)

  unfoldable pub find_peerings_for_network : ℕ → M W (List NetworkPeering)
  find_peerings_for_network id = gets (λ s. select (touches id) s.peerings)

  unfoldable pub peering_exists : ℕ → ℕ → M W Bool
  peering_exists a b = gets (λ s. any (same_pair a b) s.peerings)

  unfoldable pub update_peering_status : ℕ → String → M W (Unit {0})
  update_peering_status id status = modify (λ s. record s {
    peerings = update (is_peering id) (λ p. record p { status = status }) s.peerings;
  })

  unfoldable pub update_peering_bridge : ℕ → String → M W (Unit {0})
  update_peering_bridge id bridge_id = modify (λ s. record s {
    peerings =
        update (is_peering id) (λ p. record p { docker_bridge_id = some bridge_id }) s.peerings;
  })

  -- `DELETE`, with the cascade to `firewall_rules`.
  unfoldable pub delete_peering : ℕ → M W (Unit {0})
  delete_peering id = modify (λ s. record s {
    peerings = delete (is_peering id) s.peerings;
    rules = delete (λ r. r.peering_id == id) s.rules;
  })

  unfoldable pub count_peerings_by_user : ℕ → M W ℕ
  count_peerings_by_user user_id = gets (λ s. count (λ p. p.user_id == user_id) s.peerings)

  unfoldable pub find_rules_by_peering : ℕ → M W (List FirewallRule)
  find_rules_by_peering id = gets (λ s. sort_by rule_le (select (λ r. r.peering_id == id) s.rules))

  unfoldable pub find_rule_by_id : ℕ → M W (Option FirewallRule)
  find_rule_by_id id = gets (λ s. find (λ r. r.id == id) s.rules)

  unfoldable pub delete_firewall_rule : ℕ → M W (Unit {0})
  delete_firewall_rule id = modify (λ s. record s { rules = delete (λ r. r.id == id) s.rules })

  unfoldable pub count_rules_by_peering : ℕ → M W ℕ
  count_rules_by_peering id = gets (λ s. count (λ r. r.peering_id == id) s.rules)
