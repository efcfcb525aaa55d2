-- ===== src/Repository/Users.antt =====
-- The users of the platform: api/src/repository/user_repo.rs, with the constraints of migrations 001, 002,
-- 003, 005, 008, 012, 016, 019 and 020.
use dbsaa_s.Prelude.{
  ℕ, Bool, false, not, Option, none, some, [], ◌∷◌, ◌++◌, String, str_eq, ◌==◌, ◌&&◌, ◌||◌, find,
  update, delete, any,
}
use dbsaa_s.Prelude.Int.{pos}
use dbsaa_s.Models.{
  DatabaseInstance, Bundle, PrivateNetwork, NetworkPeering, FirewallRule, BillingPeriod,
}
use dbsaa_s.Models.Roles.{UserRole}
use dbsaa_s.Models.Access.{User, Invitation}
use dbsaa_s.Models.Records.{AlertRule}
use dbsaa_s.Platform.{
  State, M, Services, pure, gets, modify, throw_if, new_uuid, now_utc, ◌>>=◌, ◌>>◌,
}
use dbsaa_s.Repository.Networks.{duplicate_key, foreign_key}

abbrev pub is_user : ℕ → User → Bool
is_user id u = u.id == id

-- The optional column holds this value.
abbrev pub holds : Option ℕ → ℕ → Bool
holds none id = false
holds (some v) id = v == id

abbrev pub has_key : String → User → Bool
has_key key_hash u = is_key u.api_key
  where
    is_key : Option String → Bool
    is_key none = false
    is_key (some k) = str_eq k key_hash

abbrev pub new_user : ℕ → ℕ → String → String → UserRole → User
new_user id t email password_hash role = record {
  id = id;
  email = email;
  password_hash = password_hash;
  role = role;
  api_key = none;
  max_databases = pos 5;
  stripe_customer_id = none;
  created_at = t;
  updated_at = t;
}

module _ {W : Type 0} (s : State W) (user_id : ℕ) where
  -- A billing period keeps its user, and so does an invitation that the user took from somebody else.
  abbrev pub is_kept : Bool
  is_kept =
      any {A = BillingPeriod} (λ p. p.user_id == user_id) s.periods
      || any {A = Invitation} (λ i. holds i.used_by user_id && not (i.created_by == user_id))
          s.invitations

  abbrev database_goes : ℕ → Bool
  database_goes id =
      any {A = DatabaseInstance} (λ d. d.id == id && d.user_id == user_id) s.instances

  abbrev network_goes : ℕ → Bool
  network_goes id = any {A = PrivateNetwork} (λ n. n.id == id && n.user_id == user_id) s.networks

  abbrev peering_goes : NetworkPeering → Bool
  peering_goes p =
      p.user_id == user_id || (network_goes p.network_a_id || network_goes p.network_b_id)

  abbrev rule_goes : FirewallRule → Bool
  rule_goes r =
      any {A = NetworkPeering} (λ p. p.id == r.peering_id && peering_goes p) s.peerings
      || (network_goes r.source_network_id || network_goes r.dest_network_id)

  abbrev of_gone : Option ℕ → Bool
  of_gone none = false
  of_gone (some id) = database_goes id

  abbrev alert_goes : AlertRule → Bool
  alert_goes a = a.user_id == user_id || of_gone a.database_id

  abbrev of_gone_bundle : Option ℕ → Bool
  of_gone_bundle none = false
  of_gone_bundle (some id) = any {A = Bundle} (λ b. b.id == id && b.user_id == user_id) s.bundles

  -- `DELETE`, with every `ON DELETE CASCADE` and `ON DELETE SET NULL` that it sets off.
  abbrev pub without_user : State W
  without_user = record s {
    users = delete (is_user user_id) s.users;
    instances =
        update {A = DatabaseInstance} (λ d. of_gone_bundle d.bundle_id)
          (λ d. record d { bundle_id = none }) (delete (λ d. d.user_id == user_id) s.instances);
    bundles = delete (λ b. b.user_id == user_id) s.bundles;
    networks = delete (λ n. n.user_id == user_id) s.networks;
    members = delete (λ m. network_goes m.network_id || database_goes m.database_id) s.members;
    peerings = delete peering_goes s.peerings;
    rules = delete rule_goes s.rules;
    invitations = delete (λ i. i.created_by == user_id) s.invitations;
    database_users = delete (λ u. database_goes u.database_id) s.database_users;
    backups = delete (λ b. database_goes b.database_id) s.backups;
    schedules = delete (λ p. database_goes p.database_id) s.schedules;
    favorites = delete (λ f. f.0 == user_id || database_goes f.1) s.favorites;
    alert_rules = delete alert_goes s.alert_rules;
    alert_history =
        delete
          (λ h. any {A = AlertRule} (λ a. a.id == h.alert_rule_id && alert_goes a) s.alert_rules)
          s.alert_history;
  }

module _ {W : Type 0} where
  unfoldable pub find_by_email : String → M W (Option User)
  find_by_email email = gets (λ s. find (λ u. str_eq u.email email) s.users)

  unfoldable pub find_by_id : ℕ → M W (Option User)
  find_by_id id = gets (λ s. find (is_user id) s.users)

  -- `hash_api_key` is SHA-256, in hexadecimal digits.
  unfoldable pub find_by_api_key : (String → String) → String → M W (Option User)
  find_by_api_key hash_api_key api_key = gets (λ s. find (has_key (hash_api_key api_key)) s.users)

  unfoldable pub delete_user_row : ℕ → M W (Unit {0})
  delete_user_row user_id = do
    kept ← gets (λ s. is_kept s user_id)
    throw_if kept foreign_key
    modify (λ s. without_user s user_id)

module _ {W : Type 0} (svc : Services W) where
  unfoldable pub create : String → String → UserRole → M W User
  create email password_hash role = do
    id ← new_uuid svc
    t ← now_utc svc
    taken ← gets (λ s. any (λ u. u.id == id || str_eq u.email email) s.users)
    throw_if taken duplicate_key
    modify (λ s. record s { users = s.users ++ (new_user id t email password_hash role ∷ []) })
    pure (new_user id t email password_hash role)

  -- UNIQUE (api_key)
  unfoldable pub set_api_key : (String → String) → ℕ → String → M W (Unit {0})
  set_api_key hash_api_key user_id api_key = do
    t ← now_utc svc
    taken ← gets (λ s.
        any (λ u. has_key (hash_api_key api_key) u && not (u.id == user_id)) s.users
        && any (is_user user_id) s.users)
    throw_if taken duplicate_key
    modify (λ s. record s {
      users =
          update (is_user user_id)
            (λ u. record u { api_key = some (hash_api_key api_key); updated_at = t }) s.users;
    })

  unfoldable pub update_role : ℕ → UserRole → M W (Unit {0})
  update_role user_id role = do
    t ← now_utc svc
    modify (λ s. record s {
      users = update (is_user user_id) (λ u. record u { role = role; updated_at = t }) s.users;
    })
