-- ===== src/Repository/Databases.antt =====
-- Databases and bundles: api/src/repository/database_repo.rs (lines 12 to 237), with the constraints of
-- migrations 002, 005, 008, 009, 012 and 015.
use dbsaa_s.Prelude.{
  ℕ, Bool, true, false, not, Option, none, some, List, [], ◌∷◌, ◌++◌, String, str_eq, ◌==◌, ◌&&◌,
  ◌||◌, select, count, sort_by, leb, find, update, delete, any, map,
}
use dbsaa_s.Prelude.Int.{ℤ, pos}
use dbsaa_s.Models.{DatabaseInstance, Bundle, DbType, DbStatus, F64, is_deleting}
use dbsaa_s.Models.Records.{AlertRule, AlertHistory}
use dbsaa_s.Platform.{
  State, M, Services, pure, gets, modify, throw_if, new_uuid, now_utc, ◌>>=◌, ◌>>◌,
}
use dbsaa_s.Repository.Networks.{duplicate_key, foreign_key}

-- What `create` is given, in the order of its parameters.
pub record NewDatabase : Type 0 where
  pub user_id : ℕ
  pub name : String
  pub db_type : DbType
  pub host : String
  pub port : ℕ
  pub username : String
  pub password_encrypted : String
  pub database_name : Option String
  pub cpu_limit : F64
  pub memory_limit_mb : ℤ
  pub bundle_id : Option ℕ
  pub tls_mode : String
  pub plan_template_id : Option ℕ
  pub docker_server_id : Option ℕ
  pub subdomain : String
  pub routing_mode : String

abbrev pub is_database : ℕ → DatabaseInstance → Bool
is_database id d = d.id == id

-- PRIMARY KEY (id), UNIQUE (user_id, name), UNIQUE (subdomain)
abbrev pub clashes : ℕ → NewDatabase → DatabaseInstance → Bool
clashes id new d =
    d.id == id
    || ((d.user_id == new.user_id && str_eq d.name new.name) || str_eq d.subdomain new.subdomain)

abbrev pub known : {A : Type 0} → (A → ℕ) → List A → Option ℕ → Bool
known key rows none = true
known key rows (some id) = any (λ r. key r == id) rows

-- The bundle, the plan and the server that a row refers to. (The user is the one that sent the request.)
abbrev pub refers : {W : Type 0} → State W → NewDatabase → Bool
refers s new =
    known (λ b. b.id) s.bundles new.bundle_id
    && (known (λ t. t.id) s.templates new.plan_template_id
        && known (λ v. v.id) s.servers new.docker_server_id)

abbrev pub new_row : NewDatabase → ℕ → ℕ → DatabaseInstance
new_row new id t = record {
  id = id;
  user_id = new.user_id;
  name = new.name;
  db_type = new.db_type;
  status = DbStatus.provisioning;
  container_id = none;
  network_id = none;
  host = new.host;
  port = new.port;
  username = new.username;
  password_encrypted = new.password_encrypted;
  database_name = new.database_name;
  tls_cert = none;
  cpu_limit = new.cpu_limit;
  memory_limit_mb = new.memory_limit_mb;
  bundle_id = new.bundle_id;
  tls_mode = new.tls_mode;
  plan_template_id = new.plan_template_id;
  subdomain = new.subdomain;
  routing_mode = new.routing_mode;
  docker_server_id = new.docker_server_id;
  created_at = t;
  updated_at = t;
}

abbrev pub alerts_on : ℕ → AlertRule → Bool
alerts_on id rule = is_some_id rule.database_id
  where
    is_some_id : Option ℕ → Bool
    is_some_id none = false
    is_some_id (some d) = d == id

abbrev pub is_history_of : AlertHistory → ℕ → AlertRule → Bool
is_history_of h id rule = rule.id == h.alert_rule_id && alerts_on id rule

-- `status != 'deleting'` of a user's databases
abbrev pub counted : ℕ → DatabaseInstance → Bool
counted user_id d = d.user_id == user_id && not (is_deleting d.status)

module _ {W : Type 0} where
  unfoldable pub find_by_id : ℕ → M W (Option DatabaseInstance)
  find_by_id id = gets (λ s. find (is_database id) s.instances)

  unfoldable pub find_by_user : ℕ → M W (List DatabaseInstance)
  find_by_user user_id = gets (λ s.
      sort_by (λ a b. leb b.created_at a.created_at)
        (select (λ d. d.user_id == user_id) s.instances))

  unfoldable pub count_by_user : ℕ → M W ℕ
  count_by_user user_id = gets (λ s. count (counted user_id) s.instances)

  unfoldable pub get_allocated_ports : M W (List ℤ)
  get_allocated_ports =
      gets (λ s. map (λ d. pos d.port) (select (λ d. not (is_deleting d.status)) s.instances))

  -- `DELETE`, with the `ON DELETE CASCADE` of migrations 006, 007, 012, 017, 019 and 020.
  unfoldable pub delete_row : ℕ → M W (Unit {0})
  delete_row id = modify (λ s. record s {
    instances = delete (is_database id) s.instances;
    members = delete (λ m. m.database_id == id) s.members;
    database_users = delete (λ u. u.database_id == id) s.database_users;
    backups = delete (λ b. b.database_id == id) s.backups;
    schedules = delete (λ p. p.database_id == id) s.schedules;
    favorites = delete (λ f. f.1 == id) s.favorites;
    alert_rules = delete (alerts_on id) s.alert_rules;
    alert_history = delete (λ h. any (is_history_of h id) s.alert_rules) s.alert_history;
  })

  unfoldable pub update_bundle_network : ℕ → String → M W (Unit {0})
  update_bundle_network id v = modify (λ s. record s {
    bundles = update (λ b. b.id == id) (λ b. record b { network_id = some v }) s.bundles;
  })

  unfoldable pub update_row : ℕ → (DatabaseInstance → DatabaseInstance) → M W (Unit {0})
  update_row id f = modify (λ s. record s { instances = update (is_database id) f s.instances })

module _ {W : Type 0} (svc : Services W) where
  unfoldable pub create : NewDatabase → M W DatabaseInstance
  create new = do
    id ← new_uuid svc
    t ← now_utc svc
    taken ← gets (λ s. any (clashes id new) s.instances)
    known ← gets (λ s. refers s new)
    throw_if taken duplicate_key
    throw_if (not known) foreign_key
    modify (λ s. record s { instances = s.instances ++ (new_row new id t ∷ []) })
    pure (new_row new id t)

  unfoldable pub update_provisioned : ℕ → String → String → Option String → M W (Unit {0})
  update_provisioned id container_id network_id tls_cert = do
    t ← now_utc svc
    update_row id (λ d. record d {
      container_id = some container_id;
      network_id = some network_id;
      tls_cert = tls_cert;
      status = DbStatus.running;
      updated_at = t;
    })

  unfoldable pub update_status : ℕ → DbStatus → M W (Unit {0})
  update_status id status = do
    t ← now_utc svc
    update_row id (λ d. record d { status = status; updated_at = t })

  unfoldable pub create_bundle : ℕ → String → M W Bundle
  create_bundle user_id name = do
    id ← new_uuid svc
    t ← now_utc svc
    taken ← gets (λ s. any (λ b. b.id == id) s.bundles)
    throw_if taken duplicate_key
    let row : Bundle = record {
      id = id;
      user_id = user_id;
      name = name;
      network_id = none;
      created_at = t;
    }
    modify (λ s. record s { bundles = s.bundles ++ (row ∷ []) })
    pure row

  unfoldable pub update_routing_mode : ℕ → String → M W (Unit {0})
  update_routing_mode id routing_mode = do
    t ← now_utc svc
    update_row id (λ d. record d { routing_mode = routing_mode; updated_at = t })
