-- ===== src/Databases/BundleQuota.antt =====
-- What a request for a bundle leaves when it returns: api/src/handlers/databases.rs (lines 374 to 523).
use dbsaa_s.Prelude.{
  ℕ, ◌+◌, ◌≡◌, ◌≢◌, refl, sym, ◌∙◌, ap, subst, true, false, Option, some, List, [], ◌∷◌, ◌++◌,
  String, count, count-append, arith, Bool, ◌==◌, if◌then◌else◌,
}
use dbsaa_s.Prelude.Int.{ℤ, pos, negsuc, leb_ℤ, ◌≤ℤ◌}
use dbsaa_s.Models.{DatabaseInstance, DbStatus, AuthUser}
use dbsaa_s.Ports.{PortPool, allocate, contains}
use dbsaa_s.Ports.Laws.{Allocates, allocate-Allocates}
use dbsaa_s.Config.{Config}
use dbsaa_s.Platform.{State, Services}
use dbsaa_s.Platform.Rules.{
  Keeps, IsInner, At-gets, At-throw_if, At-pure, At-modify, At-new_uuid, At-now_utc,
}
use dbsaa_s.Platform.Returns.{Returns, Returns-bind, Returns-throw_if, Returns-gets}
use dbsaa_s.Repository.Databases.{counted}
use dbsaa_s.Repository.Databases
use dbsaa_s.Databases.Bundles.{
  Common, Half, BundleResponse, BundleTask, CreateBundleRequest, bundle_redis, bundle_pg,
  create_bundle, redis_half, common_of,
}
use dbsaa_s.Databases.Quiet.{At-then}
use dbsaa_s.Databases.Quota.{Returns-allocate_port}
use dbsaa_s.Databases.Inserts.{
  kept, Keeps-resolve_plan, Keeps-select_server, Keeps-generate_random_string, Keeps-encrypt_string,
}
use dbsaa_s.Databases.Accounts.{true_of}
use dbsaa_s.Databases.Pairs.{Given, IsPut, rows-IsPut, Returns-allocate_second}

-- Two rows more, one bundle, two ports that the pool gave out one after the other; the user has no more
-- databases than allowed; and the task is about these rows and ports.
pub record IsPair {W : Type 0} (cfg : Config) (user : AuthUser) (s s' : State W) (task : BundleTask)
    : Type 0 where
  pub pg : DatabaseInstance
  pub redis : DatabaseInstance
  pub rows_added : s'.instances ≡ s.instances ++ (pg ∷ redis ∷ [])
  pub of_user : (pg.user_id ≡ user.id) × (redis.user_id ≡ user.id)
  pub provisioning : (pg.status ≡ DbStatus.provisioning) × (redis.status ≡ DbStatus.provisioning)
  pub one_bundle : (pg.bundle_id ≡ some task.bundle_id) × (redis.bundle_id ≡ some task.bundle_id)
  pub in_quota : pos (count (counted user.id) s'.instances) ≤ℤ cfg.max_databases_per_user
  pub between : PortPool
  pub first_port : allocate s.port_pool ≡ (some pg.port, between)
  pub second_port : allocate between ≡ (some redis.port, s'.port_pool)
  pub two_ports : pg.port ≢ redis.port
  pub task_databases : (task.pg.db_id ≡ pg.id) × (task.redis.db_id ≡ redis.id)
  pub task_ports : (task.pg.port ≡ pg.port) × (task.redis.port ≡ redis.port)

-- Rows and ports as they were.
abbrev IsSameRows : {W : Type 0} → State W → State W → Type 0
IsSameRows s s' = (s'.instances ≡ s.instances) × (s'.port_pool ≡ s.port_pool)

if_same : (p q : ℕ) (b : Bool) → p ≡ q → (if p == q then true else b) ≡ true
if_same p q b same = ground arith

-- Two ports that the pool gives out one after the other are different.
ports_differ :
    (pool between after : PortPool) (p q : ℕ)
    → allocate pool ≡ (some p, between)
    → allocate between ≡ (some q, after)
    → p ≢ q
ports_differ pool between after p q e d same =
    let first : Allocates pool (some p, between) =
      subst (Allocates pool) e (allocate-Allocates pool) in
    let second : Allocates between (some q, after) =
      subst (Allocates between) d (allocate-Allocates between) in
    let taken : contains between q ≡ true = first.4 q ∙ if_same p q (contains pool q) same in
    let free : contains between q ≡ false = second.2 in cc

two_more :
    (user_id : ℕ) (max : ℤ) (before all : List DatabaseInstance) (a b : DatabaseInstance)
    → all ≡ before ++ (a ∷ b ∷ [])
    → leb_ℤ (pos (count (counted user_id) before + 2)) max ≡ true
    → pos (count (counted user_id) all) ≤ℤ max
two_more user_id max before all a b e room = rw e (cases max room)
  where
    cases :
        (max : ℤ)
        → leb_ℤ (pos (count (counted user_id) before + 2)) max ≡ true
        → pos (count (counted user_id) (before ++ (a ∷ b ∷ []))) ≤ℤ max
    cases (pos m) h = ground (arith, count-append (counted user_id) before (a ∷ b ∷ []))
    cases (negsuc m) h = ground (arith, count-append (counted user_id) before (a ∷ b ∷ []))

-- The rows and the ports of `s`, and then two of each.
abbrev IsGrown : {W : Type 0} → Common → State W → State W → BundleTask → Type 0
IsGrown {W} c s s' task =
    (pg redis : DatabaseInstance) × (between : PortPool) × (s'.instances
      ≡ s.instances ++ (pg ∷ redis ∷ []))
    × ((pg.user_id ≡ c.user_id) × (redis.user_id ≡ c.user_id))
    × ((pg.status ≡ DbStatus.provisioning) × (redis.status ≡ DbStatus.provisioning))
    × ((pg.bundle_id ≡ some task.bundle_id) × (redis.bundle_id ≡ some task.bundle_id))
    × (allocate s.port_pool ≡ (some pg.port, between))
    × (allocate between ≡ (some redis.port, s'.port_pool))
    × ((task.pg.db_id ≡ pg.id) × (task.redis.db_id ≡ redis.id))
    × ((task.pg.port ≡ pg.port) × (task.redis.port ≡ redis.port))

module _ {W : Type 0} (svc : Services W) (cfg : Config) where
  redis-IsGrown :
      (c : Common) (pg : Half) (name : String) (s s₁ : State W) {reply : BundleResponse}
      {task : BundleTask} {s' : State W}
      → Given s pg.port s₁
      → Returns (bundle_redis svc cfg c pg name) s₁ (reply, task) s'
      → IsGrown c s s' task
  redis-IsGrown c pg name s s₁ {reply} {task} {s'} (given, rows) r =
      let inner : IsInner (IsSameRows s₁) = λ t w i. i in
      let (password, s₂, p₂, r₂) = Returns-bind _ _ s₁ r in
      let k₂ =
        kept (Keeps-generate_random_string svc (IsSameRows s₁) inner 32 s₁ (refl, refl)) p₂ in
      let (stored, s₃, p₃, r₃) = Returns-bind _ _ s₂ r₂ in
      let (rows₃, pool₃) =
        kept (Keeps-encrypt_string svc (IsSameRows s₁) inner password cfg.encryption_key s₂ k₂)
          p₃ in
      let (port, s₄, p₄, r₄) = Returns-bind _ _ s₃ r₃ in
      let (taken, rows₄) = Returns-allocate_second svc cfg pg.port s₃ p₄ in
      finish (redis_half svc cfg name password stored port) port s₄
        (sym (ap (λ x. allocate x) pool₃) ∙ taken) (rows₄ ∙ (rows₃ ∙ rows))
        (rows-IsPut svc cfg c pg _ name s₄ r₄) refl
    where
      finish :
          (h : Half) (port : ℕ) (s₄ : State W)
          → allocate s₁.port_pool ≡ (some port, s₄.port_pool)
          → s₄.instances ≡ s.instances
          → IsPut c pg h s₄ s' task
          → h.port ≡ port
          → IsGrown c s s' task
      finish h port s₄ taken rows₄ (a, b, grown, pool, of_pg, of_redis, bundle, ids, ports) p = (
        a,
        b,
        s₁.port_pool,
        grown ∙ ap (λ l. l ++ (a ∷ b ∷ [])) rows₄,
        (of_pg.0, of_redis.0),
        (of_pg.2, of_redis.2),
        (
          of_pg.3 ∙ ap {A = ℕ} {B = Option ℕ} some (sym bundle),
          of_redis.3 ∙ ap {A = ℕ} {B = Option ℕ} some (sym bundle),
        ),
        given ∙ ap (λ x. (some x, s₁.port_pool)) (sym of_pg.1),
        taken
            ∙ (ap (λ x. (some x, s₄.port_pool)) (sym (of_redis.1 ∙ p))
                ∙ ap (λ x. (some b.port, x)) (sym pool)),
        ids,
        (ports.0 ∙ sym of_pg.1, ports.1 ∙ sym of_redis.1),
      )

  pg-IsGrown :
      (c : Common) (name : String) (s s₁ : State W) {reply : BundleResponse} {task : BundleTask}
      {s' : State W}
      → IsSameRows s s₁
      → Returns (bundle_pg svc cfg c name) s₁ (reply, task) s'
      → IsGrown c s s' task
  pg-IsGrown c name s s₁ k₁ r =
      let inner : IsInner (IsSameRows s) = λ t w i. i in
      let (random, s₂, p₂, r₂) = Returns-bind _ _ s₁ r in
      let k₂ = kept (Keeps-generate_random_string svc (IsSameRows s) inner 12 s₁ k₁) p₂ in
      let (password, s₃, p₃, r₃) = Returns-bind _ _ s₂ r₂ in
      let k₃ = kept (Keeps-generate_random_string svc (IsSameRows s) inner 32 s₂ k₂) p₃ in
      let (stored, s₄, p₄, r₄) = Returns-bind _ _ s₃ r₃ in
      let (rows₄, pool₄) =
        kept (Keeps-encrypt_string svc (IsSameRows s) inner password cfg.encryption_key s₃ k₃) p₄ in
      let (port, s₅, p₅, r₅) = Returns-bind _ _ s₄ r₄ in
      let (taken, rows₅) = Returns-allocate_port s₄ p₅ in
      redis-IsGrown c _ name s s₅ (sym (ap (λ x. allocate x) pool₄) ∙ taken, rows₅ ∙ rows₄) r₅

  Keeps-create_bundle :
      (s : State W) (user_id : ℕ) (name : String)
      → Keeps (IsSameRows s) (Databases.create_bundle svc user_id name)
  unfolding Databases.create_bundle
  Keeps-create_bundle s user_id name s₁ i =
      let inner : IsInner (IsSameRows s) = λ t w i. i in
      At-then _ _ (At-new_uuid svc inner i) λ id s₂ i₂.
        At-then _ _ (At-now_utc svc inner i₂) λ t s₃ i₃.
          At-gets _ _
            (At-throw_if _ _ _ i₃ λ _. At-then _ _ (At-modify _ i₃) λ _ s₄ i₄. At-pure _ i₄)

  -- A request for a bundle that returns has added two rows, of one bundle and for the user, which are being
  -- provisioned at two different ports that the pool gave out one after the other; with them the user has no
  -- more databases than the limit, not counting those that are being deleted; and the task that it spawns is
  -- about these rows and these ports.
  pub create_bundle-IsPair :
      (user : AuthUser) (req : CreateBundleRequest) (s : State W) {reply : BundleResponse}
      {task : BundleTask} {s' : State W}
      → Returns (create_bundle svc cfg user req) s (reply, task) s'
      → IsPair cfg user s s' task
  unfolding create_bundle Databases.count_by_user
  create_bundle-IsPair user req s {reply} {task} {s'} r =
      let (named, r₁) = Returns-throw_if _ _ _ s r in
      let (moded, r₂) = Returns-throw_if _ _ _ s r₁ in
      let (room, r₃) = Returns-throw_if _ _ _ s (Returns-gets _ _ s r₂) in
      let (plan, s₁, p₁, r₄) = Returns-bind _ _ s r₃ in
      let k₁ = kept (Keeps-resolve_plan (IsSameRows s) _ _ _ s (refl, refl)) p₁ in
      let (target, s₂, p₂, r₅) = Returns-bind _ _ s₁ r₄ in
      let k₂ = kept (Keeps-select_server (IsSameRows s) _ _ _ s₁ k₁) p₂ in
      let (bundle, s₃, p₃, r₆) = Returns-bind _ _ s₂ r₅ in
      let k₃ = kept (Keeps-create_bundle s user.id req.name s₂ k₂) p₃ in
      conclude (true_of room) (common_of svc cfg user req plan target bundle) refl
        (pg-IsGrown (common_of svc cfg user req plan target bundle) req.name s s₃ k₃ r₆)
    where
      conclude :
          leb_ℤ (pos (count (counted user.id) s.instances + 2)) cfg.max_databases_per_user ≡ true
          → (c : Common) → c.user_id ≡ user.id
          → IsGrown c s s' task
          → IsPair cfg user s s' task
      conclude room c mine
            (pg, redis, between, grown, users, status, bundles, first, second, ids, ports) =
          record {
            pg = pg;
            redis = redis;
            rows_added = grown;
            of_user = (users.0 ∙ mine, users.1 ∙ mine);
            provisioning = status;
            one_bundle = bundles;
            in_quota =
                two_more user.id cfg.max_databases_per_user s.instances s'.instances pg redis grown
                  room;
            between = between;
            first_port = first;
            second_port = second;
            two_ports = ports_differ _ _ _ _ _ first second;
            task_databases = ids;
            task_ports = ports;
          }
