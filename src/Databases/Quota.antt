-- ===== src/Databases/Quota.antt =====
-- What a request for a database that returned has done: api/src/handlers/databases.rs (lines 95 to 212).
use dbsaa_s.Prelude.{
  ℕ, ◌≡◌, refl, sym, ◌∙◌, ap, arith, false, Option, none, some, List, [], ◌∷◌, ◌++◌, String, count,
  count-append,
}
use dbsaa_s.Prelude.Int.{ℤ, pos, negsuc, leb_ℤ, ◌≤ℤ◌}
use dbsaa_s.Models.{DatabaseInstance, DockerServer, DbStatus, AuthUser, F64}
use dbsaa_s.Errors.{AppError, Result, ok, err}
use dbsaa_s.Config.{Config}
use dbsaa_s.Ports.{PortPool, allocate}
use dbsaa_s.Platform.{State, Services}
use dbsaa_s.Platform.Returns.{
  Returns, ok-inj, Returns-bind, Returns-gets, Returns-throw_if, Returns-pure, IsSameTables,
}
use dbsaa_s.Repository.Databases.{NewDatabase, new_row, counted}
use dbsaa_s.Repository.Databases
use dbsaa_s.Databases.Resources.{allocate_port}
use dbsaa_s.Databases.Provisioning.{Provisioning}
use dbsaa_s.Databases.Create.{
  CreateDatabaseRequest, DatabaseResponse, new_database, insert_database, place, store, equip,
  create_database,
}
use dbsaa_s.Databases.Quiet.{IsSameTables-IsInner, IsSameTables-refl}
use dbsaa_s.Databases.Inserts.{
  kept, Keeps-resolve_plan, Keeps-select_server, Keeps-generate_random_string, Keeps-encrypt_string,
  IsInserted, insert_database-IsNew,
}

-- One row more, which is being provisioned at a port that was free, for the user, who still has no more
-- databases than allowed. The task is about this row and this port.
pub record IsCreated {W : Type 0} (cfg : Config) (user : AuthUser) (s s' : State W)
    (task : Provisioning) : Type 0 where
  pub row : DatabaseInstance
  pub row_added : s'.instances ≡ s.instances ++ (row ∷ [])
  pub of_user : row.user_id ≡ user.id
  pub provisioning : row.status ≡ DbStatus.provisioning
  pub in_quota : pos (count (counted user.id) s'.instances) ≤ℤ cfg.max_databases_per_user
  pub port_taken : allocate s.port_pool ≡ (some row.port, s'.port_pool)
  pub task_database : task.db_id ≡ row.id
  pub task_port : task.port ≡ row.port

port_case :
    {W : Type 0} (o : Option ℕ × PortPool) (s : State W) {p : ℕ} {s' : State W}
    → (elim o.0 as (λ _. Result ℕ × State W) [
      | none ↦ (err (AppError.internal "No available ports"), s)
      | some p ↦ (ok p, record s { port_pool = o.1 })
    ])
      ≡ (ok p, s')
    → (o ≡ (some p, s'.port_pool)) × (s'.instances ≡ s.instances)
port_case (none, pool) s {p} h =
    let bad : err (AppError.internal "No available ports") ≡ ok p = ap (λ x. x.0) h in cc
port_case (some q, pool) s h =
    let same : q ≡ _ = ok-inj (ap (λ x. x.0) h) in
    (λ i. (some (same i), (h i).1.port_pool), ap (λ x. x.1.instances) (sym h))

pub Returns-allocate_port :
    {W : Type 0} (s : State W) {p : ℕ} {s' : State W}
    → Returns allocate_port s p s'
    → (allocate s.port_pool ≡ (some p, s'.port_pool)) × (s'.instances ≡ s.instances)
unfolding allocate_port
Returns-allocate_port s h = port_case (allocate s.port_pool) s h

one_more :
    (user_id : ℕ) (max : ℤ) (before all : List DatabaseInstance) (row : DatabaseInstance)
    → all ≡ before ++ (row ∷ [])
    → leb_ℤ max (pos (count (counted user_id) before)) ≡ false
    → pos (count (counted user_id) all) ≤ℤ max
one_more user_id max before all row e room = rw e (cases max room)
  where
    cases :
        (max : ℤ)
        → leb_ℤ max (pos (count (counted user_id) before)) ≡ false
        → pos (count (counted user_id) (before ++ (row ∷ []))) ≤ℤ max
    cases (pos m) h = ground (arith, count-append (counted user_id) before (row ∷ []))
    cases (negsuc m) h = ground (arith, count-append (counted user_id) before (row ∷ []))

added :
    {W : Type 0} (cfg : Config) (user : AuthUser) (port : ℕ) (row : DatabaseInstance)
    (new : NewDatabase) (s s₅ s₆ s' : State W) (task : Provisioning)
    → IsSameTables s s₅
    → leb_ℤ cfg.max_databases_per_user (pos (count (counted user.id) s.instances)) ≡ false
    → (new.user_id ≡ user.id) × (new.port ≡ port)
    → (allocate s₅.port_pool ≡ (some port, s₆.port_pool)) × (s₆.instances ≡ s₅.instances)
    → IsInserted new s₆ s' row
    → task.db_id ≡ row.id
    → task.port ≡ port
    → IsCreated cfg user s s' task
added cfg user port row new s s₅ s₆ s' task (w, same) room (mine, at_port) (given, kept_rows)
      (id, t, v, made, grown) d p =
    let rows : s'.instances ≡ s.instances ++ (row ∷ []) =
      ap (λ x. x.instances) grown
      ∙ ap (λ l. l ++ (row ∷ [])) (kept_rows ∙ ap (λ x. x.instances) same) in
    let its_port : row.port ≡ port = ap (λ x. x.port) made ∙ at_port in
    record {
      row = row;
      row_added = rows;
      of_user = ap (λ x. x.user_id) made ∙ mine;
      provisioning = ap (λ x. x.status) made;
      in_quota = one_more user.id cfg.max_databases_per_user s.instances s'.instances row rows room;
      port_taken =
          ap (λ x. allocate x.port_pool) (sym same)
          ∙ (given
              ∙ (ap (λ q. (some q, s₆.port_pool)) (sym its_port)
                  ∙ ap (λ pool. (some row.port, pool)) (sym (ap (λ x. x.port_pool) grown))));
      task_database = d;
      task_port = p ∙ sym its_port;
    }

module _ {W : Type 0} (svc : Services W) (cfg : Config) (user : AuthUser)
    (req : CreateDatabaseRequest) (s : State W) where
  abbrev HasRoom : Type 0
  HasRoom = leb_ℤ cfg.max_databases_per_user (pos (count (counted user.id) s.instances)) ≡ false

  store-IsCreated :
      (plan : F64 × ℤ × Option ℕ) (target : Option DockerServer)
      (username password encrypted : String) (s₅ : State W) {reply : DatabaseResponse}
      {task : Provisioning} {s' : State W}
      → IsSameTables s s₅
      → HasRoom
      → Returns (store svc cfg user req plan target username password encrypted) s₅ (reply, task) s'
      → IsCreated cfg user s s' task
  store-IsCreated plan target username password encrypted s₅ {reply} {task} {s'} same room r =
      let (port, s₆, p₆, r₁) = Returns-bind _ _ s₅ r in placed port s₆ p₆ r₁
    where
      placed :
          (port : ℕ) (s₆ : State W)
          → Returns allocate_port s₅ port s₆
          → Returns
              (place svc cfg user req plan target username password encrypted port)
              s₆
              (reply, task)
              s'
          → IsCreated cfg user s s' task
      placed port s₆ p₆ r =
          let (inst, s₇, p₇, r₁) = Returns-bind _ _ s₆ r in
          let (pair, stay) = Returns-pure _ s₇ r₁ in
          replied inst (p₇ ∙ ap (λ x. (ok inst, x)) (sym stay)) (ap (λ x. x.1.db_id) (sym pair))
            (ap (λ x. x.1.port) (sym pair))
        where
          replied :
              (inst : DatabaseInstance)
              → Returns
                  (insert_database svc cfg
                    (new_database svc cfg user req port username encrypted plan target)
                    req.name)
                  s₆
                  inst
                  s'
              → task.db_id ≡ inst.id
              → task.port ≡ port
              → IsCreated cfg user s s' task
          replied inst put d p =
              let (sub, inserted) = insert_database-IsNew svc cfg _ req.name s₆ put in
              added cfg user port inst _ s s₅ s₆ s' task same room (refl, refl)
                (Returns-allocate_port s₅ p₆) inserted d p

  equip-IsCreated :
      (plan : F64 × ℤ × Option ℕ) (target : Option DockerServer) (s₂ : State W)
      {reply : DatabaseResponse} {task : Provisioning} {s' : State W}
      → IsSameTables s s₂
      → HasRoom
      → Returns (equip svc cfg user req plan target) s₂ (reply, task) s'
      → IsCreated cfg user s s' task
  equip-IsCreated plan target s₂ k₂ room r =
      let same = IsSameTables-IsInner s in
      let (random, s₃, p₃, r₆) = Returns-bind _ _ s₂ r in
      let k₃ = kept (Keeps-generate_random_string svc (IsSameTables s) same 12 s₂ k₂) p₃ in
      let (password, s₄, p₄, r₇) = Returns-bind _ _ s₃ r₆ in
      let k₄ = kept (Keeps-generate_random_string svc (IsSameTables s) same 32 s₃ k₃) p₄ in
      let (encrypted, s₅, p₅, r₈) = Returns-bind _ _ s₄ r₇ in
      let k₅ =
        kept (Keeps-encrypt_string svc (IsSameTables s) same password cfg.encryption_key s₄ k₄)
          p₅ in
      store-IsCreated plan target _ password encrypted s₅ k₅ room r₈

  -- A request for a database that returns has added one row, for the user, which is being provisioned at
  -- the port that the pool gave out; with it the user has no more databases than the limit, not counting
  -- those that are being deleted; and the task is about this row and this port.
  pub create_database-IsCreated :
      {reply : DatabaseResponse} {task : Provisioning} {s' : State W}
      → Returns (create_database svc cfg user req) s (reply, task) s'
      → IsCreated cfg user s s' task
  unfolding create_database Databases.count_by_user
  create_database-IsCreated r =
      let (named, r₁) = Returns-throw_if _ _ _ s r in
      let (moded, r₂) = Returns-throw_if _ _ _ s r₁ in
      let (room, r₃) = Returns-throw_if _ _ _ s (Returns-gets _ _ s r₂) in
      let (plan, s₁, p₁, r₄) = Returns-bind _ _ s r₃ in
      let k₁ = kept (Keeps-resolve_plan (IsSameTables s) _ _ _ s (IsSameTables-refl s)) p₁ in
      let (target, s₂, p₂, r₅) = Returns-bind _ _ s₁ r₄ in
      equip-IsCreated plan target s₂ (kept (Keeps-select_server (IsSameTables s) _ _ _ s₁ k₁) p₂)
        room r₅
