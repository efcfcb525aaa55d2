-- ===== src/Databases/Actions.antt =====
-- Starting, stopping and restarting, on every way out: api/src/handlers/databases.rs (lines 741 to 795).
use dbsaa_s.Prelude.{
  ℕ, Option, none, some, String, Bool-cases, Option-cases, ◌⊎◌, inl, inr, ◌≡◌, ◌≢◌, refl, sym, ◌∙◌,
  subst, ◌==◌, ==→eq, ==-ne, find,
}
use dbsaa_s.Models.{DatabaseInstance, ContainerAction, AuthUser}
use dbsaa_s.Errors.{AppError, Result, ok, err}
use dbsaa_s.Platform.{State, M, Services, run, or_throw, ◌>>=◌, ◌>>◌}
use dbsaa_s.Platform.Rules.{At, >>=_assoc}
use dbsaa_s.Platform.Returns.{IsSameTables, after_err, after_ok}
use dbsaa_s.Repository.Databases.{is_database}
use dbsaa_s.Repository.Databases
use dbsaa_s.Databases.Lifecycle.{
  own_database, resolve_docker_for_instance, act, acted, container_action, delete_database,
  scale_database, rename_database,
}
use dbsaa_s.Databases.Quiet.{At-then, IsSameTables-IsInner, IsSameTables-refl}
use dbsaa_s.Databases.Tasks.{Keeps-resolve_docker, Keeps-act}
use dbsaa_s.Databases.Outcomes.{after_quiet}
use dbsaa_s.Databases.Acted.{Acted, acted-Acted}

abbrev pub IsOwned : {W : Type 0} → AuthUser → ℕ → State W → DatabaseInstance → Type 0
IsOwned user id s inst = (find (is_database id) s.instances ≡ some inst) × (inst.user_id ≡ user.id)

module _ {W : Type 0} (user : AuthUser) (id : ℕ) (s : State W) where
  pub own_database-cases :
      ((e : AppError) × (own_database user id s ≡ (err e, s)))
      ⊎ ((inst : DatabaseInstance) × IsOwned user id s inst
          × (own_database user id s ≡ (ok inst, s)))
  unfolding own_database Databases.find_by_id run
  own_database-cases = elim (Option-cases (find (is_database id) s.instances)) [
    | inl e ↦ inl (AppError.not_found "Database not found", rw e refl)
    | inr (inst, e) ↦ elim (Bool-cases (inst.user_id == user.id)) [
      | inl y ↦ inr (inst, (e, ==→eq inst.user_id user.id y), rw (e, y) refl)
      | inr n ↦ inl (AppError.forbidden, rw (e, n) refl)
    ]
  ]

  pub own_database-forbidden :
      {inst : DatabaseInstance}
      → find (is_database id) s.instances ≡ some inst
      → inst.user_id ≢ user.id
      → own_database user id s ≡ (err AppError.forbidden, s)
  unfolding own_database Databases.find_by_id run
  own_database-forbidden {inst} found other = rw (found, ==-ne inst.user_id user.id other) refl

At-or_fail :
    {W A : Type 0} (o : Option A) (e : AppError) (s : State W)
    → At (IsSameTables s) s (or_throw o e)
unfolding or_throw
At-or_fail none e s = record { at = IsSameTables-refl s }
At-or_fail (some a) e s = record { at = IsSameTables-refl s }

module _ {W : Type 0} where
  bind_ext :
      {A B : Type 0} (r : Result A) (s : State W) (f g : A → M W B)
      → ((a : A) (t : State W) → f a t ≡ g a t)
      → ((λ _. (r, s)) >>= f) s ≡ ((λ _. (r, s)) >>= g) s
  unfolding ◌>>=◌
  bind_ext (ok a) s f g h = h a s
  bind_ext (err e) s f g h = refl

  -- Three steps and a last one, put together from either side.
  bind-bind_bind :
      {A B C D : Type 0} (m : M W A) (f : A → M W B) (g : A → B → M W C) (k : C → M W D)
      (s : State W)
      → ((m >>= λ a. f a >>= g a) >>= k) s ≡ (m >>= λ a. f a >>= λ b. g a b >>= k) s
  unfolding ◌>>=◌
  bind-bind_bind m f g k s =
      >>=_assoc (m s).0 (m s).1 (λ a. f a >>= g a) k
      ∙ bind_ext (m s).0 (m s).1 _ _ λ a t. >>=_assoc (f a t).0 (f a t).1 (g a) k

module _ {W : Type 0} (svc : Services W) (user : AuthUser) (id : ℕ) (s : State W) where
  -- The call failed and no table has changed.
  abbrev pub IsRefused : {A : Type 0} → Result A × State W → Type 0
  IsRefused x = (e : AppError) × (w : W) × (x ≡ (err e, record s { world = w }))

  -- What is asked of Docker, before anything is written.
  abbrev pub on_docker : ContainerAction → DatabaseInstance → M W (Unit {0})
  on_docker action inst =
      or_throw inst.container_id (AppError.bad_request "Container not provisioned yet") >>= λ cid.
      resolve_docker_for_instance svc inst >>= λ docker. act svc action docker cid

  -- A failure, or what is written in the world that Docker's answers leave.
  abbrev pub Outcome : ContainerAction → Result (Unit {0}) × State W → Type 0
  Outcome action x =
      IsRefused x
      ⊎ ((inst : DatabaseInstance) × IsOwned user id s inst
          × Acted svc action inst (on_docker action inst s).1.world s x)

  act_on-Outcome :
      (action : ContainerAction) (inst : DatabaseInstance)
      → IsOwned user id s inst
      → Outcome action (
          (or_throw inst.container_id (AppError.bad_request "Container not provisioned yet")
              >>= λ cid. resolve_docker_for_instance svc inst >>= λ docker.
                  act svc action docker cid >> acted svc action inst)
            s)
  act_on-Outcome action inst owned =
      subst (Outcome action)
        (bind-bind_bind (or_throw inst.container_id _) (λ cid. resolve_docker_for_instance svc inst)
          (λ cid docker. act svc action docker cid) (λ _. acted svc action inst) s)
        (after_quiet (on_docker action inst) _ s (Outcome action) (Keeps-on_docker action inst)
          (λ e w. inl (e, w, refl)) λ _. inr (inst, owned, acted-Acted svc action inst s _))
    where
      Keeps-on_docker :
          (action : ContainerAction) (inst : DatabaseInstance)
          → At (IsSameTables s) s (on_docker action inst)
      Keeps-on_docker action inst =
          let same = IsSameTables-IsInner s in
          At-then _ _ (At-or_fail inst.container_id _ s) λ cid s₁ k₁.
            At-then _ _ (Keeps-resolve_docker svc (IsSameTables s) same inst s₁ k₁)
              λ docker s₂ k₂. Keeps-act svc (IsSameTables s) same action docker cid s₂ k₂

  -- A call of `container_action` either fails, and then no table, port or event has changed, or it
  -- returns, and then the database is one of the user's, its status is the one that the action leads to,
  -- the change is announced, no port has moved, and a start or a stop has left one event for the bill
  -- (unless the UUID drawn for it was already that of an event) and a restart none.
  pub container_action-outcomes :
      (action : ContainerAction) → Outcome action (container_action svc user id action s)
  unfolding container_action
  container_action-outcomes action = elim (own_database-cases user id s) [
    | inl (e, stop) ↦ inl (e, s.world, after_err _ _ s e stop)
    | inr (inst, owned, go) ↦
        subst (Outcome action) (sym (after_ok (own_database user id) _ s s inst go))
          (act_on-Outcome action inst owned)
  ]

  -- A user who is not the owner of a database gets 403 from the endpoints that start, stop or restart it,
  -- delete it, scale it and rename it, and nothing has changed: no table, no port, nothing outside.
  pub database-forbidden :
      {inst : DatabaseInstance}
      → find (is_database id) s.instances ≡ some inst
      → inst.user_id ≢ user.id
      → ((action : ContainerAction)
          → container_action svc user id action s ≡ (err AppError.forbidden, s))
        × (delete_database svc user id s ≡ (err AppError.forbidden, s))
        × ((plan : ℕ) → scale_database svc user id plan s ≡ (err AppError.forbidden, s))
        × ((name : String) → rename_database svc user id name s ≡ (err AppError.forbidden, s))
  unfolding container_action delete_database scale_database rename_database
  database-forbidden found other =
      let h = own_database-forbidden user id s found other in
      (
        λ action. after_err _ _ s _ h,
        after_err _ _ s _ h,
        λ plan. after_err _ _ s _ h,
        λ name. after_err _ _ s _ h,
      )
