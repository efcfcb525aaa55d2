-- ===== src/Repository/Servers/Removal.antt =====
-- What deleting a Docker server says and does: api/src/repository/docker_server_repo.rs (lines 94 to 100),
-- api/src/handlers/docker_servers.rs (lines 41 to 55).
use dbsaa_s.Prelude.{
  ℕ, ◌≡◌, ◌≢◌, refl, sym, ◌∙◌, ap, Bool, true, false, delete, any, ltb, arith, count, ◌&&◌, ◌==◌,
  List, [], ◌∷◌, Option, none, some, All, Bool-cases, ◌⊎◌, inl, inr, String, and-left, and-right,
  or-false, All-map, All-any, Option-cases, ==→eq, ==-self,
}
use dbsaa_s.Text.{concat, show_i32}
use dbsaa_s.Prelude.Int.{pos}
use dbsaa_s.Models.{DatabaseInstance, PrivateNetwork, NetworkPeering, DbStatus, is_live}
use dbsaa_s.Errors.{AppError, Result, ok, err}
use dbsaa_s.Platform.{State, modify, throw_if, run, ◌>>◌}
use dbsaa_s.Repository.Networks.{foreign_key}
use dbsaa_s.Repository.Servers.{on_server, containers_on, count_containers_on_server}
use dbsaa_s.Repository.Servers.Admin.{is_server, is_referred, names_server}
use dbsaa_s.Repository.Servers.Admin
use dbsaa_s.Repository.Servers.Placement.{Among}
use dbsaa_s.Admin.Servers.{delete_server}

-- A database that is neither in error nor being deleted has its container on the server.
pub record IsUsing (id : ℕ) (d : DatabaseInstance) : Type 0 where
  pub on_it : d.docker_server_id ≡ some id
  pub no_error : d.status ≢ DbStatus.error
  pub not_going : d.status ≢ DbStatus.deleting

-- A row of a table that names a server names this one.
abbrev pub Names : {A : Type 0} → (A → Option ℕ) → ℕ → List A → Type 0
Names {A} server_of id rows = (a : A) × Among a rows × (server_of a ≡ some id)

abbrev pub NamesNone : {A : Type 0} → (A → Option ℕ) → ℕ → List A → Type 0
NamesNone server_of id rows = All (λ a. server_of a ≢ some id) rows

abbrev of_database : DatabaseInstance → Option ℕ
of_database d = d.docker_server_id

abbrev of_network : PrivateNetwork → Option ℕ
of_network n = n.docker_server_id

abbrev of_peering : NetworkPeering → Option ℕ
of_peering p = p.docker_server_id

module _ {A : Type 0} (p : A → Bool) where
  Among-any : (l : List A) → any p l ≡ true → (a : A) × Among a l × (p a ≡ true)
  Among-any [] h = cc
  Among-any (x ∷ xs) h = elim (Bool-cases (p x)) [
    | inl y ↦ (x, inl refl, y)
    | inr n ↦ let (a, m, e) = Among-any xs (rw n at h) in (a, inr m, e)
  ]

  any-Among : (a : A) (l : List A) → Among a l → p a ≡ true → any p l ≡ true
  any-Among a [] m e = absurd m
  any-Among a (x ∷ xs) (inl same) e = rw (ap p (sym same) ∙ e) refl
  any-Among a (x ∷ xs) (inr m) e = ground (arith, any-Among a xs m e)

  any-count : (l : List A) → ltb 0 (count p l) ≡ any p l
  any-count [] = refl
  any-count (x ∷ xs) = ground (arith, any-count xs)

module _ (id : ℕ) where
  names_server-eq : (o : Option ℕ) → names_server id o ≡ true → o ≡ some id
  names_server-eq none h = cc
  names_server-eq (some server) h = ap some (==→eq server id h)

  names_server-ne : (o : Option ℕ) → names_server id o ≡ false → o ≢ some id
  names_server-ne o h e =
      let bad : false ≡ true = sym h ∙ (ap (names_server id) e ∙ ==-self id) in cc

  is_live-ne :
      (status : DbStatus)
      → is_live status ≡ true
      → (status ≢ DbStatus.error) × (status ≢ DbStatus.deleting)
  is_live-ne status h = (
    λ e. let bad : true ≡ false = sym h ∙ ap is_live e in cc,
    λ e. let bad : true ≡ false = sym h ∙ ap is_live e in cc,
  )

  ne-is_live :
      (status : DbStatus)
      → status ≢ DbStatus.error
      → status ≢ DbStatus.deleting
      → is_live status ≡ true
  ne-is_live DbStatus.provisioning e d = refl
  ne-is_live DbStatus.running e d = refl
  ne-is_live DbStatus.stopped e d = refl
  ne-is_live DbStatus.error e d = absurd (e refl)
  ne-is_live DbStatus.deleting e d = absurd (d refl)

  IsUsing-on_server : (d : DatabaseInstance) → on_server id d ≡ true → IsUsing id d
  IsUsing-on_server d h = elim (Option-cases d.docker_server_id) [
    | inl e ↦ let bad : false ≡ true = rw e at h in cc
    | inr (server, e) ↦
        let both : (server == id && is_live d.status) ≡ true = rw e at h in
        let (no_error, not_going) = is_live-ne d.status (and-right _ _ both) in
        record {
          on_it = e ∙ ap some (==→eq server id (and-left _ _ both));
          no_error = no_error;
          not_going = not_going;
        }
  ]

  on_server-IsUsing : (d : DatabaseInstance) → IsUsing id d → on_server id d ≡ true
  on_server-IsUsing d u = rw (u.on_it, ==-self id, ne-is_live d.status u.no_error u.not_going) refl

module _ {W : Type 0} (id : ℕ) (s : State W) where
  abbrev pub IsBusy : Type 0
  IsBusy = (d : DatabaseInstance) × Among d s.instances × IsUsing id d

  abbrev pub IsNamed : Type 0
  IsNamed =
      Names of_database id s.instances
      ⊎ (Names of_network id s.networks ⊎ Names of_peering id s.peerings)

  abbrev pub IsFree : Type 0
  IsFree =
      NamesNone of_database id s.instances
      × NamesNone of_network id s.networks
      × NamesNone of_peering id s.peerings

  -- What a call answers: a 400 while a database runs on the server, an error of PostgreSQL while a row
  -- names it, and `ok` when nothing does.
  abbrev pub Outcome : Result (Unit {0}) × State W → Type 0
  Outcome x =
      (IsBusy × ((msg : String) × (x ≡ (err (AppError.bad_request msg), s))))
      ⊎ (((¬ IsBusy) × IsNamed × (x ≡ (err foreign_key, s)))
          ⊎ (IsFree × (x ≡ (ok tt, record s { servers = delete (is_server id) s.servers }))))

  busy_or_not :
      (ltb 0 (containers_on s.instances id) ≡ true → IsBusy)
      × (ltb 0 (containers_on s.instances id) ≡ false → ¬ IsBusy)
  busy_or_not = (
    λ h.
        let (d, m, e) =
          Among-any (on_server id) s.instances (sym (any-count (on_server id) s.instances) ∙ h) in
        (d, m, IsUsing-on_server id d e),
    λ h (d, m, u).
        let bad : true ≡ false =
          sym (any-Among (on_server id) d s.instances m (on_server-IsUsing id d u))
          ∙ (sym (any-count (on_server id) s.instances) ∙ h) in
        cc,
  )

  named_or_free : (is_referred s id ≡ true → IsNamed) × (is_referred s id ≡ false → IsFree)
  named_or_free = (
    λ h. elim (Bool-cases (any (λ d. names_server id (of_database d)) s.instances)) [
      | inl y ↦ inl (named of_database s.instances y)
      | inr n ↦ elim (Bool-cases (any (λ d. names_server id (of_network d)) s.networks)) [
        | inl y ↦ inr (inl (named of_network s.networks y))
        | inr k ↦ inr (inr (named of_peering s.peerings (rw (n, k) at h)))
      ]
    ],
    λ h.
        let (d, later) = or-false _ _ h in
        let (n, p) = or-false _ _ later in
        (
          unnamed of_database s.instances d,
          unnamed of_network s.networks n,
          unnamed of_peering s.peerings p,
        ),
  )
    where
      named :
          {A : Type 0} (f : A → Option ℕ) (l : List A)
          → any (λ a. names_server id (f a)) l ≡ true
          → Names f id l
      named f l h =
          let (a, m, e) = Among-any (λ a. names_server id (f a)) l h in
          (a, m, names_server-eq id (f a) e)

      unnamed :
          {A : Type 0} (f : A → Option ℕ) (l : List A)
          → any (λ a. names_server id (f a)) l ≡ false
          → NamesNone f id l
      unnamed f l h =
          All-map _ _ (λ a. names_server-ne id (f a)) l (All-any (λ a. names_server id (f a)) l h)

  abbrev message : String
  message = concat (
      "Server still has "
      ∷ show_i32 (pos (containers_on s.instances id))
      ∷ " active containers. Migrate them first."
      ∷ [])

  -- The call, by the answer to its first question, and the statement, by that to its own.
  abbrev asked : Bool → Result (Unit {0}) × State W
  asked busy = (throw_if busy (AppError.bad_request message) >> Admin.remove id) s

  abbrev statement : Bool → Result (Unit {0}) × State W
  statement barred =
      (throw_if barred foreign_key
          >> modify (λ t. record t { servers = delete (is_server id) t.servers }))
        s

  refused :
      ltb 0 (containers_on s.instances id) ≡ true
      → (msg : String) × (delete_server id s ≡ (err (AppError.bad_request msg), s))
  unfolding delete_server count_containers_on_server run
  refused busy = (message, ap asked busy)

  barred_by_key :
      ltb 0 (containers_on s.instances id) ≡ false
      → (any (is_server id) s.servers && is_referred s id) ≡ true
      → delete_server id s ≡ (err foreign_key, s)
  unfolding delete_server Admin.remove count_containers_on_server run
  barred_by_key idle barred = ap asked idle ∙ ap statement barred

  removed :
      ltb 0 (containers_on s.instances id) ≡ false
      → (any (is_server id) s.servers && is_referred s id) ≡ false
      → delete_server id s ≡ (ok tt, record s { servers = delete (is_server id) s.servers })
  unfolding delete_server Admin.remove count_containers_on_server run
  removed idle free = ap asked idle ∙ ap statement free

  -- For a server of the table, the endpoint that deletes it has one of three outcomes: a 400 with nothing
  -- changed, and some database that is neither in error nor being deleted is on the server; or an error
  -- of PostgreSQL with nothing changed, no such database, and a row of the databases, networks or peerings
  -- that still names the server; or `ok`, no row of these tables names it, the server is gone, and nothing
  -- else has changed.
  pub delete_server-outcomes : any (is_server id) s.servers ≡ true → Outcome (delete_server id s)
  delete_server-outcomes there = elim (Bool-cases (ltb 0 (containers_on s.instances id))) [
    | inl y ↦ inl (busy_or_not.0 y, refused y)
    | inr n ↦ elim (Bool-cases (is_referred s id)) [
      | inl y ↦ inr (inl (busy_or_not.1 n, named_or_free.0 y, barred_by_key n (rw (there, y) refl)))
      | inr f ↦ inr (inr (named_or_free.1 f, removed n (rw (there, f) refl)))
    ]
  ]
