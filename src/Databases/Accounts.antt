-- ===== src/Databases/Accounts.antt =====
-- A user inside a database is stored with a password that can be read back: api/src/handlers/databases.rs
-- (lines 825 to 920).
use dbsaa_s.Prelude.{
  ℕ, find, ◌≡◌, refl, sym, ◌∙◌, ap, subst, true, false, not, [], ◌∷◌, ◌++◌, String, inl, inr,
  length, Bool, Option, none, some,
}
use dbsaa_s.Models.{DatabaseInstance, DbStatus, AuthUser, is_running}
use dbsaa_s.Models.Access.{DatabaseUser, DbPermission}
use dbsaa_s.Errors.{AppError, Result, ok, err}
use dbsaa_s.Config.{Config}
use dbsaa_s.Crypto.{decrypt_string}
use dbsaa_s.Crypto.Laws.{IsFaithful, decrypt_string-encrypt_with}
use dbsaa_s.Platform.{State, M, Docker, Services, or_throw, run, ◌>>=◌}
use dbsaa_s.Platform.Rules.{Keeps, At-gets, At-or_throw, At-throw_if, At-pure}
use dbsaa_s.Platform.Returns.{
  Returns, ok-inj, Returns-bind, Returns-pure, Returns-throw_if, Returns-modify, Returns-gets,
  Returns-new_uuid, Returns-now_utc, IsSameTables, IsSameTables-trans,
}
use dbsaa_s.Repository.Databases.{is_database}
use dbsaa_s.Repository.Databases
use dbsaa_s.Repository.Accounts
use dbsaa_s.Databases.Resources.{encrypt_string}
use dbsaa_s.Databases.Lifecycle.{own_database}
use dbsaa_s.Databases.Quiet.{IsSameTables-IsInner, IsSameTables-refl}
use dbsaa_s.Databases.Tasks.{Keeps-resolve_docker}
use dbsaa_s.Databases.Inserts.{kept, Keeps-generate_random_string, Keeps-encrypt_string}
use dbsaa_s.Databases.Actions.{IsOwned, own_database-cases}
use dbsaa_s.Databases.Names.{IsName, validate_username-IsName}
use dbsaa_s.Databases.Users.{
  DatabaseUserResponse, create_database_user, open_account, owner_password_of,
}
use dbsaa_s.Databases.Credentials.{Keeps-add_account, Keeps-of_result, Returns-encrypt_string}

pub Keeps-own_database :
    {W : Type 0} (I : State W → Type 0) (user : AuthUser) (id : ℕ) → Keeps I (own_database user id)
unfolding own_database Databases.find_by_id
Keeps-own_database I user id s i =
    At-gets _ _ (At-or_throw _ _ _ i λ inst _. At-throw_if _ _ _ i λ _. At-pure inst i)

pub Returns-or_throw :
    {W A B : Type 0} (o : Option A) (e : AppError) (k : A → M W B) (s : State W) {b : B}
    {s' : State W}
    → Returns (or_throw o e >>= k) s b s'
    → (a : A) × (o ≡ some a) × Returns (k a) s b s'
unfolding run
Returns-or_throw none e k s {b} h = let bad : err e ≡ ok b = ap (λ x. x.0) h in cc
Returns-or_throw (some a) e k s h = (a, refl, h)

-- The row that an insertion adds.
abbrev IsAdded :
    {W : Type 0} → ℕ → String → String → DbPermission → State W → State W → DatabaseUser → Type 0
IsAdded {W} database_id username encrypted permission s s' row =
    (row.database_id ≡ database_id)
    × (row.username ≡ username)
    × (row.password_encrypted ≡ encrypted)
    × (row.permission ≡ permission)
    × (w : W) × (s' ≡ record s { database_users = s.database_users ++ (row ∷ []); world = w })

Returns-add_row :
    {W : Type 0} (svc : Services W) (database_id : ℕ) (username encrypted : String)
    (permission : DbPermission) (s : State W) {row : DatabaseUser} {s' : State W}
    → Returns (Accounts.create_database_user svc database_id username encrypted permission) s row s'
    → IsAdded database_id username encrypted permission s s' row
unfolding Accounts.create_database_user
Returns-add_row svc database_id username encrypted permission s {row} {s'} r =
    let (id, s₁, p₁, r₁) = Returns-bind _ _ s r in
    let (t, s₂, p₂, r₂) = Returns-bind _ _ s₁ r₁ in
    let (w, same) =
      IsSameTables-trans s s₁ s₂ (Returns-new_uuid svc s p₁) (Returns-now_utc svc s₁ p₂) in
    let (fresh, r₃) = Returns-throw_if _ _ _ s₂ (Returns-gets _ _ s₂ (Returns-gets _ _ s₂ r₂)) in
    let (known, r₄) = Returns-throw_if _ _ _ s₂ r₃ in
    let (made, grown) = Returns-modify _ _ s₂ r₄ in
    (
      ap (λ x. x.database_id) (sym made),
      ap (λ x. x.username) (sym made),
      ap (λ x. x.password_encrypted) (sym made),
      ap (λ x. x.permission) (sym made),
      w,
      grown
          ∙ (ap {A = DatabaseUser} {B = State _}
                (λ y. record s₂ { database_users = s₂.database_users ++ (y ∷ []) }) made
              ∙ ap {A = State _} {B = State _}
                  (λ x. record x { database_users = x.database_users ++ (row ∷ []) }) same),
    )

pub true_of : {b : Bool} → not b ≡ false → b ≡ true
true_of {b = true} h = refl
true_of {b = false} h = cc

own_database-IsOwned :
    {W : Type 0} (user : AuthUser) (id : ℕ) (s : State W) {inst : DatabaseInstance} {s' : State W}
    → Returns (own_database user id) s inst s'
    → IsOwned user id s inst
own_database-IsOwned user id s {inst} r = elim (own_database-cases user id s) [
  | inl (e, stop) ↦ let bad : err e ≡ ok inst = ap (λ x. x.0) (sym stop ∙ r) in cc
  | inr (found, owned, go) ↦ subst (IsOwned user id s) (ok-inj (ap (λ x. x.0) (sym go ∙ r))) owned
]

-- One row more and nothing else changed in the tables: a user of the database with the name and the rights
-- asked for, whose stored password decrypts to the one of the reply.
pub record IsOpened {W : Type 0} (svc : Services W) (cfg : Config) (id : ℕ) (username : String)
    (permission : DbPermission) (s s' : State W) (reply : DatabaseUserResponse) : Type 0 where
  pub row : DatabaseUser
  pub later : W
  pub row_added : s' ≡ record s { database_users = s.database_users ++ (row ∷ []); world = later }
  pub of_database : row.database_id ≡ id
  pub named : row.username ≡ username
  pub allowed : row.permission ≡ permission
  pub replied : reply.id ≡ row.id
  pub readable :
      decrypt_string svc.primitives row.password_encrypted cfg.encryption_key ≡ ok reply.password

is_running-eq : (status : DbStatus) → is_running status ≡ true → status ≡ DbStatus.running
is_running-eq DbStatus.running h = refl
is_running-eq DbStatus.provisioning h = cc
is_running-eq DbStatus.stopped h = cc
is_running-eq DbStatus.error h = cc
is_running-eq DbStatus.deleting h = cc

module _ {W : Type 0} (svc : Services W) (cfg : Config) (faithful : IsFaithful svc.primitives)
    (twelve : (w : W) → length (svc.fill_nonce w).0 ≡ 12) (id : ℕ) (username : String)
    (permission : DbPermission) (s : State W) where
  stored-readable :
      (password : String) (s₂ : State W) {stored : String} {s₃ : State W}
      → svc.primitives.from_utf8 (svc.primitives.as_bytes password) ≡ inr password
      → Returns (encrypt_string svc password cfg.encryption_key) s₂ stored s₃
      → decrypt_string svc.primitives stored cfg.encryption_key ≡ ok password
  stored-readable password s₂ {stored} utf8 r =
      let (w, sealed) = Returns-encrypt_string svc password cfg.encryption_key s₂ r in
      decrypt_string-encrypt_with svc.primitives faithful (svc.fill_nonce w).0 password
        cfg.encryption_key stored (twelve w) utf8 sealed

  open_account-IsOpened :
      (inst : DatabaseInstance) (docker : Docker) (cid : String) (s₁ : State W)
      {reply : DatabaseUserResponse} {s' : State W}
      → svc.primitives.from_utf8 (svc.primitives.as_bytes reply.password) ≡ inr reply.password
      → IsSameTables s s₁
      → Returns (open_account svc cfg id inst docker cid username permission) s₁ reply s'
      → IsOpened svc cfg id username permission s s' reply
  unfolding owner_password_of
  open_account-IsOpened inst docker cid s₁ {reply} {s'} utf8 k₁ r =
      let same = IsSameTables-IsInner s in
      let (password, s₂, p₂, r₂) = Returns-bind _ _ s₁ r in
      let k₂ = kept (Keeps-generate_random_string svc (IsSameTables s) same 32 s₁ k₁) p₂ in
      let (stored, s₃, p₃, r₃) = Returns-bind _ _ s₂ r₂ in
      let k₃ =
        kept (Keeps-encrypt_string svc (IsSameTables s) same password cfg.encryption_key s₂ k₂)
          p₃ in
      let (owner, s₄, p₄, r₄) = Returns-bind _ _ s₃ r₃ in
      let k₄ = kept (Keeps-of_result (IsSameTables s) _ s₃ k₃) p₄ in
      let (done, s₅, p₅, r₅) = Returns-bind _ _ s₄ r₄ in
      let (w₅, e₅) =
        kept
          (Keeps-add_account svc (IsSameTables s) same docker cid cfg inst.db_type inst owner
            username password permission s₄ k₄)
          p₅ in
      let (row, s₆, p₆, r₆) = Returns-bind _ _ s₅ r₅ in
      let (said, stay) = Returns-pure _ s₆ r₆ in
      let (of_db, named, kept_text, allowed, w, grown) =
        Returns-add_row svc id username stored permission s₅ p₆ in
      let same_text : password ≡ reply.password = ap (λ x. x.password) said in
      record {
        row = row;
        later = w;
        row_added =
            stay
            ∙ (grown
                ∙ ap {A = State W} {B = State W}
                    (λ x. record x { database_users = x.database_users ++ (row ∷ []); world = w })
                    e₅);
        of_database = of_db;
        named = named;
        allowed = allowed;
        replied = ap (λ x. x.id) (sym said);
        readable =
            ap (λ x. decrypt_string svc.primitives x cfg.encryption_key) kept_text
            ∙ (stored-readable password s₂
                  (subst (λ x. svc.primitives.from_utf8 (svc.primitives.as_bytes x) ≡ inr x)
                    (sym same_text) utf8)
                  p₃
                ∙ ap {A = String} {B = Result String} ok same_text);
      }

  -- A request for a user inside a database that returns is from the owner of the database, which runs, for a
  -- name of at most 63 letters, digits and underscores; it has added one row and changed nothing else in the
  -- tables; and the stored password decrypts to the one of the reply, where the cipher, base64 and UTF-8 give
  -- back what they were given and the nonces have twelve bytes.
  pub create_database_user-IsOpened :
      (user : AuthUser) {reply : DatabaseUserResponse} {s' : State W}
      → svc.primitives.from_utf8 (svc.primitives.as_bytes reply.password) ≡ inr reply.password
      → Returns (create_database_user svc cfg user id username permission) s reply s'
      → IsName username
        × ((inst : DatabaseInstance) × (find (is_database id) s.instances ≡ some inst)
            × (inst.user_id ≡ user.id)
            × (inst.status ≡ DbStatus.running))
        × IsOpened svc cfg id username permission s s' reply
  unfolding create_database_user
  create_database_user-IsOpened user utf8 r =
      let same = IsSameTables-IsInner s in
      let (valid, r₁) = Returns-throw_if _ _ _ s r in
      let (inst, s₁, p₁, r₂) = Returns-bind _ _ s r₁ in
      let k₁ = kept (Keeps-own_database (IsSameTables s) user id s (IsSameTables-refl s)) p₁ in
      let (running, r₃) = Returns-throw_if _ _ _ s₁ r₂ in
      let (cid, found, r₄) = Returns-or_throw _ _ _ s₁ r₃ in
      let (docker, s₂, p₂, r₅) = Returns-bind _ _ s₁ r₄ in
      let k₂ = kept (Keeps-resolve_docker svc (IsSameTables s) same inst s₁ k₁) p₂ in
      (
        validate_username-IsName username (true_of valid),
        let (row, owner) = own_database-IsOwned user id s p₁ in
            (inst, row, owner, is_running-eq inst.status (true_of running)),
        open_account-IsOpened inst docker cid s₂ utf8 k₂ r₅,
      )
