-- ===== src/Auth/Current.antt =====
-- Who gets through the middleware: api/src/middleware/auth.rs, api/src/middleware/admin.rs.
use dbsaa_s.Prelude.{
  ◌≡◌, refl, sym, ◌∙◌, ap, subst, ◌⊎◌, inl, inr, Bool, true, not, Option, none, some, String, find,
}
use dbsaa_s.Models.{AuthUser}
use dbsaa_s.Models.Roles.{UserRole}
use dbsaa_s.Models.Access.{User}
use dbsaa_s.Errors.{AppError, Result, ok, err}
use dbsaa_s.Config.{Config}
use dbsaa_s.Platform.{State, call, run, ◌>>=◌}
use dbsaa_s.Platform.Returns.{
  Returns, Returns-bind, Returns-gets, Returns-throw_if, Returns-pure, IsSameTables,
}
use dbsaa_s.Databases.Accounts.{true_of}
use dbsaa_s.Repository.Users.{is_user, has_key}
use dbsaa_s.Repository.Users
use dbsaa_s.Databases.Accounts.{Returns-or_throw}
use dbsaa_s.Auth.{
  Claims, Tokens, strip_prefix, auth_user, known_user, by_header, by_key_or_none, auth_middleware,
  admin_middleware, is_admin,
}

Returns-call :
    {W A : Type 0} (f : W → Result A × W) (s : State W) {a : A} {s' : State W}
    → Returns (call f) s a s'
    → (w : W) × ((f s.world).0 ≡ ok a) × (s' ≡ record s { world = w })
unfolding run
Returns-call f s r = ((f s.world).1, ap (λ x. x.0) r, sym (ap (λ x. x.1) r))

some-inj : {A : Type 0} {a b : A} → some a ≡ some b → a ≡ b
some-inj h = cc

admin-role : (r : UserRole) → is_admin r ≡ true → r ≡ UserRole.admin
admin-role UserRole.admin h = refl
admin-role UserRole.user h = cc

module _ {W : Type 0} (tokens : Tokens W) (cfg : Config) where
  -- What the header says of the row: its token decodes to claims about the row's id, or the hash of its key is
  -- that of the row.
  abbrev pub IsVouched : String → State W → User → Type 0
  IsVouched header s row =
      ((token : String) × (claims : Claims) × (strip_prefix header "Bearer " ≡ some token)
        × ((w : W) × ((tokens.decode token cfg.jwt_secret w).0 ≡ ok claims))
        × (find (is_user claims.sub) s.users ≡ some row))
      ⊎ ((key : String) × (strip_prefix header "ApiKey " ≡ some key)
          × (find (has_key (tokens.hash_api_key key)) s.users ≡ some row))

  -- The user is a row of the table as it is now, and nothing has changed but the world.
  abbrev pub IsCurrent : Option String → State W → State W → AuthUser → Type 0
  IsCurrent header s s' user =
      (row : User) × ((text : String) × (header ≡ some text) × IsVouched text s row)
      × (user ≡ auth_user row)
      × IsSameTables s s'

  known-row :
      (s : State W) (w : W) (p : User → Bool) {user : AuthUser} {s' : State W}
      → Returns (known_user (find p s.users)) (record s { world = w }) user s'
      → (row : User) × (find p s.users ≡ some row) × (user ≡ auth_user row) × IsSameTables s s'
  known-row s w p r =
      let (row, found, r₁) = Returns-or_throw _ _ _ (record s { world = w }) r in
      let (e, same) = Returns-pure _ (record s { world = w }) r₁ in (row, found, sym e, (w, same))

  by_key-IsCurrent :
      (text : String) (s : State W) (o : Option String) {user : AuthUser} {s' : State W}
      → strip_prefix text "ApiKey " ≡ o
      → Returns (by_key_or_none tokens cfg o) s user s'
      → IsCurrent (some text) s s' user
  unfolding Users.find_by_api_key run
  by_key-IsCurrent text s none {user} e r =
      let bad : err AppError.unauthorized ≡ ok user = ap (λ x. x.0) r in cc
  by_key-IsCurrent text s (some key) e r =
      let (row, found, same_user, same) =
        known-row s s.world (has_key (tokens.hash_api_key key)) r in
      (row, (text, refl, inr (key, e, found)), same_user, same)

  by_header-IsCurrent :
      (text : String) (s : State W) (o : Option String) {user : AuthUser} {s' : State W}
      → strip_prefix text "Bearer " ≡ o
      → Returns (by_header tokens cfg text o) s user s'
      → IsCurrent (some text) s s' user
  unfolding Users.find_by_id
  by_header-IsCurrent text s none e r = by_key-IsCurrent text s _ refl r
  by_header-IsCurrent text s (some token) {user} {s'} e r =
      let (claims, s₁, p, r₁) = Returns-bind _ _ s r in
      let (w, decoded, moved) = Returns-call (tokens.decode token cfg.jwt_secret) s p in
      let (row, found, same_user, same) = known-row s w (is_user claims.sub) (
        subst (λ t. Returns (known_user (find (is_user claims.sub) t.users)) t user s') moved
          (Returns-gets _ _ s₁ r₁)) in
      (row, (text, refl, inl (token, claims, e, (s.world, decoded), found)), same_user, same)

  auth_middleware-IsCurrent :
      (header : Option String) (s : State W) {user : AuthUser} {s' : State W}
      → Returns (auth_middleware tokens cfg header) s user s'
      → IsCurrent header s s' user
  unfolding auth_middleware
  auth_middleware-IsCurrent header s {user} {s'} r =
      let (text, e, r₁) = Returns-or_throw _ _ _ s r in
      subst (λ h. IsCurrent h s s' user) (sym e) (by_header-IsCurrent text s _ refl r₁)

  -- A request that gets to an endpoint of the administrator carries a token or a key of a user whose row says
  -- now that he is an administrator, whatever the token says of his role; the endpoint is given this row's id,
  -- email and role; and nothing in the tables has changed.
  pub admin_middleware-IsCurrent :
      (header : Option String) (s : State W) {user : AuthUser} {s' : State W}
      → Returns (auth_middleware tokens cfg header >>= λ u. admin_middleware (some u)) s user s'
      → IsCurrent header s s' user × (user.role ≡ UserRole.admin)
  unfolding admin_middleware
  admin_middleware-IsCurrent header s {user} {s'} r =
      let (u, s₁, p, r₁) = Returns-bind _ _ s r in
      let (same_u, said, r₂) = Returns-or_throw _ _ _ s₁ r₁ in
      let (allowed, r₃) = Returns-throw_if _ _ _ s₁ r₂ in
      let (given, stay) = Returns-pure _ s₁ r₃ in
      let is_u : u ≡ user = some-inj said ∙ given in
      (
        subst (λ x. IsCurrent header s x user) (sym stay)
            (subst (λ x. IsCurrent header s s₁ x) is_u (auth_middleware-IsCurrent header s p)),
        admin-role user.role (true_of (ap (λ x. not (is_admin x.role)) (sym given) ∙ allowed)),
      )
