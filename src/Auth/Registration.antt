-- ===== src/Auth/Registration.antt =====
-- What a registration adds: api/src/handlers/auth.rs (lines 12 to 64).
use dbsaa_s.Prelude.{
  ℕ, ◌≡◌, refl, sym, ◌∙◌, ap, false, Option, none, some, List, [], ◌∷◌, ◌++◌, String, str_eq, find,
}
use dbsaa_s.Models.Roles.{UserRole}
use dbsaa_s.Models.Access.{User}
use dbsaa_s.Config.{Config}
use dbsaa_s.Platform.{State, Services}
use dbsaa_s.Platform.Rules.{
  Keeps, IsInner, At-pure, At-gets, At-modify, At-throw_if, At-call, At-now_utc,
}
use dbsaa_s.Platform.Returns.{
  Returns, Returns-bind, Returns-gets, Returns-throw_if, Returns-pure, Returns-modify,
  Returns-new_uuid, Returns-now_utc, IsSameTables-trans,
}
use dbsaa_s.Databases.Quiet.{At-then}
use dbsaa_s.Databases.Inserts.{kept}
use dbsaa_s.Repository.Users
use dbsaa_s.Repository.Invitations
use dbsaa_s.Auth.{Tokens}
use dbsaa_s.Auth.Handlers.{CreateUserRequest, AuthResponse, is_some, spend, register}
use dbsaa_s.Auth.Quiet.{Keeps-create_token, Keeps-check_open}

abbrev HasUsers : {W : Type 0} → List User → State W → Type 0
HasUsers users s = s.users ≡ users

none-of : {A : Type 0} (o : Option A) → is_some o ≡ false → o ≡ none
none-of none h = refl
none-of (some a) h = cc

module _ {W : Type 0} (svc : Services W) (tokens : Tokens W) (cfg : Config) where
  Keeps-spend :
      (users : List User) (code : Option String) (id : ℕ)
      → Keeps (HasUsers users) (spend svc tokens cfg code id)
  unfolding Invitations.use_invitation
  Keeps-spend users none id s i = At-pure _ i
  Keeps-spend users (some code) id s i =
      let inner : IsInner (HasUsers {W = W} users) = λ t w j. j in
      At-then _ _
        (At-then _ _ (At-now_utc svc inner i) λ t s₁ i₁. At-gets _ _ (
          At-gets _ _
            (At-throw_if _ _ _ i₁ λ _. At-then _ _ (At-modify _ i₁) λ _ s₂ i₂. At-pure _ i₂)))
        λ used s₁ i₁. At-pure _ i₁

  Returns-create_user :
      (email hash : String) (role : UserRole) (s : State W) {row : User} {s' : State W}
      → Returns (Users.create svc email hash role) s row s'
      → (s'.users ≡ s.users ++ (row ∷ [])) × (row.email ≡ email) × (row.role ≡ role)
  unfolding Users.create
  Returns-create_user email hash role s {row} r =
      let (id, s₁, p₁, r₁) = Returns-bind _ _ s r in
      let (t, s₂, p₂, r₂) = Returns-bind _ _ s₁ r₁ in
      let (w, same) =
        IsSameTables-trans s s₁ s₂ (Returns-new_uuid svc s p₁) (Returns-now_utc svc s₁ p₂) in
      let (fresh, r₃) = Returns-throw_if _ _ _ s₂ (Returns-gets _ _ s₂ r₂) in
      let (made, grown) = Returns-modify _ _ s₂ r₃ in
      (
        ap (λ x. x.users) grown
            ∙ (ap (λ x. s₂.users ++ (x ∷ [])) made ∙ ap (λ x. x.users ++ (row ∷ [])) same),
        ap (λ x. x.email) (sym made),
        ap (λ x. x.role) (sym made),
      )

  abbrev pub IsRegistered : CreateUserRequest → State W → State W → AuthResponse → Type 0
  IsRegistered req s s' reply =
      (row : User) × (find (λ u. str_eq u.email req.email) s.users ≡ none)
      × (s'.users ≡ s.users ++ (row ∷ []))
      × (row.email ≡ req.email)
      × (row.role ≡ UserRole.user)
      × (reply.user.id ≡ row.id)

  -- A registration that returns has added one user, with the email asked for, which no user had, and without
  -- the rights of an administrator; the reply is about this user.
  pub register-IsRegistered :
      (req : CreateUserRequest) (s : State W) {reply : AuthResponse} {s' : State W}
      → Returns (register svc tokens cfg req) s reply s'
      → IsRegistered req s s' reply
  unfolding register Users.find_by_email
  register-IsRegistered req s {reply} {s'} r =
      let inner : (users : List User) → IsInner (HasUsers {W = W} users) = λ users t w j. j in
      let (mail, r₁) = Returns-throw_if _ _ _ s r in
      let (secret, r₂) = Returns-throw_if _ _ _ s r₁ in
      let (_, s₁, p₁, r₃) = Returns-bind _ _ s (Returns-gets _ _ s r₂) in
      let k₁ =
        kept
          (Keeps-check_open svc tokens cfg (HasUsers s.users) (inner s.users) s.registration_enabled
            req.invitation_code s refl)
          p₁ in
      let (free, r₄) = Returns-throw_if _ _ _ s₁ (Returns-gets _ _ s₁ r₃) in
      let (hash, s₂, p₂, r₅) = Returns-bind _ _ s₁ r₄ in
      let k₂ = kept {I = HasUsers s.users} (At-call _ (inner s.users) k₁) p₂ in
      let (row, s₃, p₃, r₆) = Returns-bind _ _ s₂ r₅ in
      let (grown, email, role) = Returns-create_user req.email hash UserRole.user s₂ p₃ in
      let (_, s₄, p₄, r₇) = Returns-bind _ _ s₃ r₆ in
      let k₄ = kept (Keeps-spend s₃.users req.invitation_code row.id s₃ refl) p₄ in
      let (token, s₅, p₅, r₈) = Returns-bind _ _ s₄ r₇ in
      let k₅ =
        kept
          (Keeps-create_token svc tokens cfg (HasUsers s₃.users) (inner s₃.users) row.id row.email
            row.role s₄ k₄)
          p₅ in
      let (said, stay) = Returns-pure _ s₅ r₈ in
      (
        row,
        ap (λ l. find (λ u. str_eq u.email req.email) l) (sym k₁) ∙ none-of _ free,
        ap (λ x. x.users) stay ∙ (k₅ ∙ (grown ∙ ap (λ l. l ++ (row ∷ [])) k₂)),
        email,
        role,
        ap (λ x. x.user.id) (sym said),
      )
