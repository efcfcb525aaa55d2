-- ===== src/Auth/Quiet.antt =====
-- The steps of a registration that leave the tables alone: api/src/handlers/auth.rs (lines 19 to 40),
-- api/src/middleware/auth.rs (lines 78 to 99).
use dbsaa_s.Prelude.{ℕ, Bool, true, false, Option, none, some, String}
use dbsaa_s.Models.Roles.{UserRole}
use dbsaa_s.Config.{Config}
use dbsaa_s.Platform.{State, Services}
use dbsaa_s.Platform.Rules.{
  Keeps, IsInner, At-pure, At-gets, At-throw_if, At-or_throw, At-call, At-now_utc, Keeps-throw_if,
}
use dbsaa_s.Databases.Quiet.{At-then}
use dbsaa_s.Repository.Invitations
use dbsaa_s.Auth.{Tokens, create_token}
use dbsaa_s.Auth.Handlers.{check_open, check_expiry}

module _ {W : Type 0} (svc : Services W) (tokens : Tokens W) (cfg : Config) (I : State W → Type 0)
    (inner : IsInner I) where
  pub Keeps-create_token :
      (id : ℕ) (email : String) (role : UserRole)
      → Keeps I (create_token svc tokens cfg id email role)
  unfolding create_token
  Keeps-create_token id email role s i =
      At-then _ _ (At-now_utc svc inner i) λ t s₁ i₁. At-call _ inner i₁

  Keeps-check_expiry : (e : Option ℕ) → Keeps I (check_expiry svc tokens cfg e)
  Keeps-check_expiry none s i = At-pure _ i
  Keeps-check_expiry (some e) s i =
      At-then _ _ (At-now_utc svc inner i) λ t s₁ i₁. Keeps-throw_if _ _ s₁ i₁

  pub Keeps-check_open :
      (enabled : Bool) (code : Option String) → Keeps I (check_open svc tokens cfg enabled code)
  unfolding Invitations.find_by_code
  Keeps-check_open true code s i = At-pure _ i
  Keeps-check_open false code s i = At-or_throw _ _ _ i λ c _.
      At-gets _ _ (
        At-or_throw _ _ _ i λ inv _. At-throw_if _ _ _ i λ _. Keeps-check_expiry inv.expires_at s i)
