-- ===== src/Admin/Invited.antt =====
-- How often an invitation is used: api/src/repository/invitation_repo.rs, with the endpoints in
-- api/src/handlers/auth.rs and api/src/handlers/admin.rs that change invitations.
use dbsaa_s.Prelude.{
  ℕ, suc, ◌≤◌, ◌≡◌, refl, sym, ap, subst, Bool, true, false, Option, none, some, List, [], ◌∷◌,
  String, arith, All, All-append, All-delete, update, and-left, and-right, not-true, if◌then◌else◌,
}
use dbsaa_s.Prelude.Int.{ℤ, pos, pos_part, leb_ℤ, suc-le}
use dbsaa_s.Models.Access.{Invitation}
use dbsaa_s.Config.{Config}
use dbsaa_s.Platform.{State, Services}
use dbsaa_s.Platform.Rules.{
  Keeps, IsInner, At-pure, At-gets, At-modify, At-throw_if, At-call, At-new_uuid, At-now_utc,
}
use dbsaa_s.Databases.Quiet.{At-then}
use dbsaa_s.Databases.Inserts.{Keeps-generate_random_string}
use dbsaa_s.Repository.Users
use dbsaa_s.Repository.Invitations.{usable, used_once, suc_ℤ}
use dbsaa_s.Repository.Invitations
use dbsaa_s.Auth.{Tokens}
use dbsaa_s.Auth.Quiet.{Keeps-create_token, Keeps-check_open}
use dbsaa_s.Auth.Handlers.{CreateUserRequest, spend, register}
use dbsaa_s.Admin.{create_invitation, delete_invitation, expiry}

-- It has been used no more often than it may be, counted from zero.
abbrev pub IsWithin : Invitation → Type 0
IsWithin i = (n : ℕ) × (i.use_count ≡ pos n) × (n ≤ pos_part i.max_uses)

abbrev pub AllWithin : {W : Type 0} → State W → Type 0
AllWithin s = All IsWithin s.invitations

IsWithin-used_once :
    (code : String) (now user_id : ℕ) (i : Invitation)
    → usable code now i ≡ true
    → IsWithin i
    → IsWithin (used_once user_id i)
IsWithin-used_once code now user_id i h (n, e, le) =
    let free : leb_ℤ i.max_uses i.use_count ≡ false = not-true _ (and-left _ _ (and-right _ _ h)) in
    (suc n, ap suc_ℤ e, suc-le i.max_uses n (subst (λ c. leb_ℤ i.max_uses c ≡ false) e free))

All-update_if :
    {A : Type 0} (P : A → Type 0) (p : A → Bool) (f : A → A)
    → ((x : A) → p x ≡ true → P x → P (f x))
    → (xs : List A) → All P xs
    → All P (update p f xs)
All-update_if P p f step [] h = h
All-update_if P p f step (x ∷ xs) (px, pxs) = (go (p x) refl, All-update_if P p f step xs pxs)
  where
    go : (b : Bool) → p x ≡ b → P (if b then f x else x)
    go true e = step x e px
    go false e = px

module _ {W : Type 0} (svc : Services W) where
  inner : IsInner {W = W} AllWithin
  inner t w i = i

  Keeps-use_invitation :
      (code : String) (user_id : ℕ) → Keeps AllWithin (Invitations.use_invitation svc code user_id)
  unfolding Invitations.use_invitation
  Keeps-use_invitation code user_id s i = At-then _ _ (At-now_utc svc inner i) λ t s₁ i₁.
      At-gets _ _ (
        At-gets _ _ (
          At-throw_if _ _ _ i₁ λ _.
            At-then _ _
              (At-modify _ (
                All-update_if IsWithin (usable code t) (used_once user_id)
                  (λ x. IsWithin-used_once code t user_id x) s₁.invitations i₁))
              λ _ s₂ i₂. At-pure _ i₂))

  Keeps-create_user :
      (email hash : String) (role : _) → Keeps AllWithin (Users.create svc email hash role)
  unfolding Users.create
  Keeps-create_user email hash role s i = At-then _ _ (At-new_uuid svc inner i) λ id s₁ i₁.
      At-then _ _ (At-now_utc svc inner i₁) λ t s₂ i₂.
        At-gets _ _ (At-throw_if _ _ _ i₂ λ _. At-then _ _ (At-modify _ i₂) λ _ s₃ i₃. At-pure _ i₃)

  -- A new invitation has not been used.
  Keeps-create_invitation :
      (max_uses expires_in_hours : Option ℤ)
      → Keeps AllWithin (create_invitation svc max_uses expires_in_hours)
  unfolding create_invitation Invitations.create
  Keeps-create_invitation max_uses hours s i =
      At-then _ _ (Keeps-generate_random_string svc AllWithin inner 16 s i) λ code s₁ i₁.
        At-then _ _ (Keeps-expiry hours s₁ i₁) λ expires s₂ i₂.
          At-then _ _ (At-new_uuid svc inner i₂) λ id s₃ i₃.
            At-then _ _ (At-now_utc svc inner i₃) λ t s₄ i₄. At-gets _ _ (
              At-gets _ _ (
                At-throw_if _ _ _ i₄ λ _. At-throw_if _ _ _ i₄ λ _.
                  At-then _ _
                    (At-modify _
                      (All-append IsWithin s₄.invitations _ i₄ ((0, refl, omega arith), tt)))
                    λ _ s₅ i₅. At-pure _ i₅))
    where
      Keeps-expiry : (hours : Option ℤ) → Keeps AllWithin (expiry svc hours)
      Keeps-expiry none s₁ i₁ = At-pure _ i₁
      Keeps-expiry (some h) s₁ i₁ = At-then _ _ (At-now_utc svc inner i₁) λ t s₂ i₂. At-pure _ i₂

  Keeps-delete_invitation : (id : ℕ) → Keeps AllWithin (delete_invitation {W = W} id)
  unfolding delete_invitation Invitations.delete_row
  Keeps-delete_invitation id s i = At-modify _ (All-delete IsWithin _ s.invitations i)

  Keeps-delete_user_row : (id : ℕ) → Keeps AllWithin (Users.delete_user_row {W = W} id)
  unfolding Users.delete_user_row
  Keeps-delete_user_row id s i =
      At-gets _ _ (At-throw_if _ _ _ i λ _. At-modify _ (All-delete IsWithin _ s.invitations i))

module _ {W : Type 0} (svc : Services W) (tokens : Tokens W) (cfg : Config) where
  Keeps-spend : (code : Option String) (id : ℕ) → Keeps AllWithin (spend svc tokens cfg code id)
  Keeps-spend none id s i = At-pure _ i
  Keeps-spend (some code) id s i =
      At-then _ _ (Keeps-use_invitation svc code id s i) λ used s₁ i₁. At-pure _ i₁

  Keeps-register : (req : CreateUserRequest) → Keeps AllWithin (register svc tokens cfg req)
  unfolding register Users.find_by_email
  Keeps-register req s i = At-throw_if _ _ _ i λ _. At-throw_if _ _ _ i λ _. At-gets _ _ (
      At-then _ _
        (Keeps-check_open svc tokens cfg AllWithin (inner svc) s.registration_enabled
          req.invitation_code s i)
        λ _ s₁ i₁. At-gets _ _ (
          At-throw_if _ _ _ i₁ λ _. At-then _ _ (At-call _ (inner svc) i₁) λ hash s₂ i₂.
            At-then _ _ (Keeps-create_user svc req.email hash _ s₂ i₂) λ user s₃ i₃.
              At-then _ _ (Keeps-spend req.invitation_code user.id s₃ i₃) λ _ s₄ i₄.
                At-then _ _
                  (Keeps-create_token svc tokens cfg AllWithin (inner svc) user.id user.email
                    user.role s₄ i₄)
                  λ token s₅ i₅. At-pure _ i₅))

-- What happens to the table of invitations. A user's row may go with the invitations that the user made, and any
-- other call leaves the table alone.
pub data InviteStep {W : Type 0} (svc : Services W) (tokens : Tokens W) (cfg : Config)
    : State W → State W → Type 0 where
  registered :
      (req : CreateUserRequest) (s : State W)
      → InviteStep svc tokens cfg s (register svc tokens cfg req s).1
  invited :
      (max_uses expires_in_hours : Option ℤ) (s : State W)
      → InviteStep svc tokens cfg s (create_invitation svc max_uses expires_in_hours s).1
  uninvited : (id : ℕ) (s : State W) → InviteStep svc tokens cfg s (delete_invitation id s).1
  user_removed : (id : ℕ) (s : State W) → InviteStep svc tokens cfg s (Users.delete_user_row id s).1
  elsewhere : {s s' : State W} → s'.invitations ≡ s.invitations → InviteStep svc tokens cfg s s'

pub data Invitings {W : Type 0} (svc : Services W) (tokens : Tokens W) (cfg : Config)
    : State W → State W → Type 0 where
  done : {s : State W} → Invitings svc tokens cfg s s
  next :
      {s t u : State W}
      → Invitings svc tokens cfg s t
      → InviteStep svc tokens cfg t u
      → Invitings svc tokens cfg s u

module _ {W : Type 0} (svc : Services W) (tokens : Tokens W) (cfg : Config) where
  step-AllWithin : {s t : State W} → InviteStep svc tokens cfg s t → AllWithin s → AllWithin t
  step-AllWithin (InviteStep.registered req s) i = (Keeps-register svc tokens cfg req s i).at
  step-AllWithin (InviteStep.invited max_uses hours s) i =
      (Keeps-create_invitation svc max_uses hours s i).at
  step-AllWithin (InviteStep.uninvited id s) i = (Keeps-delete_invitation svc id s i).at
  step-AllWithin (InviteStep.user_removed id s) i = (Keeps-delete_user_row svc id s i).at
  step-AllWithin (InviteStep.elsewhere same) i = subst (All IsWithin) (sym same) i

  -- From a state in which no invitation has been used more often than it may be, any history of registrations,
  -- new and deleted invitations, removed users and other calls, in any order, reaches only such states.
  pub Invitings-AllWithin :
      {s t : State W} → AllWithin s → Invitings svc tokens cfg s t → AllWithin t
  Invitings-AllWithin i Invitings.done = i
  Invitings-AllWithin i (Invitings.next r step) = step-AllWithin step (Invitings-AllWithin i r)
