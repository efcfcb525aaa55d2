-- ===== src/Admin/Refused.antt =====
-- What the tables refuse the administrator: api/src/handlers/admin.rs (`create_invitation`).
use dbsaa_s.Prelude.{
  ℕ, ◌≡◌, refl, sym, ◌∙◌, ap, Bool, true, false, not, Option, none, some, String, any,
}
use dbsaa_s.Prelude.Int.{ℤ}
use dbsaa_s.Models.Access.{Invitation}
use dbsaa_s.Errors.{AppError, Result, ok, err}
use dbsaa_s.Platform.{State, Services}
use dbsaa_s.Platform.Rules.{At, Keeps, At-pure, At-gets, At-throw_if, At-new_uuid, At-now_utc}
use dbsaa_s.Databases.Quiet.{At-then, IsSameTables-IsInner, IsSameTables-refl}
use dbsaa_s.Databases.Inserts.{kept, Keeps-generate_random_string}
use dbsaa_s.Platform.Returns.{
  IsSameTables, IsSameTables-trans, Returns, Returns-bind, Returns-new_uuid, Returns-now_utc,
  Returns-throw_if, Returns-gets,
}
use dbsaa_s.Repository.Users.{is_user}
use dbsaa_s.Repository.Invitations
use dbsaa_s.Admin.{nil_id, create_invitation, expiry}

not-false : (b : Bool) → b ≡ false → not b ≡ false → ⊥
not-false true h k = cc
not-false false h k = cc

-- A call that fails, and that changes nothing but the world.
abbrev pub IsFailure : {W A : Type 0} → State W → Result A × State W → Type 0
IsFailure {W} {A} s x = (e : AppError) × (w : W) × (x ≡ (err e, record s { world = w }))

failed-IsFailure :
    {W A : Type 0} (s : State W) (r : Result A) (s' : State W)
    → ((a : A) → r ≡ ok a → ⊥)
    → IsSameTables s s'
    → IsFailure s (r, s')
failed-IsFailure s (ok a) s' never same = absurd (never a refl)
failed-IsFailure s (err e) s' never (w, same) = (e, w, ap (λ x. (err e, x)) same)

module _ {W : Type 0} (svc : Services W) (s : State W) where
  create-absurd :
      (code : String) (max_uses : ℤ) (expires_at : Option ℕ) (s₁ : State W) {row : Invitation}
      {s' : State W}
      → any (is_user nil_id) s.users ≡ false
      → IsSameTables s s₁
      → Returns (Invitations.create svc code nil_id max_uses expires_at) s₁ row s'
      → ⊥
  unfolding Invitations.create
  create-absurd code max_uses expires_at s₁ none_is k₁ r =
      let (id, s₂, p₂, r₂) = Returns-bind _ _ s₁ r in
      let (t, s₃, p₃, r₃) = Returns-bind _ _ s₂ r₂ in
      let (w, same) =
        IsSameTables-trans s s₁ s₃ k₁
          (IsSameTables-trans s₁ s₂ s₃ (Returns-new_uuid svc s₁ p₂) (Returns-now_utc svc s₂ p₃)) in
      let (fresh, r₄) = Returns-throw_if _ _ _ s₃ (Returns-gets _ _ s₃ (Returns-gets _ _ s₃ r₃)) in
      let (known, r₅) = Returns-throw_if _ _ _ s₃ r₄ in
      let is_there : not (any (is_user nil_id) s.users) ≡ false =
        ap (λ x. not (any (is_user nil_id) x.users)) (sym same) ∙ known in
      not-false (any (is_user nil_id) s.users) none_is is_there

  Keeps-create :
      (code : String) (max_uses : ℤ) (expires_at : Option ℕ)
      → any (is_user nil_id) s.users ≡ false
      → Keeps (IsSameTables s) (Invitations.create svc code nil_id max_uses expires_at)
  unfolding Invitations.create
  Keeps-create code max_uses expires_at none_is s₁ i =
      let inner = IsSameTables-IsInner s in
      At-then _ _ (At-new_uuid svc inner i) λ id s₂ i₂.
        At-then _ _ (At-now_utc svc inner i₂) λ t s₃ i₃. At-gets _ _ (
          At-gets _ _ (
            At-throw_if _ _ _ i₃ λ _. At-throw_if _ _ _ i₃ λ known. absurd (
              not-false (any (is_user nil_id) s.users) none_is
                (ap (λ x. not (any (is_user nil_id) x.users)) (sym i₃.1) ∙ known))))

  Keeps-expiry : (hours : Option ℤ) → Keeps (IsSameTables s) (expiry svc hours)
  Keeps-expiry none s₁ i = At-pure _ i
  Keeps-expiry (some hours) s₁ i =
      At-then _ _ (At-now_utc svc (IsSameTables-IsInner s) i) λ t s₂ i₂. At-pure _ i₂

  Keeps-create_invitation :
      (max_uses expires_in_hours : Option ℤ)
      → any (is_user nil_id) s.users ≡ false
      → At (IsSameTables s) s (create_invitation svc max_uses expires_in_hours)
  unfolding create_invitation
  Keeps-create_invitation max_uses hours none_is =
      let inner = IsSameTables-IsInner s in
      At-then _ _
        (Keeps-generate_random_string svc (IsSameTables s) inner 16 s (IsSameTables-refl s))
        λ code s₁ i₁.
          At-then _ _ (Keeps-expiry hours s₁ i₁)
            λ expires s₂ i₂. Keeps-create code _ expires none_is s₂ i₂

  never-create_invitation :
      (max_uses expires_in_hours : Option ℤ) (row : Invitation) {s' : State W}
      → any (is_user nil_id) s.users ≡ false
      → Returns (create_invitation svc max_uses expires_in_hours) s row s'
      → ⊥
  unfolding create_invitation
  never-create_invitation max_uses hours row none_is r =
      let inner = IsSameTables-IsInner s in
      let (code, s₁, p₁, r₁) = Returns-bind _ _ s r in
      let k₁ =
        kept (Keeps-generate_random_string svc (IsSameTables s) inner 16 s (IsSameTables-refl s))
          p₁ in
      let (expires, s₂, p₂, r₂) = Returns-bind _ _ s₁ r₁ in
      create-absurd code _ expires s₂ none_is (kept (Keeps-expiry hours s₁ k₁) p₂) r₂

  -- As long as no user has the nil UUID, the administrator's endpoint for a new invitation fails, whatever it is
  -- asked for, and leaves the tables as they were.
  pub create_invitation-IsFailure :
      (max_uses expires_in_hours : Option ℤ)
      → any (is_user nil_id) s.users ≡ false
      → IsFailure s (create_invitation svc max_uses expires_in_hours s)
  create_invitation-IsFailure max_uses hours none_is =
      failed-IsFailure s _ _
        (λ row e.
          never-create_invitation max_uses hours row none_is
            (ap (λ r. (r, (create_invitation svc max_uses hours s).1)) e))
        (Keeps-create_invitation max_uses hours none_is).at
