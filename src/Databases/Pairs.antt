-- ===== src/Databases/Pairs.antt =====
-- A bundle has two rows and two ports, or it has neither: api/src/handlers/databases.rs (lines 374 to 523).
use dbsaa_s.Prelude.{ℕ, ◌≡◌, sym, ◌∙◌, ap, some, [], ◌∷◌, ◌++◌, String}
use mathlib.Core.List.{append_assoc}
use dbsaa_s.Models.{DatabaseInstance, DbStatus}
use dbsaa_s.Errors.{Result, ok, err}
use dbsaa_s.Ports.{allocate}
use dbsaa_s.Config.{Config}
use dbsaa_s.Platform.{State, Services, run, attempt}
use dbsaa_s.Platform.Returns.{
  Returns, ok-inj, Returns-bind, Returns-pure, Returns-new_uuid, IsSameTables-trans,
}
use dbsaa_s.Databases.Resources.{allocate_port, release_port}
use dbsaa_s.Databases.Bundles.{
  Common, Half, BundleResponse, BundleTask, bundle_rows, allocate_second, second_port, half_row,
}
use dbsaa_s.Databases.Quiet.{IsSameTables-refl}
use dbsaa_s.Databases.Inserts.{created_after, IsInserted}
use dbsaa_s.Databases.Quota.{Returns-allocate_port}

-- The pool gave out `p`, and the rows are the same.
abbrev pub Given : {W : Type 0} → State W → ℕ → State W → Type 0
Given s p s' = (allocate s.port_pool ≡ (some p, s'.port_pool)) × (s'.instances ≡ s.instances)

second-Given :
    {W : Type 0} (svc : Services W) (cfg : Config) (p : ℕ) (r : Result ℕ) (s s₁ : State W) {q : ℕ}
    {s' : State W}
    → Returns (attempt allocate_port) s r s₁
    → Returns (second_port svc cfg p r) s₁ q s'
    → Given s q s'
unfolding run release_port
second-Given svc cfg p (ok p') s s₁ {q} {s'} given r =
    let (same, stay) = Returns-pure p' s₁ r in
    let first : allocate_port s ≡ (ok q, s') = λ i. (
      (ok-inj (ap (λ x. x.0) given) ∙ ap {A = ℕ} {B = Result ℕ} ok same) i,
      (ap (λ x. x.1) given ∙ sym stay) i,
    ) in
    Returns-allocate_port s first
second-Given svc cfg p (err e) s s₁ {q} given r = let bad : err e ≡ ok q = ap (λ x. x.0) r in cc

pub Returns-allocate_second :
    {W : Type 0} (svc : Services W) (cfg : Config) (p : ℕ) (s : State W) {q : ℕ} {s' : State W}
    → Returns (allocate_second svc cfg p) s q s'
    → Given s q s'
unfolding allocate_second
Returns-allocate_second svc cfg p s r =
    let (x, s₁, p₁, r₁) = Returns-bind _ _ s r in second-Given svc cfg p x s s₁ p₁ r₁

-- The row of one database of the bundle.
abbrev pub IsHalf : Common → Half → DatabaseInstance → Type 0
IsHalf c h row =
    (row.user_id ≡ c.user_id)
    × (row.port ≡ h.port)
    × (row.status ≡ DbStatus.provisioning)
    × (row.bundle_id ≡ some c.bundle.id)

abbrev pub IsPut : {W : Type 0} → Common → Half → Half → State W → State W → BundleTask → Type 0
IsPut c pg redis s s' task =
    (a b : DatabaseInstance) × (s'.instances ≡ s.instances ++ (a ∷ b ∷ []))
    × (s'.port_pool ≡ s.port_pool)
    × IsHalf c pg a
    × IsHalf c redis b
    × (task.bundle_id ≡ c.bundle.id)
    × ((task.pg.db_id ≡ a.id) × (task.redis.db_id ≡ b.id))
    × ((task.pg.port ≡ pg.port) × (task.redis.port ≡ redis.port))

half_of :
    {W : Type 0} (svc : Services W) (cfg : Config) (c : Common) (h : Half) (sub : String)
    (s s' : State W) {row : DatabaseInstance}
    → IsInserted (half_row svc cfg c h sub) s s' row
    → (s'.instances ≡ s.instances ++ (row ∷ [])) × (s'.port_pool ≡ s.port_pool) × IsHalf c h row
half_of svc cfg c h sub s s' (id, t, w, made, grown) = (
  ap (λ x. x.instances) grown,
  ap (λ x. x.port_pool) grown,
  (
    ap (λ x. x.user_id) made,
    ap (λ x. x.port) made,
    ap (λ x. x.status) made,
    ap (λ x. x.bundle_id) made,
  ),
)

pub rows-IsPut :
    {W : Type 0} (svc : Services W) (cfg : Config) (c : Common) (pg redis : Half) (name : String)
    (s : State W) {reply : BundleResponse} {task : BundleTask} {s' : State W}
    → Returns (bundle_rows svc cfg c pg redis name) s (reply, task) s'
    → IsPut c pg redis s s' task
rows-IsPut svc cfg c pg redis name s {s' = s'} r =
    let (u, s₁, p₁, r₁) = Returns-bind _ _ s r in
    let (v, s₂, p₂, r₂) = Returns-bind _ _ s₁ r₁ in
    let same =
      IsSameTables-trans s s₁ s₂ (Returns-new_uuid svc s p₁) (Returns-new_uuid svc s₁ p₂) in
    let (a, s₃, p₃, r₃) = Returns-bind _ _ s₂ r₂ in
    let (b, s₄, p₄, r₄) = Returns-bind _ _ s₃ r₃ in
    let (pair, stay) = Returns-pure _ s₄ r₄ in
    let (grown₁, pool₁, half₁) = half_of svc cfg c pg _ s s₃ (created_after svc _ s s₂ same p₃) in
    let (grown₂, pool₂, half₂) =
      half_of svc cfg c redis _ s₃ s₄ (created_after svc _ s₃ s₃ (IsSameTables-refl s₃) p₄) in
    (
      a,
      b,
      ap (λ x. x.instances) stay
          ∙ (grown₂
              ∙ (ap (λ l. l ++ (b ∷ [])) grown₁ ∙ append_assoc s.instances (a ∷ []) (b ∷ []))),
      ap (λ x. x.port_pool) stay ∙ (pool₂ ∙ pool₁),
      half₁,
      half₂,
      ap (λ x. x.1.bundle_id) (sym pair),
      (ap (λ x. x.1.pg.db_id) (sym pair), ap (λ x. x.1.redis.db_id) (sym pair)),
      (ap (λ x. x.1.pg.port) (sym pair), ap (λ x. x.1.redis.port) (sym pair)),
    )
