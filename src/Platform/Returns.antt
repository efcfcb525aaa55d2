-- ===== src/Platform/Returns.antt =====
-- What is known of a call that returned: which of its steps returned, and with what.
use dbsaa_s.Prelude.{◌≡◌, refl, sym, ◌∙◌, ap, Bool, true, false, ℕ}
use dbsaa_s.Errors.{AppError, Result, ok, err}
use dbsaa_s.Platform.{
  State, M, Services, pure, gets, modify, throw_if, run, new_uuid, now_utc, ◌>>=◌, ◌>>◌,
}

abbrev value_or : {A : Type 0} → A → Result A → A
value_or a (ok b) = b
value_or a (err e) = a

pub ok-inj : {A : Type 0} {a b : A} → ok a ≡ ok b → a ≡ b
ok-inj {A} {a} h = ap (value_or a) h

-- `m` returns `a` and leaves `s'`.
abbrev pub Returns : {W A : Type 0} → M W A → State W → A → State W → Type 0
Returns m s a s' = m s ≡ (ok a, s')

bind-Returns :
    {W A B : Type 0} (r : Result A) (s₁ : State W) (k : A → M W B) {b : B} {s' : State W}
    → (elim r as (λ _. Result B × State W) [ ok a ↦ k a s₁ | err e ↦ (err e, s₁) ]) ≡ (ok b, s')
    → (a : A) × (r ≡ ok a) × Returns (k a) s₁ b s'
bind-Returns (ok a) s₁ k h = (a, refl, h)
bind-Returns {W} {A} {B} (err e) s₁ k {b} {s'} h = let bad : err e ≡ ok b = ap (λ x. x.0) h in cc

module _ {W A B : Type 0} where
  pub Returns-bind :
      (m : M W A) (k : A → M W B) (s : State W) {b : B} {s' : State W}
      → Returns (m >>= k) s b s'
      → (a : A) × (s₁ : State W) × Returns m s a s₁ × Returns (k a) s₁ b s'
  unfolding ◌>>=◌
  Returns-bind m k s h =
      let (a, e, rest) = bind-Returns (m s).0 (m s).1 k h in
      (a, (m s).1, ap (λ r. (r, (m s).1)) e, rest)

module _ {W : Type 0} where
  pub Returns-gets :
      {A B : Type 0} (f : State W → A) (k : A → M W B) (s : State W) {b : B} {s' : State W}
      → Returns (gets f >>= k) s b s'
      → Returns (k (f s)) s b s'
  unfolding run
  Returns-gets f k s h = h

  pub Returns-throw_if :
      {B : Type 0} (c : Bool) (e : AppError) (k : M W B) (s : State W) {b : B} {s' : State W}
      → Returns (throw_if c e >> k) s b s'
      → (c ≡ false) × Returns k s b s'
  unfolding run
  Returns-throw_if true e k s {b} h = let bad : err e ≡ ok b = ap (λ x. x.0) h in cc
  Returns-throw_if false e k s h = (refl, h)

  pub Returns-pure :
      {A : Type 0} (a : A) (s : State W) {b : A} {s' : State W}
      → Returns (pure a) s b s'
      → (a ≡ b) × (s' ≡ s)
  unfolding run
  Returns-pure a s h = (ok-inj (ap (λ x. x.0) h), sym (ap (λ x. x.1) h))

  -- `s'` has the tables of `s`.
  abbrev pub IsSameTables : State W → State W → Type 0
  IsSameTables s s' = (w : W) × (s' ≡ record s { world = w })

  pub Returns-new_uuid :
      (svc : Services W) (s : State W) {id : ℕ} {s' : State W}
      → Returns (new_uuid svc) s id s'
      → IsSameTables s s'
  unfolding new_uuid
  Returns-new_uuid svc s h = ((svc.uuid s.world).1, sym (ap (λ x. x.1) h))

  pub Returns-now_utc :
      (svc : Services W) (s : State W) {t : ℕ} {s' : State W}
      → Returns (now_utc svc) s t s'
      → IsSameTables s s'
  unfolding now_utc
  Returns-now_utc svc s h = ((svc.now s.world).1, sym (ap (λ x. x.1) h))

  pub IsSameTables-trans :
      (s s₁ s₂ : State W) → IsSameTables s s₁ → IsSameTables s₁ s₂ → IsSameTables s s₂
  IsSameTables-trans s s₁ s₂ (w, e) (w', e') =
      (w', e' ∙ ap {A = State W} {B = State W} (λ x. record x { world = w' }) e)

  -- The last step of an insertion.
  pub Returns-modify :
      {A : Type 0} (f : State W → State W) (a : A) (s : State W) {b : A} {s' : State W}
      → Returns (modify f >> pure a) s b s'
      → (a ≡ b) × (s' ≡ f s)
  unfolding run
  Returns-modify f a s h = (ok-inj (ap (λ x. x.0) h), sym (ap (λ x. x.1) h))

pub after_err :
    {W A B : Type 0} (m : M W A) (k : A → M W B) (s : State W) (e : AppError)
    → m s ≡ (err e, s)
    → (m >>= k) s ≡ (err e, s)
unfolding ◌>>=◌
after_err {W} {B = B} m k s e h =
    ap (λ x. elim x.0 as (λ _. Result B × State W) [ ok a ↦ k a x.1 | err d ↦ (err d, x.1) ]) h

pub after_ok :
    {W A B : Type 0} (m : M W A) (k : A → M W B) (s s₁ : State W) (a : A)
    → m s ≡ (ok a, s₁)
    → (m >>= k) s ≡ k a s₁
unfolding ◌>>=◌
after_ok {W} {B = B} m k s s₁ a h =
    ap (λ x. elim x.0 as (λ _. Result B × State W) [ ok a ↦ k a x.1 | err d ↦ (err d, x.1) ]) h
