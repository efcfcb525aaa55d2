-- ===== src/Billing/Lines.antt =====
-- The sums of an invoice and the rows of its lines: api/src/services/billing.rs (lines 111 to 154).
use dbsaa_s.Prelude.{
  String, ℕ, ◌≡◌, refl, sym, ◌∙◌, ap, subst, Bool-cases, none, some, Option, List, [], ◌∷◌, ◌++◌,
  inl, inr, leb, select, sort_by, All,
}
use dbsaa_s.Prelude.Int.{ℤ, pos, add_i32}
use dbsaa_s.Models.{BillingPeriod, BillingLineItem, UsageEvent, F64}
use mathlib.Core.List.{append_assoc, append-nil}
use dbsaa_s.Platform.{State, Services, run, for_each}
use dbsaa_s.Platform.Returns.{
  Returns, Returns-bind, Returns-gets, Returns-throw_if, Returns-pure, Returns-modify,
  Returns-new_uuid, Returns-now_utc, IsSameTables-trans,
}
use dbsaa_s.Repository.Billing.{
  Entry, of_database, get_usage_events, add_line_item, create_billing_period, get_plan_template,
}
use dbsaa_s.Billing.{
  Floats, Line, charge_all, charged, price, add_line, usage_of, calculate_usage_hours,
}

-- The sum of the amounts as an `i32`, which wraps around.
abbrev pub sum_lines : ℤ → List Line → ℤ
sum_lines z [] = z
sum_lines z ((d, plan, hours, amount) ∷ lines) = sum_lines (add_i32 z amount) lines

abbrev pub sum_items : ℤ → List BillingLineItem → ℤ
sum_items z [] = z
sum_items z (i ∷ is) = sum_items (add_i32 z i.amount_cents) is

sum_lines-append :
    (z : ℤ) (xs : List Line) (d : ℕ) (plan : Option ℕ) (hours : F64) (amount : ℤ)
    → sum_lines z (xs ++ ((d, plan, hours, amount) ∷ [])) ≡ add_i32 (sum_lines z xs) amount
sum_lines-append z [] d plan hours amount = refl
sum_lines-append z ((d', plan', hours', amount') ∷ xs) d plan hours amount =
    sum_lines-append (add_i32 z amount') xs d plan hours amount

reads_usage :
    {W : Type 0} (f : Floats) (id from to : ℕ) (s : State W) {h : F64} {s' : State W}
    → Returns (calculate_usage_hours f id from to) s h s'
    → s' ≡ s
unfolding calculate_usage_hours get_usage_events run
reads_usage {W = W} f id from to s r =
    cases
      (sort_by (λ a b. leb a.recorded_at b.recorded_at)
        (select (of_database id from to) s.usage_events))
      r
  where
    cases :
        {a : F64} {t : State W} (es : List UsageEvent)
        → Returns (usage_of f id from to es) s a t
        → t ≡ s
    cases [] q = sym (ap (λ x. x.1) q)
    cases (e ∷ es) q = sym (ap (λ x. x.1) q)

reads_price :
    {W : Type 0} (f : Floats) (hours : F64) (plan : Option ℕ) (s : State W) {a : ℤ} {s' : State W}
    → Returns (price f hours plan) s a s'
    → s' ≡ s
unfolding get_plan_template run
reads_price f hours none s r = sym (ap (λ x. x.1) r)
reads_price f hours (some id) s r = sym (ap (λ x. x.1) r)

abbrev pub IsSummed : ℤ × List Line → Type 0
IsSummed bill = bill.0 ≡ sum_lines (pos 0) bill.1

charged-IsSummed :
    (d : ℕ) (name : Option String) (plan : Option ℕ) (hours : F64) (total : ℤ) (lines : List Line)
    (amount : ℤ)
    → IsSummed (total, lines)
    → IsSummed (charged (d, name, plan) hours (total, lines) amount)
charged-IsSummed d name plan hours total lines amount h =
    rw (sum_lines-append (pos 0) lines d plan hours amount, h) refl

-- The prices are worked out without a change, and the total is their sum.
pub charge_all-IsSummed :
    {W : Type 0} (f : Floats) (from to : ℕ) (entries : List Entry) (total : ℤ) (lines : List Line)
    (s : State W) {bill : ℤ × List Line} {s' : State W}
    → IsSummed (total, lines)
    → Returns (charge_all f from to entries (total, lines)) s bill s'
    → (s' ≡ s) × IsSummed bill
unfolding charge_all
charge_all-IsSummed f from to [] total lines s h r =
    let (e, stay) = Returns-pure (total, lines) s r in (stay, subst IsSummed e h)
charge_all-IsSummed f from to ((d, name, plan) ∷ entries) total lines s h r =
    let (hours, s₁, r₁, r₂) = Returns-bind _ _ s r in
    let e₁ = reads_usage f d from to s r₁ in
    elim (Bool-cases (f.le_zero hours)) [
      | inl y ↦
          let rest = charge_all-IsSummed f from to entries total lines s₁ h (rw y at r₂) in
          (rest.0 ∙ e₁, rest.1)
      | inr n ↦
          let (amount, s₂, r₃, r₄) = Returns-bind _ _ s₁ (rw n at r₂) in
          let rest =
            charge_all-IsSummed f from to entries _ _ s₂
              (charged-IsSummed d name plan hours total lines amount h) r₄ in
          (rest.0 ∙ (reads_price f hours plan s₁ r₃ ∙ e₁), rest.1)
    ]

appended :
    {A : Type 0} {xs ys zs : List A} {a b : A}
    → zs ≡ xs ++ (a ∷ [])
    → xs ≡ ys
    → a ≡ b
    → zs ≡ ys ++ (b ∷ [])
appended h e k = rw (← e, ← k) h

-- `items` are rows for the lines, in the period.
abbrev pub IsFor : ℕ → List Line → List BillingLineItem → Type 0
IsFor id lines items =
    All (λ i. i.billing_period_id ≡ id) items × ((z : ℤ) → sum_items z items ≡ sum_lines z lines)

module _ {W : Type 0} (svc : Services W) where
  Returns-add_line_item :
      (id database_id : ℕ) (plan : Option ℕ) (hours : F64) (amount : ℤ) (s : State W)
      {i : BillingLineItem} {s' : State W}
      → Returns (add_line_item svc id database_id plan hours amount) s i s'
      → (s'.line_items ≡ s.line_items ++ (i ∷ []))
        × (s'.periods ≡ s.periods)
        × (i.billing_period_id ≡ id)
        × (i.amount_cents ≡ amount)
  unfolding add_line_item
  Returns-add_line_item id database_id plan hours amount s r =
      let (uuid, s₁, r₁, h₁) = Returns-bind _ _ s r in
      let (t, s₂, r₂, h₂) = Returns-bind _ _ s₁ h₁ in
      let (fresh, h₃) = Returns-throw_if _ _ _ s₂ (Returns-gets _ _ s₂ h₂) in
      let (known, h₄) = Returns-throw_if _ _ _ s₂ (Returns-gets _ _ s₂ h₃) in
      let (row, put) = Returns-modify _ _ s₂ h₄ in
      let (w, same) =
        IsSameTables-trans s s₁ s₂ (Returns-new_uuid svc s r₁) (Returns-now_utc svc s₁ r₂) in
      (
        appended (ap (λ x. x.line_items) put) (ap (λ x. x.line_items) same) row,
        ap (λ x. x.periods) put ∙ ap (λ x. x.periods) same,
        sym (ap (λ i. i.billing_period_id) row),
        sym (ap (λ i. i.amount_cents) row),
      )

  pub Returns-add_lines :
      (id : ℕ) (lines : List Line) (s : State W) {s' : State W}
      → Returns (for_each lines (add_line svc id)) s tt s'
      → (items : List BillingLineItem) × (s'.line_items ≡ s.line_items ++ items)
        × (s'.periods ≡ s.periods)
        × IsFor id lines items
  unfolding for_each
  Returns-add_lines id [] s r =
      let (u, stay) = Returns-pure tt s r in
      (
        [],
        ap (λ x. x.line_items) stay ∙ sym (append-nil _),
        ap (λ x. x.periods) stay,
        (tt, λ z. refl),
      )
  Returns-add_lines id ((d, plan, hours, amount) ∷ lines) s r =
      let (u, s₂, r₁, r₂) = Returns-bind _ _ s r in
      let (i, s₁, r₃, r₄) = Returns-bind _ _ s r₁ in
      let (v, stay) = Returns-pure tt s₁ r₄ in
      let (put, kept, mine, priced) = Returns-add_line_item id d plan hours amount s r₃ in
      let (items, put', kept', (all, sums)) = Returns-add_lines id lines s₂ r₂ in
      (
        i ∷ items,
        put'
            ∙ (ap (λ l. l ++ items) (ap (λ x. x.line_items) stay ∙ put)
                ∙ append_assoc s.line_items (i ∷ []) items),
        kept' ∙ (ap (λ x. x.periods) stay ∙ kept),
        (
          (mine, all),
          λ z. sums (add_i32 z i.amount_cents) ∙ ap (λ a. sum_lines (add_i32 z a) lines) priced,
        ),
      )

  pub Returns-create_billing_period :
      (user_id from to : ℕ) (total : ℤ) (s : State W) {p : BillingPeriod} {s' : State W}
      → Returns (create_billing_period svc user_id from to total) s p s'
      → (s'.line_items ≡ s.line_items)
        × (s'.periods ≡ s.periods ++ (p ∷ []))
        × (p.user_id ≡ user_id)
        × (p.period_start ≡ from)
        × (p.period_end ≡ to)
        × (p.total_cents ≡ total)
  unfolding create_billing_period
  Returns-create_billing_period user_id from to total s r =
      let (uuid, s₁, r₁, h₁) = Returns-bind _ _ s r in
      let (t, s₂, r₂, h₂) = Returns-bind _ _ s₁ h₁ in
      let (fresh, h₃) = Returns-throw_if _ _ _ s₂ (Returns-gets _ _ s₂ h₂) in
      let (row, put) = Returns-modify _ _ s₂ h₃ in
      let (w, same) =
        IsSameTables-trans s s₁ s₂ (Returns-new_uuid svc s r₁) (Returns-now_utc svc s₁ r₂) in
      (
        ap (λ x. x.line_items) put ∙ ap (λ x. x.line_items) same,
        appended (ap (λ x. x.periods) put) (ap (λ x. x.periods) same) row,
        sym (ap (λ p. p.user_id) row),
        sym (ap (λ p. p.period_start) row),
        sym (ap (λ p. p.period_end) row),
        sym (ap (λ p. p.total_cents) row),
      )
