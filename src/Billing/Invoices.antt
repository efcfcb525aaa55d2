-- ===== src/Billing/Invoices.antt =====
-- What an invoice says, and that a month is billed once: api/src/services/billing.rs (lines 83 to 157).
use dbsaa_s.Prelude.{
  ℕ, ◌≡◌, refl, sym, ◌∙◌, arith, ap, subst, Bool-cases, true, none, some, Option, List, [], ◌∷◌,
  ◌++◌, inl, inr, ltb, count, any, Bool, ◌==◌, All, ◌&&◌,
}
use dbsaa_s.Prelude.Int.{ℤ, pos}
use dbsaa_s.Models.{BillingPeriod, BillingLineItem}
use dbsaa_s.Errors.{ok}
use dbsaa_s.Platform.{State, Services, pure, run}
use dbsaa_s.Platform.Returns.{Returns, Returns-bind, Returns-gets, Returns-pure}
use dbsaa_s.Repository.Billing.{Entry, get_databases_with_usage_in_period}
use dbsaa_s.Billing.{
  Floats, Line, issue, is_zero, is_none, of_period, bill_entries, generate_monthly_invoice,
}
use dbsaa_s.Billing.Lines.{
  sum_items, IsSummed, charge_all-IsSummed, Returns-add_lines, Returns-create_billing_period,
}

-- An invoice was written: one period, for this user and these dates, and its items, whose amounts add
-- up to its total as an `i32`, which wraps around.
pub record IsInvoice {W : Type 0} (user_id from to : ℕ) (s s' : State W) (p : BillingPeriod)
    : Type 0 where
  pub items : List BillingLineItem
  pub line_items_added : s'.line_items ≡ s.line_items ++ items
  pub period_added : s'.periods ≡ s.periods ++ (p ∷ [])
  pub in_period : All (λ i. i.billing_period_id ≡ p.id) items
  pub total : p.total_cents ≡ sum_items (pos 0) items
  pub of_user : p.user_id ≡ user_id
  pub starts : p.period_start ≡ from
  pub ends : p.period_end ≡ to

-- What a run that returned did: nothing, or an invoice.
abbrev pub IsOutcome : {W : Type 0} → ℕ → ℕ → ℕ → State W → State W → Option BillingPeriod → Type 0
IsOutcome user_id from to s s' none = s' ≡ s
IsOutcome user_id from to s s' (some p) = IsInvoice user_id from to s s' p

-- The invoice `p`, by its id, its user and its start.
abbrev pub is_invoice : BillingPeriod → BillingPeriod → Bool
is_invoice p q = q.id == p.id && (q.user_id == p.user_id && q.period_start == p.period_start)

counted :
    (user_id from : ℕ) (p : BillingPeriod)
    → p.user_id ≡ user_id
    → p.period_start ≡ from
    → (l : List BillingPeriod) → any (is_invoice p) l ≡ true
    → ltb 0 (count (of_period user_id from) l) ≡ true
counted user_id from p u b [] h = cc
counted user_id from p u b (q ∷ l) h = ground (arith, counted user_id from p u b l)

lines_of : {W : Type 0} {s t : State W} → s ≡ t → s.line_items ≡ t.line_items
lines_of e = ap (λ x. x.line_items) e

periods_of : {W : Type 0} {s t : State W} → s ≡ t → s.periods ≡ t.periods
periods_of e = ap (λ x. x.periods) e

added :
    {A : Type 0} {a b c d e : List A} (items : List A)
    → e ≡ d
    → d ≡ c ++ items
    → c ≡ b
    → b ≡ a
    → e ≡ a ++ items
added items h put k l = h ∙ (put ∙ ap (λ x. x ++ items) (k ∙ l))

put_period :
    {A : Type 0} {a b c d e : List A} (p : A)
    → e ≡ d
    → d ≡ c
    → c ≡ b ++ (p ∷ [])
    → b ≡ a
    → e ≡ a ++ (p ∷ [])
put_period p h k put l = h ∙ (k ∙ (put ∙ ap (λ x. x ++ (p ∷ [])) l))

issue-IsOutcome :
    {W : Type 0} (svc : Services W) (user_id from to : ℕ) (total : ℤ) (lines : List Line)
    (s s₀ : State W) {o : Option BillingPeriod} {s' : State W}
    → s₀ ≡ s
    → IsSummed (total, lines)
    → Returns (issue svc user_id from to (total, lines)) s₀ o s'
    → IsOutcome user_id from to s s' o
issue-IsOutcome svc user_id from to total lines s s₀ {o} {s'} same sum r =
    elim (Bool-cases (is_zero total && is_none lines)) [
      | inl y ↦
          let (e, stay) = Returns-pure none s₀ (rw y at r) in
          subst (IsOutcome user_id from to s s') e (stay ∙ same)
      | inr n ↦
          let (p, s₁, r₁, r₂) = Returns-bind _ _ s₀ (rw n at r) in
          let (u, s₂, r₃, r₄) = Returns-bind _ _ s₁ r₂ in
          let (e, stay) = Returns-pure (some p) s₂ r₄ in
          let (kept, put, mine, begins, stops, priced) =
            Returns-create_billing_period svc user_id from to total s₀ r₁ in
          let (items, put', kept', (all, sums)) = Returns-add_lines svc p.id lines s₁ r₃ in
          subst (IsOutcome user_id from to s s') e (record {
            items = items;
            line_items_added = added items (lines_of stay) put' kept (lines_of same);
            period_added = put_period p (periods_of stay) kept' put (periods_of same);
            in_period = all;
            total = priced ∙ (sum ∙ sym (sums (pos 0)));
            of_user = mine;
            starts = begins;
            ends = stops;
          })
    ]

module _ {W : Type 0} (svc : Services W) (f : Floats) where
  -- A run of the monthly billing for a user that returns has either written one billing period, for the
  -- user and the dates, whose line items add up to its total as a wrapping `i32`, or it has changed
  -- nothing.
  pub generate_monthly_invoice-IsOutcome :
      (user_id from to : ℕ) (s : State W) {o : Option BillingPeriod} {s' : State W}
      → Returns (generate_monthly_invoice f svc user_id from to) s o s'
      → IsOutcome user_id from to s s' o
  unfolding generate_monthly_invoice get_databases_with_usage_in_period
  generate_monthly_invoice-IsOutcome user_id from to s {o} {s'} r =
      elim (Bool-cases (ltb 0 (count (of_period user_id from) s.periods))) [
        | inl y ↦ none_case (rw y at (Returns-gets _ _ s r))
        | inr n ↦ entries_case _ (Returns-gets _ _ s (rw n at (Returns-gets _ _ s r)))
      ]
    where
      none_case :
          {o : Option BillingPeriod} {s' : State W}
          → Returns (pure none) s o s'
          → IsOutcome user_id from to s s' o
      none_case {o} {s'} r =
          let (e, stay) = Returns-pure none s r in subst (IsOutcome user_id from to s s') e stay

      entries_case :
          (entries : List Entry) {o : Option BillingPeriod} {s' : State W}
          → Returns (bill_entries f svc user_id from to entries) s o s'
          → IsOutcome user_id from to s s' o
      entries_case [] r = none_case r
      entries_case (e ∷ es) r =
          let ((total, lines), s₁, r₁, r₂) = Returns-bind _ _ s r in
          let (same, sum) = charge_all-IsSummed f from to (e ∷ es) (pos 0) [] s refl r₁ in
          issue-IsOutcome svc user_id from to total lines s s₁ same sum r₂

  -- After an invoice was written for a user and a period, a second run for a period with this start
  -- returns `none` and changes nothing, in every state that still has the invoice, whatever its status and
  -- its other fields have become.
  pub generate_monthly_invoice_once :
      (user_id from to : ℕ) (s : State W) {p : BillingPeriod} {s' : State W}
      → Returns (generate_monthly_invoice f svc user_id from to) s (some p) s'
      → (t : State W) (to' : ℕ) → any (is_invoice p) t.periods ≡ true
      → generate_monthly_invoice f svc user_id from to' t ≡ (ok none, t)
  unfolding generate_monthly_invoice run
  generate_monthly_invoice_once user_id from to s {p} {s'} r t to' kept =
      let done : IsInvoice user_id from to s s' p =
        generate_monthly_invoice-IsOutcome user_id from to s r in
      let billed : ltb 0 (count (of_period user_id from) t.periods) ≡ true =
        counted user_id from p done.of_user done.starts t.periods kept in
      rw billed refl
