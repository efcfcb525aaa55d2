-- ===== src/Billing.antt =====
-- Billing by the hour: api/src/services/billing.rs (lines 13 to 157). Times are in microseconds.
-- The sums of seconds are whole numbers, and below 2 ^ 53, where `f64` adds without rounding; the rest of
-- the arithmetic on `f64` is a parameter.
pub mod Usage
pub mod Lines
pub mod Invoices
use dbsaa_s.Prelude.{
  ℕ, ◌+◌, ◌-◌, ◌/◌, Bool, true, false, Option, none, some, List, [], ◌∷◌, ◌++◌, String, str_eq,
  ◌==◌, ltb, leb, ◌&&◌, ◌||◌, count, if◌then◌else◌,
}
use dbsaa_s.Prelude.Int.{ℤ, pos, negsuc, sub_ℕ, pos_part, neg_part, leb_ℤ, add_i32}
use dbsaa_s.Models.{UsageEvent, PlanTemplate, BillingPeriod, F64}
use dbsaa_s.Platform.{M, Services, pure, gets, for_each, ◌>>=◌, ◌>>◌}
use dbsaa_s.Repository.Billing.{
  Entry, get_plan_template, get_usage_events, get_databases_with_usage_in_period,
  create_billing_period, add_line_item,
}

-- The arithmetic of IEEE 754 that a bill needs.
pub record Floats : Type 0 where
  -- `x as f64`
  pub of_int : ℤ → F64
  pub mul : F64 → F64 → F64
  pub div : F64 → F64 → F64
  -- `x <= 0.0`
  pub le_zero : F64 → Bool
  -- `x.ceil() as i32`
  pub ceil_i32 : F64 → ℤ

abbrev pub add_ℤ : ℤ → ℤ → ℤ
add_ℤ a b = sub_ℕ (pos_part a + pos_part b) (neg_part a + neg_part b)

abbrev negated : ℕ → ℤ
negated n = sub_ℕ 0 n

-- `(to - from).num_seconds()`, rounded towards zero.
abbrev pub num_seconds : ℕ → ℕ → ℤ
num_seconds from to =
    if leb from to then pos ((to - from) / 1000000) else negated ((from - to) / 1000000)

-- What the loop over the events keeps: `total_seconds` and `last_start`.
abbrev pub Tally : Type 0
Tally = ℤ × Option ℕ

abbrev pub closed : ℤ → Option ℕ → ℕ → Tally
closed total none t = (total, none)
closed total (some start) t = (add_ℤ total (num_seconds start t), none)

abbrev pub account : Tally → UsageEvent → Tally
account (total, last_start) e =
    if str_eq e.event_type "start"
    then (total, some e.recorded_at)
    else if str_eq e.event_type "stop"
    then closed total last_start e.recorded_at
    else (total, last_start)

abbrev pub account_all : Tally → List UsageEvent → Tally
account_all tally [] = tally
account_all tally (e ∷ es) = account_all (account tally e) es

-- `if first event is "stop"`
abbrev pub first_start : ℕ → List UsageEvent → Option ℕ
first_start period_start [] = none
first_start period_start (e ∷ es) = if str_eq e.event_type "stop" then some period_start else none

-- The seconds of a period that has events.
unfoldable pub used_seconds : ℕ → ℕ → List UsageEvent → ℤ
used_seconds period_start period_end events =
    (closed (account_all (pos 0, first_start period_start events) events).0
      (account_all (pos 0, first_start period_start events) events).1 period_end).0

-- `prior_events.last()` is a start.
abbrev pub ends_started : List UsageEvent → Bool
ends_started [] = false
ends_started (e ∷ []) = str_eq e.event_type "start"
ends_started (e ∷ e' ∷ es) = ends_started (e' ∷ es)

-- 2000-01-01
abbrev pub safe_min : ℕ
safe_min = 946684800000000

abbrev pub Line : Type 0
Line = ℕ × Option ℕ × F64 × ℤ

abbrev pub charged : Entry → F64 → ℤ × List Line → ℤ → ℤ × List Line
charged (database_id, name, plan) hours (total, lines) amount =
    (add_i32 total amount, lines ++ ((database_id, plan, hours, amount) ∷ []))

abbrev pub is_zero : ℤ → Bool
is_zero (pos n) = n == 0
is_zero (negsuc n) = false

abbrev pub is_none : List Line → Bool
is_none [] = true
is_none (x ∷ xs) = false

abbrev pub of_period : ℕ → ℕ → BillingPeriod → Bool
of_period user_id period_start p = p.user_id == user_id && p.period_start == period_start

module _ {W : Type 0} (svc : Services W) where
  abbrev pub add_line : ℕ → Line → M W (Unit {0})
  add_line period_id (database_id, template_id, hours, amount) =
      add_line_item svc period_id database_id template_id hours amount >> pure tt

  abbrev pub issue : ℕ → ℕ → ℕ → ℤ × List Line → M W (Option BillingPeriod)
  issue user_id period_start period_end (total, lines) =
      if is_zero total && is_none lines
      then pure none
      else create_billing_period svc user_id period_start period_end total >>= λ period.
          for_each lines (add_line period.id) >> pure (some period)

module _ (f : Floats) where
  abbrev pub hours_of : ℤ → F64
  hours_of seconds = f.div (f.of_int seconds) (f.of_int (pos 3600))

  abbrev pub min_ℤ : ℤ → ℤ → ℤ
  min_ℤ a b = if leb_ℤ a b then a else b

  unfoldable pub calculate_amount : F64 → PlanTemplate → ℤ
  calculate_amount hours template =
      min_ℤ (f.ceil_i32 (f.mul hours (f.of_int template.hourly_price_cents)))
        template.monthly_price_cents

  -- What a database with no events in the period used, from those before it.
  abbrev pub carried : ℕ → ℕ → List UsageEvent → F64
  carried period_start period_end prior =
      if ends_started prior
      then hours_of (num_seconds period_start period_end)
      else f.of_int (pos 0)

  abbrev pub amount_of : F64 → Option PlanTemplate → ℤ
  amount_of hours none = pos 0
  amount_of hours (some template) = calculate_amount hours template

  module _ {W : Type 0} where
    abbrev pub usage_of : ℕ → ℕ → ℕ → List UsageEvent → M W F64
    usage_of database_id period_start period_end [] = do
      prior ← get_usage_events database_id safe_min period_start
      pure (carried period_start period_end prior)
    usage_of database_id period_start period_end (e ∷ es) =
        pure (hours_of (used_seconds period_start period_end (e ∷ es)))

    unfoldable pub calculate_usage_hours : ℕ → ℕ → ℕ → M W F64
    unfolding used_seconds
    calculate_usage_hours database_id period_start period_end = do
      events ← get_usage_events database_id period_start period_end
      usage_of database_id period_start period_end events

    abbrev pub price : F64 → Option ℕ → M W ℤ
    price hours none = pure (pos 0)
    price hours (some template_id) = do
      template ← get_plan_template template_id
      pure (amount_of hours template)

    -- The loop over the databases that were used.
    unfoldable pub charge_all : ℕ → ℕ → List Entry → ℤ × List Line → M W (ℤ × List Line)
    charge_all period_start period_end [] bill = pure bill
    charge_all period_start period_end (entry ∷ entries) bill =
        calculate_usage_hours entry.0 period_start period_end >>= λ hours.
        if f.le_zero hours
        then charge_all period_start period_end entries bill
        else price hours entry.2 >>= λ amount.
            charge_all period_start period_end entries (charged entry hours bill amount)

  module _ {W : Type 0} (svc : Services W) where
    abbrev pub bill_entries : ℕ → ℕ → ℕ → List Entry → M W (Option BillingPeriod)
    bill_entries user_id period_start period_end [] = pure none
    bill_entries user_id period_start period_end (e ∷ es) =
        charge_all period_start period_end (e ∷ es) (pos 0, [])
        >>= issue svc user_id period_start period_end

    unfoldable pub generate_monthly_invoice : ℕ → ℕ → ℕ → M W (Option BillingPeriod)
    generate_monthly_invoice user_id period_start period_end =
        gets (λ s. count (of_period user_id period_start) s.periods) >>= λ existing.
        if ltb 0 existing
        then pure none
        else get_databases_with_usage_in_period user_id period_start period_end
          >>= bill_entries user_id period_start period_end
