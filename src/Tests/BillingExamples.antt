-- ===== src/Tests/BillingExamples.antt =====
-- Examples for bills: a database that ran for an hour and a half of a two-hour period.
use dbsaa_s.Prelude.{
  ℕ, ◌*◌, ◌/◌, ◌+◌, ◌≡◌, refl, arith, any, none, some, [], ◌∷◌, ◌==◌, String, true, false,
}
use dbsaa_s.Prelude.Int.{pos, pos_part, add_i32}
use dbsaa_s.Models.{UsageEvent, PlanTemplate, BillingPeriod, DbType, F64}
use dbsaa_s.Errors.{ok}
use dbsaa_s.Platform.{State, run, for_each, new_uuid, now_utc}
use dbsaa_s.Platform.Returns.{Returns}
use dbsaa_s.Repository.Billing.{
  get_usage_events, get_plan_template, get_databases_with_usage_in_period, create_billing_period,
  add_line_item, update_period_status,
}
use dbsaa_s.Billing.{
  Floats, calculate_usage_hours, calculate_amount, charge_all, used_seconds,
  generate_monthly_invoice,
}
use dbsaa_s.Billing.Usage.{IsWithin, calculate_usage_hours-IsWithin}
use dbsaa_s.Billing.Invoices.{
  IsOutcome, is_invoice, generate_monthly_invoice-IsOutcome, generate_monthly_invoice_once,
}
use dbsaa_s.Tests.Fixtures.{svc, empty}

-- Numbers of hundredths in place of `f64`.
abbrev hundredths : Floats
hundredths = record {
  of_int = λ x. pos_part x * 100;
  mul = λ x y. x * y / 100;
  div = λ x y. x * 100 / y;
  le_zero = λ x. x == 0;
  ceil_i32 = λ x. pos ((x + 99) / 100);
}

abbrev event : ℕ → String → ℕ → UsageEvent
event id event_type t = record {
  id = id;
  database_id = 50;
  event_type = event_type;
  recorded_at = t;
  user_id = some 7;
  database_name = some "sales";
  plan_template_id = some 1;
}

abbrev small : PlanTemplate
small = record {
  id = 1;
  name = "small";
  db_type = DbType.postgresql;
  cpu_limit = 0;
  memory_limit_mb = pos 256;
  monthly_price_cents = pos 500;
  hourly_price_cents = pos 2;
  is_bundle = false;
  active = true;
  created_at = 0;
}

abbrev used : State ℕ
used = record empty {
  templates = small ∷ [];
  usage_events = event 1 "start" 1000000000000 ∷ event 2 "stop" 1005400000000 ∷ [];
}

calculate_usage_hours-IsWithin_example :
    (h : F64) × (calculate_usage_hours hundredths 50 1000000000000 1007200000000 used
      ≡ (ok h, used))
    × IsWithin hundredths 1000000000000 1007200000000 h
calculate_usage_hours-IsWithin_example =
    calculate_usage_hours-IsWithin hundredths 50 1000000000000 1007200000000 used (omega arith)

abbrev invoice : BillingPeriod
invoice = record {
  id = 100;
  user_id = 7;
  period_start = 1000000000000;
  period_end = 1007200000000;
  total_cents = pos 3;
  stripe_invoice_id = none;
  status = "pending";
  created_at = 101;
}

abbrev billed : State ℕ
billed = (generate_monthly_invoice hundredths svc 7 1000000000000 1007200000000 used).1

invoiced :
    Returns
      (generate_monthly_invoice hundredths svc 7 1000000000000 1007200000000)
      used
      (some invoice)
      billed
unfolding generate_monthly_invoice get_usage_events get_plan_template
    get_databases_with_usage_in_period create_billing_period add_line_item calculate_usage_hours
    calculate_amount charge_all used_seconds for_each run new_uuid now_utc add_i32
invoiced = refl

generate_monthly_invoice-IsOutcome_example :
    IsOutcome 7 1000000000000 1007200000000 used billed (some invoice)
generate_monthly_invoice-IsOutcome_example =
    generate_monthly_invoice-IsOutcome svc hundredths 7 1000000000000 1007200000000 used invoiced

-- The invoice has been paid since.
abbrev paid : State ℕ
paid = (update_period_status 100 "paid" (some "in_1") billed).1

still_there : any (is_invoice invoice) paid.periods ≡ true
unfolding generate_monthly_invoice get_usage_events get_plan_template
    get_databases_with_usage_in_period create_billing_period add_line_item calculate_usage_hours
    calculate_amount charge_all used_seconds for_each run new_uuid now_utc add_i32
    update_period_status
still_there = refl

generate_monthly_invoice_once_example :
    generate_monthly_invoice hundredths svc 7 1000000000000 1008000000000 paid ≡ (ok none, paid)
generate_monthly_invoice_once_example =
    generate_monthly_invoice_once svc hundredths 7 1000000000000 1007200000000 used invoiced paid
      1008000000000 still_there
