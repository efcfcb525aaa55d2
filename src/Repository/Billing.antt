-- ===== src/Repository/Billing.antt =====
-- Usage events, plans, billing periods and their line items: api/src/repository/billing_repo.rs (lines 9
-- to 275), with the constraints of migrations 008 and 014.
use dbsaa_s.Prelude.{
  ℕ, Bool, true, false, not, Option, none, some, List, [], ◌∷◌, ◌++◌, String, str_eq, ◌==◌, leb,
  ◌&&◌, ◌||◌, select, find, any, sort_by, if◌then◌else◌, update,
}
use dbsaa_s.Prelude.Int.{ℤ}
use dbsaa_s.Models.{UsageEvent, PlanTemplate, BillingPeriod, BillingLineItem, F64}
use dbsaa_s.Errors.{AppError}
use dbsaa_s.Platform.{M, Services, pure, gets, modify, throw_if, new_uuid, now_utc, ◌>>=◌, ◌>>◌}
use dbsaa_s.Repository.Networks.{duplicate_key, foreign_key}

abbrev pub check_violation : AppError
check_violation = AppError.database "new row violates check constraint"

-- `WHERE database_id = $1 AND recorded_at >= $2 AND recorded_at <= $3`
abbrev pub of_database : ℕ → ℕ → ℕ → UsageEvent → Bool
of_database database_id from to e =
    e.database_id == database_id && (leb from e.recorded_at && leb e.recorded_at to)

abbrev pub is_owner : ℕ → Option ℕ → Bool
is_owner user_id none = false
is_owner user_id (some u) = u == user_id

-- `WHERE user_id = $1 AND recorded_at >= $2 AND recorded_at <= $3`
abbrev pub of_user : ℕ → ℕ → ℕ → UsageEvent → Bool
of_user user_id from to e =
    is_owner user_id e.user_id && (leb from e.recorded_at && leb e.recorded_at to)

-- A row of `SELECT DISTINCT database_id, database_name, plan_template_id`.
abbrev pub Entry : Type 0
Entry = ℕ × Option String × Option ℕ

abbrev pub same_number : Option ℕ → Option ℕ → Bool
same_number none none = true
same_number (some a) (some b) = a == b
same_number _ _ = false

abbrev pub same_text : Option String → Option String → Bool
same_text none none = true
same_text (some a) (some b) = str_eq a b
same_text _ _ = false

abbrev pub same_entry : Entry → Entry → Bool
same_entry (d, name, plan) (d', name', plan') =
    d == d' && (same_text name name' && same_number plan plan')

-- `DISTINCT`, which keeps one of equal rows; PostgreSQL may give them in any order.
abbrev pub distinct : List UsageEvent → List Entry
distinct [] = []
distinct (e ∷ es) =
    let rest = distinct es in
    let entry : Entry = (e.database_id, e.database_name, e.plan_template_id) in
    if any (same_entry entry) rest then rest else entry ∷ rest

abbrev known_status : String → Bool
known_status v =
    str_eq v "pending" || (str_eq v "invoiced" || (str_eq v "paid" || str_eq v "failed"))

abbrev coalesce : Option String → Option String → Option String
coalesce none old = old
coalesce (some v) old = some v

module _ {W : Type 0} where
  unfoldable pub get_plan_template : ℕ → M W (Option PlanTemplate)
  get_plan_template id = gets (λ s. find (λ t. t.id == id) s.templates)

  unfoldable pub get_usage_events : ℕ → ℕ → ℕ → M W (List UsageEvent)
  get_usage_events database_id from to = gets (λ s.
      sort_by (λ a b. leb a.recorded_at b.recorded_at)
        (select (of_database database_id from to) s.usage_events))

  unfoldable pub get_databases_with_usage_in_period : ℕ → ℕ → ℕ → M W (List Entry)
  get_databases_with_usage_in_period user_id from to =
      gets (λ s. distinct (select (of_user user_id from to) s.usage_events))

  unfoldable pub update_period_status : ℕ → String → Option String → M W (Unit {0})
  update_period_status id status stripe_invoice_id = do
    hit ← gets (λ s. any (λ p. p.id == id) s.periods)
    throw_if (hit && not (known_status status)) check_violation
    modify (λ s. record s {
      periods =
          update (λ p. p.id == id)
            (λ p. record p {
              status = status;
              stripe_invoice_id = coalesce stripe_invoice_id p.stripe_invoice_id;
            })
            s.periods;
    })

abbrev known_plan : List PlanTemplate → Option ℕ → Bool
known_plan templates none = true
known_plan templates (some id) = any (λ t. t.id == id) templates

module _ {W : Type 0} (svc : Services W) where
  unfoldable pub record_usage_event : ℕ → String → ℕ → String → Option ℕ → M W UsageEvent
  record_usage_event database_id event_type user_id database_name plan_template_id = do
    id ← new_uuid svc
    t ← now_utc svc
    taken ← gets (λ s. any (λ e. e.id == id) s.usage_events)
    throw_if (not (str_eq event_type "start" || str_eq event_type "stop")) check_violation
    throw_if taken duplicate_key
    let row : UsageEvent = record {
      id = id;
      database_id = database_id;
      event_type = event_type;
      recorded_at = t;
      user_id = some user_id;
      database_name = some database_name;
      plan_template_id = plan_template_id;
    }
    modify (λ s. record s { usage_events = s.usage_events ++ (row ∷ []) })
    pure row

  unfoldable pub create_billing_period : ℕ → ℕ → ℕ → ℤ → M W BillingPeriod
  create_billing_period user_id period_start period_end total_cents = do
    id ← new_uuid svc
    t ← now_utc svc
    taken ← gets (λ s. any (λ p. p.id == id) s.periods)
    throw_if taken duplicate_key
    let row : BillingPeriod = record {
      id = id;
      user_id = user_id;
      period_start = period_start;
      period_end = period_end;
      total_cents = total_cents;
      stripe_invoice_id = none;
      status = "pending";
      created_at = t;
    }
    modify (λ s. record s { periods = s.periods ++ (row ∷ []) })
    pure row

  unfoldable pub add_line_item : ℕ → ℕ → Option ℕ → F64 → ℤ → M W BillingLineItem
  add_line_item billing_period_id database_id plan_template_id hours_used amount_cents = do
    id ← new_uuid svc
    t ← now_utc svc
    taken ← gets (λ s. any (λ i. i.id == id) s.line_items)
    throw_if taken duplicate_key
    known ← gets (λ s.
        any (λ p. p.id == billing_period_id) s.periods && known_plan s.templates plan_template_id)
    throw_if (not known) foreign_key
    let row : BillingLineItem = record {
      id = id;
      billing_period_id = billing_period_id;
      database_id = database_id;
      plan_template_id = plan_template_id;
      hours_used = hours_used;
      amount_cents = amount_cents;
      created_at = t;
    }
    modify (λ s. record s { line_items = s.line_items ++ (row ∷ []) })
    pure row
