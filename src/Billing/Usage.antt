-- ===== src/Billing/Usage.antt =====
-- A bill for hours is never for more than the period: api/src/services/billing.rs (lines 13 to 74).
use dbsaa_s.Prelude.{
  ℕ, ◌+◌, ◌-◌, ◌*◌, ◌/◌, ◌≤◌, ◌≡◌, refl, arith, ap, Bool, Bool-cases, none, some, Option, List, [],
  ◌∷◌, ◌⊎◌, inl, inr, leb, select, insert_by, sort_by, str_eq,
}
use dbsaa_s.Prelude.Int.{ℤ, pos}
use dbsaa_s.Models.{UsageEvent, F64}
use dbsaa_s.Errors.{ok}
use dbsaa_s.Platform.{State, run}
use dbsaa_s.Repository.Billing.{get_usage_events, of_database}
use dbsaa_s.Billing.{
  Floats, Tally, account, account_all, closed, first_start, used_seconds, hours_of,
  calculate_usage_hours, usage_of, carried, ends_started, safe_min,
}

abbrev le_time : UsageEvent → UsageEvent → Bool
le_time a b = leb a.recorded_at b.recorded_at

-- The events are in order, the first not before `t` and the last not after `end`.
abbrev Ordered : ℕ → ℕ → List UsageEvent → Type 0
Ordered t end [] = t ≤ end
Ordered t end (e ∷ es) = (t ≤ e.recorded_at) × Ordered e.recorded_at end es

insert-Ordered :
    (t end : ℕ) (e : UsageEvent) (es : List UsageEvent)
    → t ≤ e.recorded_at
    → e.recorded_at ≤ end
    → Ordered t end es
    → Ordered t end (insert_by le_time e es)
insert-Ordered t end e [] h k o = (h, k)
insert-Ordered t end e (x ∷ xs) h k o = elim (Bool-cases (le_time e x)) [
  | inl y ↦ rw y (h, (ground arith, o.1))
  | inr n ↦ rw n (o.0, insert-Ordered x.recorded_at end e xs (ground arith) k o.1)
]

events-Ordered :
    (id from to : ℕ) (es : List UsageEvent)
    → from ≤ to
    → Ordered from to (sort_by le_time (select (of_database id from to) es))
events-Ordered id from to [] h = h
events-Ordered id from to (e ∷ es) h = elim (Bool-cases (of_database id from to e)) [
  | inl y ↦ rw y (
      insert-Ordered from to e _ (ground (arith, y)) (ground (arith, y))
        (events-Ordered id from to es h))
  | inr n ↦ rw n (events-Ordered id from to es h)
]

abbrev running_from : Option ℕ → ℕ → ℕ
running_from none t = t
running_from (some start) t = start

-- At time `t`, what has been counted since `from` fits in front of what is still running.
abbrev IsFitting : ℕ → ℕ → Tally → Type 0
IsFitting from t (total, last_start) =
    (n : ℕ) × (total ≡ pos n)
    × (n * 1000000 + from ≤ running_from last_start t)
    × (running_from last_start t ≤ t)

closed-IsFitting :
    (from t r : ℕ) (total : ℤ) (last_start : Option ℕ)
    → t ≤ r
    → IsFitting from t (total, last_start)
    → IsFitting from r (closed total last_start r)
closed-IsFitting from t r total none le (n, e, h, k) = (n, e, omega arith, omega arith)
closed-IsFitting from t r total (some start) le (n, e, h, k) =
    (n + (r - start) / 1000000, rw e (ground arith), omega arith, omega arith)

account-IsFitting :
    (from t : ℕ) (total : ℤ) (last_start : Option ℕ) (e : UsageEvent)
    → t ≤ e.recorded_at
    → IsFitting from t (total, last_start)
    → IsFitting from e.recorded_at (account (total, last_start) e)
account-IsFitting from t total last_start e le fit =
    elim (Bool-cases (str_eq e.event_type "start")) [
      | inl y ↦ rw y (fit.0, fit.1, omega (arith, fit.2, fit.3), omega arith)
      | inr n ↦ rw n (elim (Bool-cases (str_eq e.event_type "stop")) [
        | inl y ↦ rw y (closed-IsFitting from t e.recorded_at total last_start le fit)
        | inr n' ↦ rw n' (later last_start fit)
      ])
    ]
  where
    later :
        (ls : Option ℕ) → IsFitting from t (total, ls) → IsFitting from e.recorded_at (total, ls)
    later none (n, q, h, k) = (n, q, omega arith, omega arith)
    later (some start) (n, q, h, k) = (n, q, h, omega arith)

account_all-IsFitting :
    (from t end : ℕ) (tally : Tally) (es : List UsageEvent)
    → Ordered t end es
    → IsFitting from t tally
    → IsFitting from end (closed (account_all tally es).0 (account_all tally es).1 end)
account_all-IsFitting from t end (total, ls) [] o fit = closed-IsFitting from t end total ls o fit
account_all-IsFitting from t end (total, ls) (e ∷ es) o fit =
    account_all-IsFitting from e.recorded_at end (account (total, ls) e) es o.1
      (account-IsFitting from t total ls e o.0 fit)

first-IsFitting :
    (from : ℕ) (es : List UsageEvent) → IsFitting from from (pos 0, first_start from es)
first-IsFitting from [] = (0, refl, omega arith, omega arith)
first-IsFitting from (e ∷ es) = elim (Bool-cases (str_eq e.event_type "stop")) [
  | inl y ↦ rw y (0, refl, omega arith, omega arith)
  | inr n ↦ rw n (0, refl, omega arith, omega arith)
]

-- Whole seconds that fit in the period, as hours, or nothing at all.
abbrev pub IsWithin : Floats → ℕ → ℕ → F64 → Type 0
IsWithin f from to h =
    (h ≡ f.of_int (pos 0)) ⊎ ((n : ℕ) × (h ≡ hours_of f (pos n)) × (n * 1000000 ≤ to - from))

carried-IsWithin :
    (f : Floats) (from to : ℕ) (prior : List UsageEvent)
    → from ≤ to
    → IsWithin f from to (carried f from to prior)
carried-IsWithin f from to prior h = elim (Bool-cases (ends_started prior)) [
  | inl y ↦ rw y (inr ((to - from) / 1000000, ap (hours_of f) (ground arith), omega arith))
  | inr n ↦ rw n (inl refl)
]

used_seconds-le :
    (from to : ℕ) (es : List UsageEvent)
    → Ordered from to es
    → (n : ℕ) × (used_seconds from to es ≡ pos n) × (n * 1000000 ≤ to - from)
unfolding used_seconds
used_seconds-le from to es o =
    let (n, e, h, k) =
      account_all-IsFitting from from to (pos 0, first_start from es) es o
        (first-IsFitting from es) in
    (n, e, bound n _ h k)
  where
    bound : (n x : ℕ) → n * 1000000 + from ≤ x → x ≤ to → n * 1000000 ≤ to - from
    bound n x h k = omega arith

-- For any period that does not end before it starts, the hours of a database can always be computed,
-- which changes nothing, and they are nothing or a whole number of seconds that fits in the period,
-- whatever events were recorded.
pub calculate_usage_hours-IsWithin :
    {W : Type 0} (f : Floats) (id from to : ℕ) (s : State W)
    → from ≤ to
    → (h : F64) × (calculate_usage_hours f id from to s ≡ (ok h, s)) × IsWithin f from to h
unfolding calculate_usage_hours get_usage_events run
calculate_usage_hours-IsWithin f id from to s le =
    cases (sort_by le_time (select (of_database id from to) s.usage_events))
      (events-Ordered id from to s.usage_events le)
  where
    cases :
        (es : List UsageEvent)
        → Ordered from to es
        → (h : F64) × (usage_of f id from to es s ≡ (ok h, s)) × IsWithin f from to h
    cases [] o = (
      _,
      refl,
      carried-IsWithin f from to
          (sort_by le_time (select (of_database id safe_min from) s.usage_events)) le,
    )
    cases (e ∷ es) o =
        let (n, q, b) = used_seconds-le from to (e ∷ es) o in
        (_, refl, inr (n, ap (hours_of f) q, b))
