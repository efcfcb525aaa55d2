-- ===== src/Alerts/Handlers.antt =====
-- The endpoints on alerts: api/src/handlers/alerts.rs.
use dbsaa_s.Prelude.{ℕ, Bool, true, false, not, Option, none, some, List, String, ◌==◌, ◌&&◌}
use dbsaa_s.Models.{AuthUser}
use dbsaa_s.Models.Records.{AlertRule, AlertHistory}
use dbsaa_s.Errors.{AppError}
use dbsaa_s.Platform.{M, Services, pure, throw_if, or_throw, ◌>>=◌, ◌>>◌}
use dbsaa_s.Repository.Databases
use dbsaa_s.Repository.Alerts
use dbsaa_s.Alerts.{Outside, validate_if_given}

pub record CreateAlertRuleRequest : Type 0 where
  pub database_id : Option ℕ
  pub event_type : String
  pub webhook_url : Option String
  pub email : Option String
  pub enabled : Option Bool

abbrev pub is_none : {A : Type 0} → Option A → Bool
is_none none = true
is_none (some a) = false

abbrev pub or_true : Option Bool → Bool
or_true none = true
or_true (some b) = b

module _ {W : Type 0} where
  abbrev pub owns : AuthUser → Option ℕ → M W (Unit {0})
  owns user none = pure tt
  owns user (some db_id) = do
    found ← Databases.find_by_id db_id
    db ← or_throw found (AppError.not_found "Database not found")
    throw_if (not (db.user_id == user.id)) AppError.forbidden

  unfoldable pub own_rule : AuthUser → ℕ → M W AlertRule
  own_rule user id = do
    found ← Alerts.find_by_id id
    existing ← or_throw found (AppError.not_found "Alert rule not found")
    throw_if (not (existing.user_id == user.id)) AppError.forbidden
    pure existing

  unfoldable pub list_alerts : AuthUser → M W (List AlertRule)
  list_alerts user = Alerts.list_by_user user.id

  unfoldable pub list_history : AuthUser → M W (List AlertHistory)
  list_history user = Alerts.list_history_by_user user.id 100

  unfoldable pub delete_alert : AuthUser → ℕ → M W (Unit {0})
  delete_alert user id = do existing ← own_rule user id; Alerts.delete_rule id

module _ {W : Type 0} (svc : Services W) (out : Outside W) where
  unfoldable pub create_alert : AuthUser → CreateAlertRuleRequest → M W AlertRule
  create_alert user req = do
    throw_if (not (Alerts.known_event req.event_type)) (
        AppError.bad_request
          "Invalid event_type. Must be one of: db_down, db_error, backup_failed, high_cpu, high_memory")
    throw_if (is_none req.webhook_url && is_none req.email)
        (AppError.bad_request "At least one of webhook_url or email is required")
    owns user req.database_id
    validate_if_given out req.webhook_url
    Alerts.create_rule svc user.id req.database_id req.event_type req.webhook_url req.email
        (or_true req.enabled)

  unfoldable pub update_alert :
      AuthUser → ℕ → Option String → Option String → Option Bool → M W AlertRule
  update_alert user id webhook_url email enabled = do
    existing ← own_rule user id
    validate_if_given out webhook_url
    Alerts.update_rule id webhook_url email enabled
