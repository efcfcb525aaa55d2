-- ===== src/Repository/Alerts.antt =====
-- Alert rules and what they have reported: api/src/repository/alert_repo.rs, with the constraints of
-- migration 019.
use dbsaa_s.Prelude.{
  ℕ, zero, suc, Bool, not, Option, none, some, List, [], ◌∷◌, ◌++◌, String, str_eq, ◌==◌, ◌&&◌,
  ◌||◌, leb, find, select, sort_by, update, delete, any,
}
use dbsaa_s.Models.Records.{AlertRule, AlertHistory}
use dbsaa_s.Errors.{AppError}
use dbsaa_s.Platform.{
  M, Services, pure, gets, modify, throw_if, or_throw, new_uuid, now_utc, ◌>>=◌, ◌>>◌,
}
use dbsaa_s.Repository.Networks.{duplicate_key, foreign_key}
use dbsaa_s.Repository.Users.{is_user}
use dbsaa_s.Repository.Databases.{known}
use dbsaa_s.Repository.Schedules.{coalesce, row_not_found}

abbrev pub is_rule : ℕ → AlertRule → Bool
is_rule id a = a.id == id

-- CHECK (event_type IN (…))
abbrev pub known_event : String → Bool
known_event e =
    str_eq e "db_down"
    || (str_eq e "db_error"
        || (str_eq e "backup_failed" || (str_eq e "high_cpu" || str_eq e "high_memory")))

abbrev pub check_violated : AppError
check_violated =
    AppError.database
      "new row for relation \"alert_rules\" violates check constraint \"alert_rules_event_type_check\""

-- COALESCE on a column that may be null.
abbrev pub coalesce_column : {A : Type 0} → Option A → Option A → Option A
coalesce_column none old = old
coalesce_column (some v) old = some v

-- `LIMIT n`
abbrev pub limit : {A : Type 0} → ℕ → List A → List A
limit zero rows = []
limit (suc n) [] = []
limit (suc n) (r ∷ rows) = r ∷ limit n rows

module _ {W : Type 0} where
  unfoldable pub list_by_user : ℕ → M W (List AlertRule)
  list_by_user user_id = gets (λ s.
      sort_by (λ a b. leb b.created_at a.created_at)
        (select (λ a. a.user_id == user_id) s.alert_rules))

  unfoldable pub find_by_id : ℕ → M W (Option AlertRule)
  find_by_id id = gets (λ s. find (is_rule id) s.alert_rules)

  unfoldable pub update_rule : ℕ → Option String → Option String → Option Bool → M W AlertRule
  update_rule id webhook_url email enabled = do
    modify (λ s. record s {
      alert_rules =
          update (is_rule id)
            (λ a. record a {
              webhook_url = coalesce_column webhook_url a.webhook_url;
              email = coalesce_column email a.email;
              enabled = coalesce enabled a.enabled;
            })
            s.alert_rules;
    })
    found ← find_by_id id
    or_throw found row_not_found

  unfoldable pub delete_rule : ℕ → M W (Unit {0})
  delete_rule id = modify (λ s. record s {
    alert_rules = delete (is_rule id) s.alert_rules;
    alert_history =
        delete (λ h. h.alert_rule_id == id && any (is_rule id) s.alert_rules) s.alert_history;
  })

  unfoldable pub list_history_by_user : ℕ → ℕ → M W (List AlertHistory)
  list_history_by_user user_id n = gets (λ s. limit n (
      sort_by (λ a b. leb b.sent_at a.sent_at)
        (select (λ h. any (λ a. is_rule h.alert_rule_id a && a.user_id == user_id) s.alert_rules)
          s.alert_history)))

  unfoldable pub find_enabled_rules : M W (List AlertRule)
  find_enabled_rules = gets (λ s. select (λ a. a.enabled) s.alert_rules)

module _ {W : Type 0} (svc : Services W) where
  unfoldable pub create_rule :
      ℕ → Option ℕ → String → Option String → Option String → Bool → M W AlertRule
  create_rule user_id database_id event_type webhook_url email enabled = do
    id ← new_uuid svc
    t ← now_utc svc
    taken ← gets (λ s. any (is_rule id) s.alert_rules)
    is_known ←
        gets (λ s. any (is_user user_id) s.users && known (λ d. d.id) s.instances database_id)
    throw_if (not (known_event event_type)) check_violated
    throw_if taken duplicate_key
    throw_if (not is_known) foreign_key
    let row : AlertRule = record {
      id = id;
      user_id = user_id;
      database_id = database_id;
      event_type = event_type;
      webhook_url = webhook_url;
      email = email;
      enabled = enabled;
      created_at = t;
    }
    modify (λ s. record s { alert_rules = s.alert_rules ++ (row ∷ []) })
    pure row

  unfoldable pub insert_history : ℕ → String → String → M W (Unit {0})
  insert_history alert_rule_id event_type message = do
    id ← new_uuid svc
    t ← now_utc svc
    taken ← gets (λ s. any (λ h. h.id == id) s.alert_history)
    is_known ← gets (λ s. any (is_rule alert_rule_id) s.alert_rules)
    throw_if taken duplicate_key
    throw_if (not is_known) foreign_key
    let row : AlertHistory = record {
      id = id;
      alert_rule_id = alert_rule_id;
      event_type = event_type;
      message = message;
      sent_at = t;
    }
    modify (λ s. record s { alert_history = s.alert_history ++ (row ∷ []) })
