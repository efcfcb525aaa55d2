-- ===== src/Models/Records.antt =====
-- Backups, their schedules, and alerts: api/src/models/database.rs (lines 93 to 100),
-- api/src/models/backup_schedule.rs, api/src/models/alert.rs.
use dbsaa_s.Prelude.{ℕ, Bool, Option, String}
use dbsaa_s.Prelude.Int.{ℤ}

pub record BackupRecord : Type 0 where
  pub id : ℕ
  pub database_id : ℕ
  pub filename : String
  pub size_bytes : ℕ
  pub created_at : ℕ

pub record BackupSchedule : Type 0 where
  pub id : ℕ
  pub database_id : ℕ
  pub interval_hours : ℤ
  pub retention_count : ℤ
  pub enabled : Bool
  pub last_run_at : Option ℕ
  pub created_at : ℕ

pub record AlertRule : Type 0 where
  pub id : ℕ
  pub user_id : ℕ
  pub database_id : Option ℕ
  pub event_type : String
  pub webhook_url : Option String
  pub email : Option String
  pub enabled : Bool
  pub created_at : ℕ

pub record AlertHistory : Type 0 where
  pub id : ℕ
  pub alert_rule_id : ℕ
  pub event_type : String
  pub message : String
  pub sent_at : ℕ
