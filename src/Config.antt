-- ===== src/Config.antt =====
-- The settings that the modelled code reads: api/src/config.rs.
use dbsaa_s.Prelude.{Option, String}
use dbsaa_s.Prelude.Int.{ℤ}

pub record Config : Type 0 where
  pub max_databases_per_user : ℤ
  pub encryption_key : String
  pub platform_domain : String
  pub platform_ip : String
  pub backup_dir : String
  pub jwt_secret : String
  pub stripe_webhook_secret : Option String
  -- the directory of the proxy's dynamic configuration
  pub dynamic_dir : String
