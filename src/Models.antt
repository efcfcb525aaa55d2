-- ===== src/Models.antt =====
-- The rows and enums of api/src/models. A UUID and a timestamp (microseconds) are numbers, an `f64`
-- is the number of its bit pattern, and an `i32` is an integer.
pub mod Roles
pub mod Access
pub mod Records
pub use Roles.{UserRole}
use dbsaa_s.Prelude.{ℕ, Bool, true, false, Option, String}
use dbsaa_s.Prelude.Int.{ℤ}

abbrev pub F64 : Type 0
F64 = ℕ

pub data DbType : Type 0 where
  postgresql redis mariadb : DbType

pub data DbStatus : Type 0 where
  provisioning running stopped error deleting : DbStatus

pub data ContainerAction : Type 0 where
  start stop restart : ContainerAction

abbrev pub is_running : DbStatus → Bool
is_running DbStatus.running = true
is_running _ = false

abbrev pub is_deleting : DbStatus → Bool
is_deleting DbStatus.deleting = true
is_deleting _ = false

-- `status NOT IN ('error', 'deleting')`
abbrev pub is_live : DbStatus → Bool
is_live DbStatus.error = false
is_live DbStatus.deleting = false
is_live _ = true

pub record DatabaseInstance : Type 0 where
  pub id : ℕ
  pub user_id : ℕ
  pub name : String
  pub db_type : DbType
  pub status : DbStatus
  pub container_id : Option String
  pub network_id : Option String
  pub host : String
  pub port : ℕ
  pub username : String
  pub password_encrypted : String
  pub database_name : Option String
  pub tls_cert : Option String
  pub cpu_limit : F64
  pub memory_limit_mb : ℤ
  pub bundle_id : Option ℕ
  pub tls_mode : String
  pub plan_template_id : Option ℕ
  pub subdomain : String
  pub routing_mode : String
  pub docker_server_id : Option ℕ
  pub created_at : ℕ
  pub updated_at : ℕ

pub record Bundle : Type 0 where
  pub id : ℕ
  pub user_id : ℕ
  pub name : String
  pub network_id : Option String
  pub created_at : ℕ

pub record DockerServer : Type 0 where
  pub id : ℕ
  pub name : String
  pub url : String
  pub tls_ca : Option String
  pub tls_cert : Option String
  pub tls_key : Option String
  pub max_containers : ℤ
  pub active : Bool
  pub region : Option String
  pub notes : Option String
  pub server_type : String
  pub last_seen_at : Option ℕ
  pub created_at : ℕ

pub record PlanTemplate : Type 0 where
  pub id : ℕ
  pub name : String
  pub db_type : DbType
  pub cpu_limit : F64
  pub memory_limit_mb : ℤ
  pub monthly_price_cents : ℤ
  pub hourly_price_cents : ℤ
  pub is_bundle : Bool
  pub active : Bool
  pub created_at : ℕ

pub record UsageEvent : Type 0 where
  pub id : ℕ
  pub database_id : ℕ
  pub event_type : String
  pub recorded_at : ℕ
  pub user_id : Option ℕ
  pub database_name : Option String
  pub plan_template_id : Option ℕ

pub record BillingPeriod : Type 0 where
  pub id : ℕ
  pub user_id : ℕ
  pub period_start : ℕ
  pub period_end : ℕ
  pub total_cents : ℤ
  pub stripe_invoice_id : Option String
  pub status : String
  pub created_at : ℕ

pub record BillingLineItem : Type 0 where
  pub id : ℕ
  pub billing_period_id : ℕ
  pub database_id : ℕ
  pub plan_template_id : Option ℕ
  pub hours_used : F64
  pub amount_cents : ℤ
  pub created_at : ℕ

pub record PrivateNetwork : Type 0 where
  pub id : ℕ
  pub user_id : ℕ
  pub name : String
  pub docker_network_id : Option String
  pub docker_server_id : Option ℕ
  pub subnet : Option String
  pub gateway : Option String
  pub created_at : ℕ

pub record PrivateNetworkMember : Type 0 where
  pub id : ℕ
  pub network_id : ℕ
  pub database_id : ℕ
  pub joined_at : ℕ

pub record NetworkPeering : Type 0 where
  pub id : ℕ
  pub user_id : ℕ
  pub network_a_id : ℕ
  pub network_b_id : ℕ
  pub docker_bridge_id : Option String
  pub docker_server_id : Option ℕ
  pub status : String
  pub created_at : ℕ

pub record FirewallRule : Type 0 where
  pub id : ℕ
  pub peering_id : ℕ
  pub priority : ℤ
  pub action : String
  pub source_network_id : ℕ
  pub dest_network_id : ℕ
  pub port : Option ℤ
  pub protocol : Option String
  pub description : Option String
  pub created_at : ℕ

-- `DbEvent`, sent on the broadcast channel.
pub record DbEvent : Type 0 where
  pub user_id : ℕ
  pub database_id : ℕ
  pub event_type : String
  pub status : Option DbStatus

-- `AuthUser` of api/src/middleware/auth.rs.
pub record AuthUser : Type 0 where
  pub id : ℕ
  pub email : String
  pub role : UserRole
