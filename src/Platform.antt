-- ===== src/Platform.antt =====
-- The state that the handlers of the API share (`AppState`: the tables of the database, the port
-- pool, the event channel) and the effect of one call: a result, and the state afterwards, which
-- keeps what was written before an error.
-- Everything outside the program (Docker, the clock, the generator of UUIDs) is the state's `world`,
-- of any type, which the operations of `Services` read and change.

pub mod Rules
pub mod Returns
use dbsaa_s.Prelude.{ℕ, Bool, true, false, Option, none, some, List, [], ◌∷◌, ◌++◌, String}
use dbsaa_s.Models.{
  DatabaseInstance, DockerServer, PlanTemplate, UsageEvent, PrivateNetwork, PrivateNetworkMember,
  NetworkPeering, FirewallRule, DbEvent, BillingPeriod, BillingLineItem, Bundle, F64,
}
use dbsaa_s.Models.Access.{User, Invitation, DatabaseUser}
use dbsaa_s.Models.Records.{BackupRecord, BackupSchedule, AlertRule, AlertHistory}
use dbsaa_s.Ports.{PortPool}
use dbsaa_s.Prelude.Int.{ℤ}
use dbsaa_s.Crypto.{Primitives}
use dbsaa_s.Errors.{AppError, Result, ok, err}

pub record State (W : Type 0) : Type 0 where
  pub instances : List DatabaseInstance
  pub servers : List DockerServer
  pub templates : List PlanTemplate
  pub usage_events : List UsageEvent
  pub periods : List BillingPeriod
  pub line_items : List BillingLineItem
  pub networks : List PrivateNetwork
  pub members : List PrivateNetworkMember
  pub peerings : List NetworkPeering
  pub rules : List FirewallRule
  pub bundles : List Bundle
  pub users : List User
  pub invitations : List Invitation
  pub database_users : List DatabaseUser
  pub backups : List BackupRecord
  pub schedules : List BackupSchedule
  -- a user and a database
  pub favorites : List (ℕ × ℕ)
  pub alert_rules : List AlertRule
  pub alert_history : List AlertHistory
  pub registration_enabled : Bool
  pub maintenance_mode : Bool
  pub port_pool : PortPool
  pub sent : List DbEvent
  pub world : W

abbrev pub M : Type 0 → Type 0 → Type 0
M W A = State W → Result A × State W

-- A call to the outside.
abbrev pub Call : Type 0 → Type 0 → Type 0
Call W A = W → Result A × W

module _ {W : Type 0} where
  unfoldable pub pure : {A : Type 0} → A → M W A
  pure a s = (ok a, s)

  unfoldable pub throw : {A : Type 0} → AppError → M W A
  throw e s = (err e, s)

  unfoldable pub gets : {A : Type 0} → (State W → A) → M W A
  gets f s = (ok (f s), s)

  unfoldable pub modify : (State W → State W) → M W (Unit {0})
  modify f s = (ok tt, f s)

  -- `if c { return Err(e) }`
  unfoldable pub throw_if : Bool → AppError → M W (Unit {0})
  throw_if true e s = (err e, s)
  throw_if false e s = (ok tt, s)

  -- `.ok_or_else(|| e)?`
  unfoldable pub or_throw : {A : Type 0} → Option A → AppError → M W A
  or_throw none e s = (err e, s)
  or_throw (some a) e s = (ok a, s)

  unfoldable pub call : {A : Type 0} → Call W A → M W A
  call f s = let (r, w) = f s.world in (r, record s { world = w })

  -- `let _ = …;`: the error is dropped.
  unfoldable pub ignore : {A : Type 0} → M W A → M W (Unit {0})
  ignore m s = let (r, s') = m s in (ok tt, s')

  -- `match … { Ok(a) => …, Err(e) => … }`
  unfoldable pub attempt : {A : Type 0} → M W A → M W (Result A)
  attempt m s = let (r, s') = m s in (ok r, s')

  -- `tx.send(event)`
  unfoldable pub send : DbEvent → M W (Unit {0})
  send e s = (ok tt, record s { sent = s.sent ++ (e ∷ []) })

infixl 5 ◌>>=◌ ◌>>◌
unfoldable pub ◌>>=◌ : {W A B : Type 0} → M W A → (A → M W B) → M W B
◌>>=◌ m f s = let (r, s') = m s in elim r [ ok a ↦ f a s' | err e ↦ (err e, s') ]

abbrev pub ◌>>◌ : {W A B : Type 0} → M W A → M W B → M W B
m >> k = m >>= λ _. k

-- Opens the combinators at once, for a proof that runs a call.
unfoldable pub run : Unit {0}
unfolding pure throw gets modify throw_if or_throw call ignore attempt send ◌>>=◌
run = tt

-- `for x in xs { body }`
unfoldable pub for_each : {W A : Type 0} → List A → (A → M W (Unit {0})) → M W (Unit {0})
for_each [] body = pure tt
for_each (x ∷ xs) body = body x >> for_each xs body

-- A handle to a Docker daemon; `none` is the local one.
abbrev pub Docker : Type 0
Docker = Option ℕ

-- `HostConfig` of the Docker API, the fields that the program sets. `port_bindings` is at most one:
-- the container's port, the host's address and the host's port.
pub record HostConfig : Type 0 where
  pub network_mode : Option String
  pub userns_mode : Option String
  pub auto_remove : Option Bool
  pub cap_add : List String
  pub unless_stopped : Bool
  pub nano_cpus : Option ℤ
  pub memory : Option ℤ
  pub memory_swap : Option ℤ
  pub security_opt : List String
  pub port_bindings : Option (String × String × String)

-- `HealthConfig`, the times in nanoseconds.
pub record HealthConfig : Type 0 where
  pub test : List String
  pub interval : ℕ
  pub timeout : ℕ
  pub retries : ℕ
  pub start_period : ℕ

pub record ContainerCreateBody : Type 0 where
  pub image : String
  pub cmd : Option (List String)
  pub env : Option (List String)
  pub host_config : HostConfig
  pub healthcheck : Option HealthConfig

pub data HealthStatus : Type 0 where
  empty none_set starting healthy unhealthy : HealthStatus

-- `ContainerState`: `health` is `none` without a health check, and then its status may be missing.
pub record ContainerState : Type 0 where
  pub health : Option (Option HealthStatus)
  pub running : Option Bool

pub record CertPair : Type 0 where
  pub cert_pem : String
  pub key_pem : String

-- What the program uses of the world outside it. Each call may fail, and may change the world.
pub record Services (W : Type 0) : Type 0 where
  -- `Uuid::new_v4` and PostgreSQL's `gen_random_uuid`
  pub uuid : W → ℕ × W
  -- the clock, in microseconds
  pub now : W → ℕ × W
  -- `tokio::time::Instant::now` in seconds, and `tokio::time::sleep`
  pub instant : W → ℕ × W
  pub sleep : ℕ → W → W
  -- `rng.random_range(0..62)`
  pub random_index : W → ℕ × W
  -- how a UUID is written
  pub show_uuid : ℕ → String
  -- `Docker::connect_with_local_defaults` and `Docker::connect_with_ssl`
  pub connect_local : Call W ℕ
  -- (with the PEM files of the server written first)
  pub connect_ssl : ℕ → String → String → String → String → Call W ℕ
  pub create_network : Docker → String → Option Bool → List (String × String) → Call W String
  -- the network's id, and the subnet and the gateway of its address ranges
  pub inspect_network :
      Docker → String → Call W (Option String × Option (List (Option String × Option String)))
  pub connect_network : Docker → String → String → Call W (Unit {0})
  pub disconnect_network : Docker → String → String → Call W (Unit {0})
  pub remove_network : Docker → String → Call W (Unit {0})
  pub inspect_image : Docker → String → Call W (Unit {0})
  -- the stream of a pull, as the list of its results
  pub create_image : Docker → String → String → W → List (Result (Unit {0})) × W
  pub create_container : Docker → String → ContainerCreateBody → Call W String
  pub start_container : Docker → String → Call W (Unit {0})
  pub stop_container : Docker → String → Call W (Unit {0})
  pub restart_container : Docker → String → Call W (Unit {0})
  pub remove_container : Docker → String → Call W (Unit {0})
  pub inspect_container : Docker → String → Call W (Option ContainerState)
  pub update_container : Docker → String → ℤ → ℤ → Call W (Unit {0})
  -- the id of a new command in a container, and what it prints: a message, or the end of the stream
  -- with an error; `none` if it is detached
  pub create_exec : Docker → String → List String → Call W String
  pub start_exec : Docker → String → Call W (Option (List (Option String)))
  -- the log of a container up to its end
  pub logs : Docker → String → W → String × W
  -- `char::is_alphanumeric`, whose Unicode tables are not in the source
  pub is_alphanumeric : ℕ → Bool
  -- `str::to_lowercase`, likewise
  pub to_lowercase : String → String
  -- `x as i64` of the product of a number of processors and 10 ^ 9
  pub nano_cpus_of : F64 → ℤ
  -- the certificate authority, and the file system
  pub generate_cert : String → Call W CertPair
  pub create_dir_all : String → Call W (Unit {0})
  pub write_file : String → String → Call W (Unit {0})
  pub remove_file : String → Call W (Unit {0})
  pub file_exists : String → W → Bool × W
  -- twelve random bytes, and what they are used with
  pub fill_nonce : W → List ℕ × W
  pub primitives : Primitives

module _ {W : Type 0} (svc : Services W) where
  unfoldable pub new_uuid : M W ℕ
  new_uuid s = let (u, w) = svc.uuid s.world in (ok u, record s { world = w })

  unfoldable pub now_utc : M W ℕ
  now_utc s = let (t, w) = svc.now s.world in (ok t, record s { world = w })
