-- ===== src/Alerts.antt =====
-- Alerts: api/src/services/alert.rs, with `is_container_running` and `get_container_stats_once` of api/src/services/provisioner.rs (lines 1135 to 1188). The parser of URLs, the
-- resolver, the senders and the arithmetic of floating-point numbers are parameters.
pub mod Handlers
pub mod Safety
use dbsaa_s.Prelude.{
  ℕ, Bool, true, false, not, Option, none, some, List, [], ◌∷◌, String, str_eq, ltb, ◌==◌, ◌&&◌,
  ◌||◌, any, if◌then◌else◌,
}
use dbsaa_s.Prelude.Int.{ℤ, pos}
use dbsaa_s.Text.{concat, show_i32}
use dbsaa_s.Net.{IpAddr, is_internal_ip}
use dbsaa_s.Models.{DatabaseInstance, AuthUser, F64}
use dbsaa_s.Models.Records.{AlertRule, AlertHistory}
use dbsaa_s.Errors.{AppError, Result, ok, err}
use dbsaa_s.Platform.{
  M, Call, Docker, Services, ContainerState, pure, gets, throw, throw_if, or_throw, call, ignore,
  attempt, for_each, ◌>>=◌, ◌>>◌,
}
use dbsaa_s.Repository.Databases
use dbsaa_s.Repository.Alerts
use dbsaa_s.Databases.Addresses.{unwrap_or}
use dbsaa_s.Backups.{reach}

-- What `Url` tells: the scheme, the host, and the port, if it is given and not that of the scheme.
pub record Url : Type 0 where
  pub scheme : String
  pub host_str : Option String
  pub port : Option ℕ

-- The first answer of the statistics of a container, with zero for what is missing and one for its processors.
pub record RawStats : Type 0 where
  pub total_usage : ℕ
  pub previous_total_usage : ℕ
  pub system_usage : ℕ
  pub previous_system_usage : ℕ
  pub online_cpus : ℕ
  pub usage : ℕ
  pub limit : ℕ

pub record Outside (W : Type 0) : Type 0 where
  pub parse : String → Option Url
  -- `to_socket_addrs`; `none` is its error
  pub resolve : String → W → Option (List IpAddr) × W
  pub send_webhook : String → String → String → W → W
  pub send_email : String → String → String → W → W
  pub stats : Docker → String → W → Option RawStats × W
  -- on `f64`: of a number, difference, quotient, product, and the order
  pub of_ℕ : ℕ → F64
  pub minus : F64 → F64 → F64
  pub over : F64 → F64 → F64
  pub times : F64 → F64 → F64
  pub is_above : F64 → F64 → Bool
  -- `{:.1}`
  pub show_f64 : F64 → String

pub record ContainerStats : Type 0 where
  pub cpu_percent : F64
  pub memory_usage : ℕ
  pub memory_limit : ℕ
  pub memory_percent : F64

abbrev pub blocked_hosts : List String
blocked_hosts =
    "localhost" ∷ "127.0.0.1" ∷ "0.0.0.0" ∷ "[::1]" ∷ "metadata.google.internal" ∷ "169.254.169.254"
    ∷ []

abbrev pub or_443 : Option ℕ → ℕ
or_443 none = 443
or_443 (some port) = port

abbrev internal_target : AppError
internal_target = AppError.bad_request "Webhook URL resolves to an internal IP address"

module _ {W : Type 0} (out : Outside W) where
  abbrev pub resolved : String → M W (Option (List IpAddr))
  resolved address s =
      let (found, w) = out.resolve address s.world in (ok found, record s { world = w })

  -- A name that cannot be resolved is accepted.
  abbrev pub check_addresses : Option (List IpAddr) → M W (Unit {0})
  check_addresses none = pure tt
  check_addresses (some addrs) = throw_if (any is_internal_ip addrs) internal_target

  unfoldable pub validate_webhook_url : String → M W (Unit {0})
  validate_webhook_url url = do
    parsed ← or_throw (out.parse url) (AppError.bad_request "Invalid webhook URL")
    throw_if (not (str_eq parsed.scheme "https"))
        (AppError.bad_request "Webhook URL must use HTTPS")
    host ← or_throw parsed.host_str (AppError.bad_request "Webhook URL must have a host")
    throw_if (any (λ b. str_eq b host) blocked_hosts)
        (AppError.bad_request "Webhook URL cannot target internal addresses")
    addrs ← resolved (concat (host ∷ ":" ∷ show_i32 (pos (or_443 parsed.port)) ∷ []))
    check_addresses addrs

  abbrev pub validate_if_given : Option String → M W (Unit {0})
  validate_if_given none = pure tt
  validate_if_given (some url) = validate_webhook_url url

  abbrev percent : F64 → F64 → F64
  percent part whole = out.times (out.over part whole) (out.of_ℕ 100)

  abbrev pub cpu_of : RawStats → F64
  cpu_of raw =
      let cpu_delta = out.minus (out.of_ℕ raw.total_usage) (out.of_ℕ raw.previous_total_usage) in
      let system_delta =
        out.minus (out.of_ℕ raw.system_usage) (out.of_ℕ raw.previous_system_usage) in
      if out.is_above system_delta (out.of_ℕ 0)
      then out.times (out.times (out.over cpu_delta system_delta) (out.of_ℕ raw.online_cpus))
          (out.of_ℕ 100)
      else out.of_ℕ 0

  abbrev pub container_stats : RawStats → ContainerStats
  container_stats raw = record {
    cpu_percent = cpu_of raw;
    memory_usage = raw.usage;
    memory_limit = raw.limit;
    memory_percent =
        if ltb 0 raw.limit then percent (out.of_ℕ raw.usage) (out.of_ℕ raw.limit) else out.of_ℕ 0;
  }

  abbrev pub some_stats : Option RawStats → Option ContainerStats
  some_stats none = none
  some_stats (some raw) = some (container_stats raw)

  unfoldable pub get_container_stats_once : Docker → String → M W (Option ContainerStats)
  get_container_stats_once docker container_id s =
      let (found, w) = out.stats docker container_id s.world in
      (ok (some_stats found), record s { world = w })

module _ {W : Type 0} (svc : Services W) (out : Outside W) where
  abbrev pub runs : Result (Option ContainerState) → Bool
  runs (ok (some state)) = is_true state.running
    where
      is_true : Option Bool → Bool
      is_true none = false
      is_true (some b) = b
  runs (ok none) = false
  runs (err e) = false

  unfoldable pub is_container_running : Docker → String → M W Bool
  is_container_running docker container_id =
      attempt (call (svc.inspect_container docker container_id)) >>= λ r. pure (runs r)

  abbrev pub tell : (String → W → W) → Option String → M W (Unit {0})
  tell f none s = (ok tt, s)
  tell f (some to) s = (ok tt, record s { world = f to s.world })

  unfoldable pub fire_alert : AlertRule → String → M W (Unit {0})
  fire_alert rule message = do
    ignore (Alerts.insert_history svc rule.id rule.event_type message)
    tell (λ url. out.send_webhook url rule.event_type message) rule.webhook_url
    tell (λ email. out.send_email email rule.event_type message) rule.email

  abbrev pub report_down : AlertRule → DatabaseInstance → Bool → M W (Unit {0})
  report_down rule inst true = pure tt
  report_down rule inst false =
      fire_alert rule (concat ("Database '" ∷ inst.name ∷ "' is down" ∷ []))

  abbrev pub report_if : Bool → AlertRule → DatabaseInstance → String → F64 → M W (Unit {0})
  report_if false rule inst what value = pure tt
  report_if true rule inst what value =
      fire_alert rule
        (concat ("Database '" ∷ inst.name ∷ "' " ∷ what ∷ " at " ∷ out.show_f64 value ∷ "%" ∷ []))

  abbrev pub report_high : AlertRule → DatabaseInstance → Option ContainerStats → M W (Unit {0})
  report_high rule inst none = pure tt
  report_high rule inst (some stats) = do
    report_if (str_eq rule.event_type "high_cpu" && out.is_above stats.cpu_percent (out.of_ℕ 90))
        rule inst "CPU" stats.cpu_percent
    report_if
        (str_eq rule.event_type "high_memory" && out.is_above stats.memory_percent (out.of_ℕ 90))
        rule inst "memory" stats.memory_percent

  abbrev pub check_container : AlertRule → DatabaseInstance → Option String → M W (Unit {0})
  check_container rule inst none = pure tt
  check_container rule inst (some container_id) = do
    docker ← reach svc inst.docker_server_id
    if str_eq rule.event_type "db_down"
        then is_container_running docker container_id >>= report_down rule inst
        else if str_eq rule.event_type "high_cpu" || str_eq rule.event_type "high_memory"
        then get_container_stats_once out docker container_id >>= report_high rule inst
        else pure tt

  abbrev pub check_found : AlertRule → Option DatabaseInstance → M W (Unit {0})
  check_found rule none = pure tt
  check_found rule (some inst) = check_container rule inst inst.container_id

  abbrev pub check_rule : AlertRule → Option ℕ → M W (Unit {0})
  check_rule rule none = pure tt
  check_rule rule (some database_id) = Databases.find_by_id database_id >>= check_found rule

  unfoldable pub check_container_health : M W (Unit {0})
  check_container_health = do
    rules ← Alerts.find_enabled_rules
    for_each rules (λ rule. check_rule rule rule.database_id)
