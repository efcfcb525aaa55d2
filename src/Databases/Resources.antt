-- ===== src/Databases/Resources.antt =====
-- What a new database is given: its plan, its server, its password and its port:
-- api/src/handlers/databases.rs (lines 119 to 163), api/src/utils/crypto.rs (lines 26 to 64).
use Prim.Native.String.{◌++◌, slice}
use dbsaa_s.Prelude.{ℕ, zero, suc, ◌+◌, Bool, not, Option, none, some, List, String, str_eq, ◌||◌}
use dbsaa_s.Prelude.Int.{ℤ, pos, leb_ℤ}
use dbsaa_s.Models.{DockerServer, PlanTemplate, DbType, F64}
use dbsaa_s.Errors.{AppError, Result, ok, err}
use dbsaa_s.Crypto.{encrypt_with, cipher_of}
use dbsaa_s.Ports
use dbsaa_s.Platform.{M, Docker, Services, pure, throw_if, or_throw, modify, ◌>>=◌, ◌>>◌}
use dbsaa_s.Repository.Servers
use dbsaa_s.Repository.Billing.{get_plan_template}
use dbsaa_s.Provisioner.{connect_to_server}

-- The bits of 0.5.
abbrev half : F64
half = 4602678819172646912

abbrev cpu_or : Option F64 → F64
cpu_or none = half
cpu_or (some x) = x

abbrev memory_or : Option ℤ → ℤ
memory_or none = pos 256
memory_or (some x) = x

abbrev pub known_ssl_mode : String → Bool
known_ssl_mode s = str_eq s "verify-ca" || str_eq s "require"

abbrev pub db_name_for : DbType → String → Option String
db_name_for DbType.redis name = none
db_name_for DbType.postgresql name = some name
db_name_for DbType.mariadb name = some name

abbrev pub of_result : {W A : Type 0} → Result A → M W A
of_result r s = (r, s)

module _ {W : Type 0} where
  -- `state.port_pool.allocate()?`
  unfoldable pub allocate_port : M W ℕ
  allocate_port s =
      let (o, pool) = Ports.allocate s.port_pool in
      elim o [
        | none ↦ (err (AppError.internal "No available ports"), s)
        | some p ↦ (ok p, record s { port_pool = pool })
      ]

  unfoldable pub release_port : ℕ → M W (Unit {0})
  release_port port = modify (λ s. record s { port_pool = Ports.release s.port_pool port })

  abbrev active_plan : ℕ → Option PlanTemplate → M W (F64 × ℤ × Option ℕ)
  active_plan template_id found = do
    template ← or_throw found (AppError.not_found "Plan template not found")
    throw_if (not template.active) (AppError.bad_request "Plan template is not active")
    pure (template.cpu_limit, template.memory_limit_mb, some template_id)

  unfoldable pub resolve_plan : Option ℕ → Option F64 → Option ℤ → M W (F64 × ℤ × Option ℕ)
  resolve_plan none cpu_limit memory_limit_mb =
      pure (cpu_or cpu_limit, memory_or memory_limit_mb, none)
  resolve_plan (some template_id) cpu_limit memory_limit_mb =
      get_plan_template template_id >>= active_plan template_id

  -- `needed` is the number of containers: 1, or 2 for a bundle.
  unfoldable pub select_server : ℕ → AppError → Option ℕ → M W (Option DockerServer)
  select_server needed full none = Servers.select_best_client_server
  select_server needed full (some server_id) = do
    found ← Servers.find_active_client_by_id server_id
    server ← or_throw found (AppError.bad_request "Selected server not found or not available")
    count ← Servers.count_containers_on_server server.id
    throw_if (not (leb_ℤ (pos (count + needed)) server.max_containers)) full
    pure (some server)

module _ {W : Type 0} (svc : Services W) where
  -- The digits and letters of `match idx { 0..=9 => …, 10..=35 => …, _ => … }` in their order.
  abbrev pub alphabet : String
  alphabet = "0123456789abcdefghijklmnopqrstuvwxyzABCDEFGHIJKLMNOPQRSTUVWXYZ"

  unfoldable pub random_index : M W ℕ
  random_index s = let (i, w) = svc.random_index s.world in (ok i, record s { world = w })

  unfoldable pub generate_random_string : ℕ → M W String
  generate_random_string zero = pure ""
  generate_random_string (suc n) = do
    i ← random_index
    rest ← generate_random_string n
    pure (slice alphabet i (i + 1) ++ rest)

  unfoldable pub fill_nonce : M W (List ℕ)
  fill_nonce s = let (nonce, w) = svc.fill_nonce s.world in (ok nonce, record s { world = w })

  -- A bad key is refused before the nonce is drawn.
  unfoldable pub encrypt_string : String → String → M W String
  encrypt_string plaintext key_hex = do
    of_result (cipher_of svc.primitives key_hex)
    nonce ← fill_nonce
    of_result (encrypt_with svc.primitives nonce plaintext key_hex)

  abbrev pub connect : Option DockerServer → M W Docker
  connect none = pure none
  connect (some server) = connect_to_server svc server >>= λ d. pure (some d)
