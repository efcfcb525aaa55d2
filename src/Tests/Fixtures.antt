-- ===== src/Tests/Fixtures.antt =====
-- A world that answers every call, a few rows, and the tables before the first network is created.
use Prim.Native.Char.{Char, code}
use dbsaa_s.Prelude.{
  ℕ, zero, suc, ◌+◌, ◌%◌, true, false, none, some, List, [], ◌∷◌, String, leb, ◌==◌, ◌&&◌, inr,
  if◌then◌else◌,
}
use dbsaa_s.Text.{codes}
use dbsaa_s.Crypto.{Primitives}
use dbsaa_s.Config.{Config}
use dbsaa_s.Prelude.Int.{pos}
use dbsaa_s.Ports.{PortPool}
use dbsaa_s.Models.{
  DatabaseInstance, DbType, DbStatus, UserRole, AuthUser, PrivateNetwork, NetworkPeering,
}
use dbsaa_s.Errors.{ok}
use dbsaa_s.Platform.{State, Services, ContainerState}

-- A text that spells a list of numbers: `n` letters a and one b for each number n.
abbrev pub tally : ℕ → String → String
tally zero rest = String.◌∷◌ "b" rest
tally (suc n) rest = String.◌∷◌ "a" (tally n rest)

abbrev pub spell : List ℕ → String
spell [] = String.[]
spell (n ∷ ns) = tally n (spell ns)

abbrev pub unspell : ℕ → String → List ℕ
unspell n String.[] = []
unspell n (String.◌∷◌ c rest) =
    let more = unspell (suc n) rest in
    let next = unspell 0 rest in if code c == 97 then more else n ∷ next

abbrev letter : String → ℕ → Char
letter String.[] n = "?"
letter (String.◌∷◌ c rest) n = let other = letter rest n in if code c == n then c else other

-- Texts of letters and digits only.
abbrev latin : List ℕ → String
latin [] = String.[]
latin (n ∷ ns) =
    String.◌∷◌ (letter "abcdefghijklmnopqrstuvwxyzABCDEFGHIJKLMNOPQRSTUVWXYZ0123456789" n)
      (latin ns)

-- A cipher that leaves the text as it is.
abbrev pub plain : Primitives
plain = record {
  new_from_slice = λ key. inr key;
  seal = λ key nonce text. inr text;
  unseal = λ key nonce text. inr text;
  base64_encode = spell;
  base64_decode = λ s. inr (unspell 0 s);
  as_bytes = codes;
  from_utf8 = λ bytes. inr (latin bytes);
}

abbrev pub replicate : ℕ → ℕ → List ℕ
replicate zero x = []
replicate (suc n) x = x ∷ replicate n x

abbrev up : ContainerState
up = record { health = none; running = some true }

-- The world counts the calls; the count serves as the next UUID and as the time.
abbrev pub svc : Services ℕ
svc = record {
  uuid = λ w. (w, suc w);
  now = λ w. (w, suc w);
  instant = λ w. (w, suc w);
  sleep = λ secs w. w + secs;
  random_index = λ w. (w % 62, suc w);
  show_uuid = λ u. "00000000-0000-4000-8000-000000000000";
  connect_local = λ w. (ok 0, suc w);
  connect_ssl = λ u a b c d w. (ok 0, suc w);
  create_network = λ docker name internal options w. (ok "n1", suc w);
  inspect_network = λ docker id w. (ok (none, none), suc w);
  connect_network = λ docker net cid w. (ok tt, suc w);
  disconnect_network = λ docker net cid w. (ok tt, suc w);
  remove_network = λ docker id w. (ok tt, suc w);
  inspect_image = λ docker image w. (ok tt, suc w);
  create_image = λ docker image tag w. ([], suc w);
  create_container = λ docker name body w. (ok "c1", suc w);
  start_container = λ docker cid w. (ok tt, suc w);
  stop_container = λ docker cid w. (ok tt, suc w);
  restart_container = λ docker cid w. (ok tt, suc w);
  remove_container = λ docker cid w. (ok tt, suc w);
  inspect_container = λ docker cid w. (ok (some up), suc w);
  update_container = λ docker cid cpus memory w. (ok tt, suc w);
  create_exec = λ docker cid cmd w. (ok "e1", suc w);
  start_exec = λ docker id w. (ok (some []), suc w);
  logs = λ docker cid w. ("OK", suc w);
  is_alphanumeric = λ c. leb 48 c && leb c 122;
  to_lowercase = λ s. s;
  nano_cpus_of = λ x. pos x;
  generate_cert = λ name w. (ok (record { cert_pem = "cert"; key_pem = "key" }), suc w);
  create_dir_all = λ path w. (ok tt, suc w);
  write_file = λ path text w. (ok tt, suc w);
  remove_file = λ path w. (ok tt, suc w);
  file_exists = λ path w. (false, suc w);
  fill_nonce = λ w. (replicate 12 0, suc w);
  primitives = plain;
}

abbrev pub alice : AuthUser
alice = record { id = 7; email = "alice@example.org"; role = UserRole.user }

abbrev pub bob : AuthUser
bob = record { id = 8; email = "bob@example.org"; role = UserRole.user }

abbrev pub home : PrivateNetwork
home = record {
  id = 1;
  user_id = 7;
  name = "home";
  docker_network_id = none;
  docker_server_id = none;
  subnet = none;
  gateway = none;
  created_at = 0;
}

abbrev pub link : NetworkPeering
link = record {
  id = 3;
  user_id = 7;
  network_a_id = 1;
  network_b_id = 2;
  docker_bridge_id = none;
  docker_server_id = none;
  status = "pending";
  created_at = 0;
}

abbrev pub small_pool : PortPool
small_pool = record { start = 10000; end = 10002; allocated = 10000 ∷ [] }

abbrev pub sales : DatabaseInstance
sales = record {
  id = 50;
  user_id = 7;
  name = "sales";
  db_type = DbType.postgresql;
  status = DbStatus.running;
  container_id = some "c50";
  network_id = none;
  host = "localhost";
  port = 10000;
  username = "u";
  password_encrypted = spell (replicate 12 0);
  database_name = some "sales";
  tls_cert = none;
  cpu_limit = 0;
  memory_limit_mb = pos 512;
  bundle_id = none;
  tls_mode = "none";
  plan_template_id = none;
  subdomain = "sb-50";
  routing_mode = "port";
  docker_server_id = none;
  created_at = 0;
  updated_at = 0;
}

-- Alice has one running database; there are no networks yet.
abbrev pub empty : State ℕ
empty = record {
  instances = sales ∷ [];
  servers = [];
  templates = [];
  usage_events = [];
  periods = [];
  line_items = [];
  networks = [];
  members = [];
  peerings = [];
  rules = [];
  bundles = [];
  users = [];
  invitations = [];
  database_users = [];
  backups = [];
  schedules = [];
  favorites = [];
  alert_rules = [];
  alert_history = [];
  registration_enabled = true;
  maintenance_mode = false;
  port_pool = small_pool;
  sent = [];
  world = 100;
}

-- The network and the peering above are there too.
abbrev pub shared : State ℕ
shared = record empty { networks = home ∷ []; peerings = link ∷ [] }

-- A user may have three databases.
abbrev pub cfg : Config
cfg = record {
  max_databases_per_user = pos 3;
  encryption_key = "00112233445566778899aabbccddeeff00112233445566778899aabbccddeeff";
  platform_domain = "example.com";
  platform_ip = "192.0.2.1";
  backup_dir = "/backups";
  jwt_secret = "jwt";
  stripe_webhook_secret = some "whsec";
  dynamic_dir = "/dynamic";
}
