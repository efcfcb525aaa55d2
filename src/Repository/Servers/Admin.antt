-- ===== src/Repository/Servers/Admin.antt =====
-- The statements of the administrator on Docker servers: api/src/repository/docker_server_repo.rs (lines 10 to
-- 108), with the constraints of migrations 009, 010, 012 and 016.
use dbsaa_s.Prelude.{
  ℕ, Bool, true, false, not, Option, none, some, List, [], ◌∷◌, ◌++◌, String, str_eq, ◌==◌, ◌||◌,
  ◌&&◌, leb, select, sort_by, update, delete, any,
}
use dbsaa_s.Prelude.Int.{ℤ, pos}
use dbsaa_s.Models.{DockerServer, DatabaseInstance, PrivateNetwork, NetworkPeering}
use dbsaa_s.Errors.{AppError}
use dbsaa_s.Platform.{
  State, M, Services, pure, gets, modify, throw_if, or_throw, new_uuid, now_utc, ◌>>=◌, ◌>>◌,
}
use dbsaa_s.Repository.Networks.{duplicate_key, foreign_key}
use dbsaa_s.Repository.Schedules.{coalesce, row_not_found}
use dbsaa_s.Repository.Servers.{find_by_id}

pub record CreateDockerServerRequest : Type 0 where
  pub name : String
  pub url : String
  pub tls_ca : Option String
  pub tls_cert : Option String
  pub tls_key : Option String
  pub max_containers : Option ℤ
  pub region : Option String
  pub notes : Option String
  pub server_type : Option String

pub record UpdateDockerServerRequest : Type 0 where
  pub name : Option String
  pub url : Option String
  pub tls_ca : Option String
  pub tls_cert : Option String
  pub tls_key : Option String
  pub max_containers : Option ℤ
  pub active : Option Bool
  pub region : Option String
  pub notes : Option String
  pub server_type : Option String

-- `new.as_ref().or(current.as_ref())`
abbrev pub or_current : Option String → Option String → Option String
or_current none current = current
or_current (some v) current = some v

-- CHECK (server_type IN ('platform', 'client'))
abbrev pub known_server_type : String → Bool
known_server_type t = str_eq t "platform" || str_eq t "client"

abbrev pub check_violated : AppError
check_violated =
    AppError.database
      "row for relation \"docker_servers\" violates check constraint \"docker_servers_server_type_check\""

abbrev pub is_server : ℕ → DockerServer → Bool
is_server id v = v.id == id

abbrev pub names_server : ℕ → Option ℕ → Bool
names_server id none = false
names_server id (some server_id) = server_id == id

-- Some database, network or peering is on the server.
abbrev pub is_referred : {W : Type 0} → State W → ℕ → Bool
is_referred s id =
    any {A = DatabaseInstance} (λ d. names_server id d.docker_server_id) s.instances
    || (any {A = PrivateNetwork} (λ n. names_server id n.docker_server_id) s.networks
        || any {A = NetworkPeering} (λ p. names_server id p.docker_server_id) s.peerings)

abbrev pub new_server : CreateDockerServerRequest → ℕ → ℕ → DockerServer
new_server req id t = record {
  id = id;
  name = req.name;
  url = req.url;
  tls_ca = req.tls_ca;
  tls_cert = req.tls_cert;
  tls_key = req.tls_key;
  max_containers = coalesce req.max_containers (pos 50);
  active = true;
  region = req.region;
  notes = req.notes;
  server_type = coalesce req.server_type "client";
  last_seen_at = none;
  created_at = t;
}

-- What the statement binds, from the request and the row that was read first.
abbrev pub changed : UpdateDockerServerRequest → DockerServer → DockerServer → DockerServer
changed req current v = record v {
  name = coalesce req.name current.name;
  url = coalesce req.url current.url;
  tls_ca = or_current req.tls_ca current.tls_ca;
  tls_cert = or_current req.tls_cert current.tls_cert;
  tls_key = or_current req.tls_key current.tls_key;
  max_containers = coalesce req.max_containers current.max_containers;
  active = coalesce req.active current.active;
  region = or_current req.region current.region;
  notes = or_current req.notes current.notes;
  server_type = coalesce req.server_type current.server_type;
}

abbrev newest_first : List DockerServer → List DockerServer
newest_first servers = sort_by (λ a b. leb b.created_at a.created_at) servers

module _ {W : Type 0} where
  unfoldable pub list_all : M W (List DockerServer)
  list_all = gets (λ s. newest_first s.servers)

  unfoldable pub list_active : M W (List DockerServer)
  list_active = gets (λ s. newest_first (select (λ v. v.active) s.servers))

  unfoldable pub change : ℕ → UpdateDockerServerRequest → M W DockerServer
  change id req = do
    found ← find_by_id id
    current ← or_throw found row_not_found
    throw_if (not (known_server_type (coalesce req.server_type current.server_type))) check_violated
    modify (λ s. record s { servers = update (is_server id) (changed req current) s.servers })
    row ← find_by_id id
    or_throw row row_not_found

  unfoldable pub remove : ℕ → M W (Unit {0})
  remove id = do
    referred ← gets (λ s. is_referred s id)
    known ← gets (λ s. any (is_server id) s.servers)
    throw_if (known && referred) foreign_key
    modify (λ s. record s { servers = delete (is_server id) s.servers })

module _ {W : Type 0} (svc : Services W) where
  unfoldable pub create : CreateDockerServerRequest → M W DockerServer
  create req = do
    id ← new_uuid svc
    t ← now_utc svc
    taken ← gets (λ s. any (is_server id) s.servers)
    throw_if (not (known_server_type (coalesce req.server_type "client"))) check_violated
    throw_if taken duplicate_key
    modify (λ s. record s { servers = s.servers ++ (new_server req id t ∷ []) })
    pure (new_server req id t)

  unfoldable pub update_last_seen : ℕ → M W (Unit {0})
  update_last_seen id = do
    t ← now_utc svc
    modify (λ s. record s {
      servers = update (is_server id) (λ v. record v { last_seen_at = some t }) s.servers;
    })
