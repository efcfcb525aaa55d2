-- ===== src/Repository/Servers.antt =====
-- Where the containers of a new database go: api/src/repository/docker_server_repo.rs (lines 47 to 165).
pub mod Admin
pub mod Placement
pub mod Removal
use dbsaa_s.Prelude.{
  ℕ, Bool, false, Option, none, some, List, [], ◌∷◌, str_eq, ◌==◌, ◌&&◌, count, find, select,
  if◌then◌else◌,
}
use dbsaa_s.Prelude.Int.{ℤ, pos, pos_part, neg_part, leb_ℤ, sub_ℕ}
use dbsaa_s.Models.{DatabaseInstance, DockerServer, is_live}
use dbsaa_s.Platform.{M, gets}
use dbsaa_s.Prelude.{not, ◌+◌}

abbrev pub on_server : ℕ → DatabaseInstance → Bool
on_server id d = opt_is d.docker_server_id && is_live d.status
  where
    opt_is : Option ℕ → Bool
    opt_is none = false
    opt_is (some server) = server == id

abbrev pub containers_on : List DatabaseInstance → ℕ → ℕ
containers_on instances id = count (on_server id) instances

abbrev pub is_active_client : DockerServer → Bool
is_active_client s = s.active && str_eq s.server_type "client"

-- `max_containers - cnt`
abbrev pub room : List DatabaseInstance → DockerServer → ℤ
room instances s =
    sub_ℕ (pos_part s.max_containers) (neg_part s.max_containers + containers_on instances s.id)

abbrev pub has_room : List DatabaseInstance → DockerServer → Bool
has_room instances s = not (leb_ℤ s.max_containers (pos (containers_on instances s.id)))

-- The candidate with more room; PostgreSQL may choose any of equal ones.
abbrev pub roomier :
    List DatabaseInstance → DockerServer → Option DockerServer → Option DockerServer
roomier instances s none = some s
roomier instances s (some t) =
    if leb_ℤ (room instances t) (room instances s) then some s else some t

abbrev pub best : List DatabaseInstance → List DockerServer → Option DockerServer
best instances [] = none
best instances (s ∷ rest) = roomier instances s (best instances rest)

module _ {W : Type 0} where
  unfoldable pub find_by_id : ℕ → M W (Option DockerServer)
  find_by_id id = gets (λ s. find (λ v. v.id == id) s.servers)

  unfoldable pub count_containers_on_server : ℕ → M W ℕ
  count_containers_on_server id = gets (λ s. containers_on s.instances id)

  unfoldable pub find_active_client_by_id : ℕ → M W (Option DockerServer)
  find_active_client_by_id id = gets (λ s. find (λ v. v.id == id && is_active_client v) s.servers)

  unfoldable pub select_best_client_server : M W (Option DockerServer)
  select_best_client_server =
      gets (λ s.
        best s.instances (select (λ v. is_active_client v && has_room s.instances v) s.servers))
