-- ===== src/Databases/Lifecycle.antt =====
-- The endpoints on a database that exists, and the task that removes it: api/src/handlers/databases.rs
-- (lines 24 to 39, 741 to 795, 1271 to 1344, 1874 to 2015).
use Prim.Native.String.{len}
use dbsaa_s.Prelude.{
  ℕ, ◌%◌, Bool, true, false, not, Option, none, some, String, str_eq, ltb, ◌==◌, ◌&&◌, ◌||◌, any,
}
use dbsaa_s.Models.{DatabaseInstance, DbType, DbStatus, DbEvent, ContainerAction, AuthUser}
use dbsaa_s.Errors.{AppError}
use dbsaa_s.Platform.{
  M, Docker, Services, pure, throw_if, or_throw, gets, ignore, send, for_each, now_utc, ◌>>=◌, ◌>>◌,
}
use dbsaa_s.Config.{Config}
use dbsaa_s.Traefik.{remove_config}
use dbsaa_s.Repository.Networks.{find_networks_for_database, duplicate_key}
use dbsaa_s.Repository.Databases.{update_row}
use dbsaa_s.Repository.Databases
use dbsaa_s.Repository.Servers
use dbsaa_s.Repository.Billing.{get_plan_template, record_usage_event}
use dbsaa_s.Provisioner.{connect_to_server, detach_container_from_network}
use dbsaa_s.Provisioner.Host.{wait_for_healthy}
use dbsaa_s.Provisioner.Containers.{
  start_container, stop_container, restart_container, remove_container, update_container_resources,
}
use dbsaa_s.Databases.Resources.{release_port}
use dbsaa_s.Databases.Provisioning.{status_changed}

-- `plan.db_type == inst.db_type`
abbrev pub same_type : DbType → DbType → Bool
same_type DbType.postgresql DbType.postgresql = true
same_type DbType.redis DbType.redis = true
same_type DbType.mariadb DbType.mariadb = true
same_type _ _ = false

abbrev pub deleted : DatabaseInstance → DbEvent
deleted inst = record {
  user_id = inst.user_id;
  database_id = inst.id;
  event_type = "deleted";
  status = none;
}

abbrev pub status_after : ContainerAction → DbStatus
status_after ContainerAction.start = DbStatus.running
status_after ContainerAction.stop = DbStatus.stopped
status_after ContainerAction.restart = DbStatus.running

module _ {W : Type 0} where
  -- The first lines of the endpoints: the row, if it is the user's.
  unfoldable pub own_database : AuthUser → ℕ → M W DatabaseInstance
  own_database user id = do
    found ← Databases.find_by_id id
    inst ← or_throw found (AppError.not_found "Database not found")
    throw_if (not (inst.user_id == user.id)) AppError.forbidden
    pure inst

module _ {W : Type 0} (svc : Services W) where
  abbrev pub resolve : Option ℕ → M W Docker
  resolve none = pure none
  resolve (some server_id) = do
    found ← Servers.find_by_id server_id
    server ← or_throw found (AppError.internal "Docker server not found for instance")
    docker ← connect_to_server svc server
    pure (some docker)

  unfoldable pub resolve_docker_for_instance : DatabaseInstance → M W Docker
  resolve_docker_for_instance inst = resolve inst.docker_server_id

  -- What is asked of Docker.
  unfoldable pub act : ContainerAction → Docker → String → M W (Unit {0})
  act ContainerAction.start docker container_id =
      start_container svc docker container_id >> wait_for_healthy svc docker container_id 60
  act ContainerAction.stop docker container_id = stop_container svc docker container_id
  act ContainerAction.restart docker container_id =
      restart_container svc docker container_id >> wait_for_healthy svc docker container_id 60

  -- A start and a stop are billed, a restart is not.
  abbrev pub bill_action : ContainerAction → DatabaseInstance → M W (Unit {0})
  bill_action ContainerAction.start inst =
      ignore (record_usage_event svc inst.id "start" inst.user_id inst.name inst.plan_template_id)
  bill_action ContainerAction.stop inst =
      ignore (record_usage_event svc inst.id "stop" inst.user_id inst.name inst.plan_template_id)
  bill_action ContainerAction.restart inst = pure tt

  -- What is written once Docker has done it.
  unfoldable pub acted : ContainerAction → DatabaseInstance → M W (Unit {0})
  acted action inst = do
    Databases.update_status svc inst.id (status_after action)
    bill_action action inst
    send (status_changed inst.user_id inst.id (status_after action))

  unfoldable pub container_action : AuthUser → ℕ → ContainerAction → M W (Unit {0})
  container_action user id action = do
    inst ← own_database user id
    container_id ← or_throw inst.container_id (AppError.bad_request "Container not provisioned yet")
    target_docker ← resolve_docker_for_instance inst
    act action target_docker container_id
    acted action inst

  abbrev pub leave_network : Docker → String → Option String → M W (Unit {0})
  leave_network docker container_id none = pure tt
  leave_network docker container_id (some net_id) =
      ignore (detach_container_from_network svc docker container_id net_id)

  abbrev pub leave_networks : Docker → ℕ → Option String → M W (Unit {0})
  leave_networks docker id none = pure tt
  leave_networks docker id (some container_id) = find_networks_for_database id >>= λ networks.
      for_each networks (λ net. leave_network docker container_id net.docker_network_id)

  -- What the spawned task is given: the row as it was, and its Docker daemon.
  unfoldable pub delete_database : AuthUser → ℕ → M W (DatabaseInstance × Docker)
  delete_database user id = do
    inst ← own_database user id
    ignore (record_usage_event svc id "stop" inst.user_id inst.name inst.plan_template_id)
    Databases.update_status svc id DbStatus.deleting
    target_docker ← resolve_docker_for_instance inst
    leave_networks target_docker id inst.container_id
    send (status_changed inst.user_id id DbStatus.deleting)
    pure (inst, target_docker)

  abbrev pub remove_if : Docker → Option String → Option String → M W (Unit {0})
  remove_if docker (some container_id) (some network_id) =
      ignore (remove_container svc docker container_id network_id)
  remove_if docker none network_id = pure tt
  remove_if docker (some container_id) none = pure tt

  -- The spawned task.
  unfoldable pub clean_up : Config → DatabaseInstance → Docker → M W (Unit {0})
  clean_up cfg inst target_docker = do
    remove_if target_docker inst.container_id inst.network_id
    ignore (remove_config svc cfg (svc.show_uuid inst.id))
    ignore (Databases.delete_row inst.id)
    release_port (inst.port % 65536)
    send (deleted inst)

  unfoldable pub scale_database : AuthUser → ℕ → ℕ → M W (Unit {0})
  scale_database user id plan_template_id = do
    inst ← own_database user id
    container_id ← or_throw inst.container_id (AppError.bad_request "Container not provisioned")
    found ← get_plan_template plan_template_id
    plan ← or_throw found (AppError.not_found "Plan not found")
    throw_if (not (same_type plan.db_type inst.db_type))
        (AppError.bad_request "Plan db_type does not match database type")
    throw_if (not plan.active) (AppError.bad_request "Plan is not active")
    target_docker ← resolve_docker_for_instance inst
    update_container_resources svc target_docker container_id plan.cpu_limit plan.memory_limit_mb
    ignore (record_usage_event svc id "stop" user.id inst.name inst.plan_template_id)
    ignore (record_usage_event svc id "start" user.id inst.name (some plan_template_id))
    t ← now_utc svc
    update_row id (λ d. record d {
      plan_template_id = some plan_template_id;
      cpu_limit = plan.cpu_limit;
      memory_limit_mb = plan.memory_limit_mb;
      updated_at = t;
    })

  abbrev pub name_taken : ℕ → ℕ → String → DatabaseInstance → Bool
  name_taken user_id id name d = d.user_id == user_id && (str_eq d.name name && not (d.id == id))

  -- UNIQUE (user_id, name) is checked by the update.
  unfoldable pub rename_database : AuthUser → ℕ → String → M W String
  rename_database user id name = do
    inst ← own_database user id
    throw_if (str_eq name "" || ltb 63 (len name))
        (AppError.bad_request "Name must be 1-63 characters")
    t ← now_utc svc
    taken ← gets (λ s. any (name_taken inst.user_id id name) s.instances)
    throw_if taken duplicate_key
    update_row id (λ d. record d { name = name; updated_at = t })
    pure name
