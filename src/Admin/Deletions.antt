-- ===== src/Admin/Deletions.antt =====
-- What the administrator removes: api/src/handlers/admin.rs (`delete_user`, `force_delete_database`).
use dbsaa_s.Prelude.{ℕ, ◌%◌, Option, none, some, List, [], ◌∷◌, String}
use dbsaa_s.Models.{DatabaseInstance, PrivateNetwork, DbStatus}
use dbsaa_s.Errors.{AppError, Result}
use dbsaa_s.Config.{Config}
use dbsaa_s.Platform.{
  M, Docker, Services, pure, or_throw, ignore, attempt, send, for_each, ◌>>=◌, ◌>>◌,
}
use dbsaa_s.Traefik.{remove_config}
use dbsaa_s.Repository.Users
use dbsaa_s.Repository.Databases
use dbsaa_s.Repository.Networks
use dbsaa_s.Repository.Billing.{record_usage_event}
use dbsaa_s.Provisioner.{remove_private_network}
use dbsaa_s.Databases.Resources.{release_port}
use dbsaa_s.Databases.Lifecycle.{deleted, leave_networks, remove_if}
use dbsaa_s.Backups.{reach}

module _ {W : Type 0} (svc : Services W) where
  -- One database of the user; what is spawned for it is `clear_up`, with the daemon found here.
  abbrev pub condemn : DatabaseInstance → M W (DatabaseInstance × Docker)
  condemn db = do
    ignore (record_usage_event svc db.id "stop" db.user_id db.name db.plan_template_id)
    Databases.update_status svc db.id DbStatus.deleting
    target_docker ← reach svc db.docker_server_id
    leave_networks svc target_docker db.id db.container_id
    send (deleted db)
    pure (db, target_docker)

  abbrev pub condemn_all : List DatabaseInstance → M W (List (DatabaseInstance × Docker))
  condemn_all [] = pure []
  condemn_all (db ∷ databases) = do
    task ← condemn db
    tasks ← condemn_all databases
    pure (task ∷ tasks)

  -- On the local daemon, whatever server the network is on.
  abbrev pub remove_on_docker : Option String → M W (Unit {0})
  remove_on_docker none = pure tt
  remove_on_docker (some docker_net_id) = ignore (remove_private_network svc none docker_net_id)

  abbrev pub drop_network : PrivateNetwork → M W (Unit {0})
  drop_network net = remove_on_docker net.docker_network_id >> ignore (Networks.delete_row net.id)

  -- The tasks that were spawned, also where the reply is an error.
  unfoldable pub delete_user : ℕ → M W (List (DatabaseInstance × Docker) × Result (Unit {0}))
  delete_user user_id = do
    databases ← Databases.find_by_user user_id
    tasks ← condemn_all databases
    networks ← Networks.find_by_user user_id
    for_each networks drop_network
    reply ← attempt (Users.delete_user_row user_id)
    pure (tasks, reply)

  -- The task for one database.
  unfoldable pub clear_up : Config → DatabaseInstance × Docker → M W (Unit {0})
  clear_up cfg (db, target_docker) = do
    remove_if svc target_docker db.container_id db.network_id
    ignore (remove_config svc cfg (svc.show_uuid db.id))
    ignore (Databases.delete_row db.id)
    release_port (db.port % 65536)

  unfoldable pub force_delete_database : Config → ℕ → M W (Unit {0})
  force_delete_database cfg id = do
    found ← Databases.find_by_id id
    inst ← or_throw found (AppError.not_found "Database not found")
    target_docker ← reach svc inst.docker_server_id
    leave_networks svc target_docker id inst.container_id
    remove_if svc target_docker inst.container_id inst.network_id
    ignore (record_usage_event svc id "stop" inst.user_id inst.name inst.plan_template_id)
    ignore (remove_config svc cfg (svc.show_uuid id))
    Databases.delete_row id
    release_port (inst.port % 65536)
