-- ===== src/Databases/Tasks.antt =====
-- What the endpoints and tasks on databases ask of Docker and of the file system leaves the tables alone.
use dbsaa_s.Prelude.{ℕ, Option, none, some, String}
use dbsaa_s.Models.{DatabaseInstance, DockerServer, ContainerAction, DbType}
use dbsaa_s.Config.{Config}
use dbsaa_s.Platform.{State, Docker, Services}
use dbsaa_s.Platform.Rules.{
  Keeps, IsInner, At-pure, At-gets, At-or_throw, At-call, At-ignore, Keeps-for_each,
}
use dbsaa_s.Traefik.{generate_sni_config, remove_config, file_exists}
use dbsaa_s.Repository.Networks.{find_networks_for_database}
use dbsaa_s.Repository.Servers
use dbsaa_s.Provisioner.{detach_container_from_network}
use dbsaa_s.Provisioner.Containers.{
  start_container, stop_container, restart_container, remove_container,
}
use dbsaa_s.Networks.DockerCalls.{Keeps-connect_to_server}
use dbsaa_s.Databases.Resources.{connect}
use dbsaa_s.Databases.Provisioning.{Provisioning, provision_container}
use dbsaa_s.Databases.Lifecycle.{
  resolve, resolve_docker_for_instance, act, leave_network, leave_networks,
}
use dbsaa_s.Databases.Quiet.{At-then, Keeps-if, Keeps-create_database_sni, Keeps-wait_for_healthy}

module _ {W : Type 0} (svc : Services W) (I : State W → Type 0) (inner : IsInner I) where
  Keeps-connect : (server : Option DockerServer) → Keeps I (connect svc server)
  Keeps-connect none s i = At-pure none i
  Keeps-connect (some server) s i =
      At-then _ _ (Keeps-connect_to_server svc I inner server s i) λ d t j. At-pure _ j

  Keeps-generate_sni_config :
      (cfg : Config) (id : String) (db_type : DbType) (fqdn cert key address : String)
      → Keeps I (generate_sni_config svc cfg id db_type fqdn cert key address)
  unfolding generate_sni_config
  Keeps-generate_sni_config cfg id db_type fqdn cert key address s i =
      At-then _ _ (At-call _ inner i) λ _ t j. At-then _ _ (At-call _ inner j) λ _ t j.
        At-then _ _ (At-call _ inner j)
          λ _ t j. At-then _ _ (At-call _ inner j) λ _ t j. At-call _ inner j

  pub Keeps-provision_container :
      (cfg : Config) (t : Provisioning) → Keeps I (provision_container svc cfg t)
  unfolding provision_container
  Keeps-provision_container cfg p s i = At-then _ _ (Keeps-connect _ s i) λ docker t j.
      At-then _ _ (At-call _ inner j) λ cert t j.
        At-then _ _ (Keeps-create_database_sni svc I inner docker _ _ _ _ _ _ _ _ _ _ t j)
          λ result t j. At-then _ _ (Keeps-wait_for_healthy svc I inner docker _ _ t j) λ _ t j.
            At-then _ _ (Keeps-generate_sni_config cfg _ _ _ _ _ _ t j) λ _ t j. At-pure _ j

  Keeps-resolve_server : (server : Option ℕ) → Keeps I (resolve svc server)
  unfolding Servers.find_by_id
  Keeps-resolve_server none s i = At-pure none i
  Keeps-resolve_server (some id) s i = At-gets _ _ (
      At-or_throw _ _ _ i λ server _.
        At-then _ _ (Keeps-connect_to_server svc I inner server s i) λ d t j. At-pure _ j)

  pub Keeps-resolve_docker :
      (inst : DatabaseInstance) → Keeps I (resolve_docker_for_instance svc inst)
  unfolding resolve_docker_for_instance
  Keeps-resolve_docker inst = Keeps-resolve_server inst.docker_server_id

  pub Keeps-act :
      (action : ContainerAction) (docker : Docker) (cid : String)
      → Keeps I (act svc action docker cid)
  unfolding act start_container stop_container restart_container
  Keeps-act ContainerAction.start docker cid s i =
      At-then _ _ (At-call _ inner i) λ _. Keeps-wait_for_healthy svc I inner docker cid 60
  Keeps-act ContainerAction.stop docker cid s i = At-call _ inner i
  Keeps-act ContainerAction.restart docker cid s i =
      At-then _ _ (At-call _ inner i) λ _. Keeps-wait_for_healthy svc I inner docker cid 60

  Keeps-leave_network :
      (docker : Docker) (cid : String) (net : Option String)
      → Keeps I (leave_network svc docker cid net)
  unfolding detach_container_from_network
  Keeps-leave_network docker cid none s i = At-pure tt i
  Keeps-leave_network docker cid (some net) s i = At-ignore _ (At-call _ inner i)

  pub Keeps-leave_networks :
      (docker : Docker) (id : ℕ) (cid : Option String) → Keeps I (leave_networks svc docker id cid)
  unfolding find_networks_for_database
  Keeps-leave_networks docker id none s i = At-pure tt i
  Keeps-leave_networks docker id (some cid) s i =
      At-gets _ _ (Keeps-for_each _ _ (λ net. Keeps-leave_network docker cid _) s i)

  pub Keeps-remove_container :
      (docker : Docker) (cid net : String) → Keeps I (remove_container svc docker cid net)
  unfolding remove_container
  Keeps-remove_container docker cid net s i =
      At-then _ _ (At-ignore _ (At-call _ inner i))
        λ _ t j. At-then _ _ (At-call _ inner j) λ _ t j. At-call _ inner j

  Keeps-file_exists : (cfg : Config) (path : String) → Keeps I (file_exists svc cfg path)
  unfolding file_exists
  Keeps-file_exists cfg path s i = record { at = inner s _ i }

  pub Keeps-remove_config : (cfg : Config) (id : String) → Keeps I (remove_config svc cfg id)
  unfolding remove_config
  Keeps-remove_config cfg id s i = At-then _ _ (Keeps-file_exists cfg _ s i) λ found t j.
      At-then _ _
        (Keeps-if svc I inner found _ _ (λ t j. At-call _ inner j) (λ t j. At-pure tt j) t j)
        λ _ t j.
          At-then _ _ (At-ignore _ (At-call _ inner j)) λ _ t j. At-ignore _ (At-call _ inner j)
