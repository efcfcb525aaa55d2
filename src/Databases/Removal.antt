-- ===== src/Databases/Removal.antt =====
-- What is left of a deleted database: api/src/handlers/databases.rs (lines 1323 to 1341).
use dbsaa_s.Prelude.{
  ◌%◌, Option, none, some, String, ◌≡◌, refl, sym, subst, delete, any, ◌++◌, [], ◌∷◌, ◌==◌,
}
use dbsaa_s.Models.{DatabaseInstance}
use dbsaa_s.Errors.{Result, ok}
use dbsaa_s.Config.{Config}
use dbsaa_s.Ports.{release}
use dbsaa_s.Platform.{State, M, Docker, Services, ignore, send, run, ◌>>=◌, ◌>>◌}
use dbsaa_s.Platform.Rules.{At}
use dbsaa_s.Platform.Returns.{IsSameTables}
use dbsaa_s.Traefik.{remove_config}
use dbsaa_s.Repository.Databases.{is_database, alerts_on, is_history_of}
use dbsaa_s.Repository.Databases
use dbsaa_s.Provisioner.Containers.{remove_container}
use dbsaa_s.Databases.Resources.{release_port}
use dbsaa_s.Databases.Lifecycle.{clean_up, deleted, remove_if}
use dbsaa_s.Databases.Quiet.{IsSameTables-IsInner, IsSameTables-refl}
use dbsaa_s.Databases.Tasks.{Keeps-remove_container, Keeps-remove_config}

after_ignore :
    {W A B : Type 0} (m : M W A) (k : Unit {0} → M W B) (s : State W)
    (P : Result B × State W → Type 0)
    → At (IsSameTables s) s m
    → ((w : W) → P (k tt (record s { world = w })))
    → P ((ignore m >>= k) s)
unfolding ignore ◌>>=◌
after_ignore m k s P h good = let (w, e) = h.at in subst (λ x. P (k tt x)) (sym e) (good w)

module _ {W : Type 0} (svc : Services W) (cfg : Config) (inst : DatabaseInstance) (docker : Docker)
    (s : State W) where
  -- `s'` is `s` without the row and what refers to it, with its port free, and with the event sent.
  abbrev pub IsRemoved : Result (Unit {0}) × State W → Type 0
  IsRemoved x =
      (w : W) × (x ≡ (
        ok tt,
        record s {
          instances = delete (is_database inst.id) s.instances;
          members = delete (λ m. m.database_id == inst.id) s.members;
          database_users = delete (λ u. u.database_id == inst.id) s.database_users;
          backups = delete (λ b. b.database_id == inst.id) s.backups;
          schedules = delete (λ p. p.database_id == inst.id) s.schedules;
          favorites = delete (λ f. f.1 == inst.id) s.favorites;
          alert_rules = delete (alerts_on inst.id) s.alert_rules;
          alert_history = delete (λ h. any (is_history_of h inst.id) s.alert_rules) s.alert_history;
          port_pool = release s.port_pool (inst.port % 65536);
          sent = s.sent ++ (deleted inst ∷ []);
          world = w;
        },
      ))

  abbrev written : M W (Unit {0})
  written =
      ignore (remove_config svc cfg (svc.show_uuid inst.id))
      >> (ignore (Databases.delete_row inst.id)
          >> (release_port (inst.port % 65536) >> send (deleted inst)))

  written-IsRemoved : (w : W) → IsRemoved (written (record s { world = w }))
  unfolding Databases.delete_row release_port run
  written-IsRemoved w =
      let s₁ : State W = record s { world = w } in
      after_ignore (remove_config svc cfg (svc.show_uuid inst.id))
        (λ _.
          ignore (Databases.delete_row inst.id)
          >> (release_port (inst.port % 65536) >> send (deleted inst)))
        s₁ IsRemoved
        (Keeps-remove_config svc (IsSameTables s₁) (IsSameTables-IsInner s₁) cfg
          (svc.show_uuid inst.id) s₁ (IsSameTables-refl s₁))
        λ w. (w, refl)

  -- The task that removes a database always ends with its row gone, and with it its network
  -- memberships, users, backups, schedule, favorites and alerts; with its port free and the event sent;
  -- and with nothing else changed in the tables, whatever Docker and the file system answered.
  pub clean_up-IsRemoved : IsRemoved (clean_up svc cfg inst docker s)
  unfolding clean_up run
  clean_up-IsRemoved = go inst.container_id inst.network_id
    where
      go : (cid net : Option String) → IsRemoved ((remove_if svc docker cid net >> written) s)
      go none net = written-IsRemoved s.world
      go (some cid) none = written-IsRemoved s.world
      go (some cid) (some net) =
          after_ignore (remove_container svc docker cid net) (λ _. written) s IsRemoved
            (Keeps-remove_container svc (IsSameTables s) (IsSameTables-IsInner s) docker cid net s
              (IsSameTables-refl s))
            written-IsRemoved
