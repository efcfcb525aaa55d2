-- ===== src/Databases/Acted.antt =====
-- What is written once Docker has started, stopped or restarted a container:
-- api/src/handlers/databases.rs (lines 765 to 794).
use dbsaa_s.Prelude.{ℕ, Bool, [], ◌∷◌, ◌++◌, String, ◌≡◌, refl, sym, subst, update}
use dbsaa_s.Models.{DatabaseInstance, DbStatus, ContainerAction}
use dbsaa_s.Errors.{Result, ok}
use dbsaa_s.Platform.{State, Services, run, now_utc}
use dbsaa_s.Repository.Databases.{is_database, update_row}
use dbsaa_s.Repository.Databases
use dbsaa_s.Databases.Provisioning.{status_changed}
use dbsaa_s.Databases.Lifecycle.{acted, status_after}
use dbsaa_s.Databases.Outcomes.{AreBilled, IsBilled, IsRecorded, record_usage_event-IsRecorded}
use dbsaa_s.Databases.Lifecycle.{status_after, acted}

-- What Docker did is written: the new status, the event for the bill if there is one, the announcement.
pub record IsActed {W : Type 0} (action : ContainerAction) (inst : DatabaseInstance)
    (s s' : State W) : Type 0 where
  pub time : ℕ
  pub status_written :
      s'.instances
      ≡ update
          (is_database inst.id)
          (λ d. record d { status = status_after action; updated_at = time })
          s.instances
  pub announced :
      s'.sent ≡ s.sent ++ (status_changed inst.user_id inst.id (status_after action) ∷ [])
  pub same_ports : s'.port_pool ≡ s.port_pool

-- A start and a stop leave one event, under the UUID drawn in the world `w`, and a restart none.
abbrev pub IsBilledFor :
    {W : Type 0} → Services W → W → ContainerAction → ℕ → State W → State W → Type 0
IsBilledFor svc w ContainerAction.start id s s' = IsBilled svc w id "start" s s'
IsBilledFor svc w ContainerAction.stop id s s' = IsBilled svc w id "stop" s s'
IsBilledFor svc w ContainerAction.restart id s s' = s'.usage_events ≡ s.usage_events

module _ {W : Type 0} (svc : Services W) where
  -- The status is written first, so that the UUID is drawn after the clock was asked.
  abbrev pub Acted :
      ContainerAction → DatabaseInstance → W → State W → Result (Unit {0}) × State W → Type 0
  Acted action inst w s x =
      (x.0 ≡ ok tt) × IsActed action inst s x.1 × IsBilledFor svc (svc.now w).1 action inst.id s x.1

  abbrev told : DbStatus → DatabaseInstance → State W → Result (Unit {0}) × State W
  told status inst x =
      (ok tt, record x { sent = x.sent ++ (status_changed inst.user_id inst.id status ∷ []) })

  -- The event stands between the new status and the announcement.
  noted :
      (action : ContainerAction) (event_type : String) (inst : DatabaseInstance) (s : State W)
      (w : W) (taken : Bool) (fresh : ℕ)
      → ((x : State W)
          → AreBilled taken fresh inst.id event_type s.usage_events x.usage_events
          → IsBilledFor svc (svc.now w).1 action inst.id s x)
      → {x : State W}
      → IsRecorded taken fresh inst.id event_type
          (Databases.update_status svc inst.id (status_after action) (record s { world = w })).1
          x
      → Acted action inst w s (told (status_after action) inst x)
  unfolding Databases.update_status update_row run now_utc
  noted action event_type inst s w taken fresh bill (events, w', e, added) =
      subst (λ x. Acted action inst w s (told (status_after action) inst x)) (sym e)
        (
          refl,
          record {
            time = (svc.now w).0;
            status_written = refl;
            announced = refl;
            same_ports = refl;
          },
          bill _ added,
        )

  pub acted-Acted :
      (action : ContainerAction) (inst : DatabaseInstance) (s : State W) (w : W)
      → Acted action inst w s (acted svc action inst (record s { world = w }))
  unfolding acted Databases.update_status update_row run now_utc
  acted-Acted ContainerAction.restart inst s w = (
    refl,
    record { time = (svc.now w).0; status_written = refl; announced = refl; same_ports = refl },
    refl,
  )
  acted-Acted ContainerAction.start inst s w =
      noted ContainerAction.start "start" inst s w _ _ (λ x b. b)
        (record_usage_event-IsRecorded svc inst.id "start" inst.user_id inst.name
          inst.plan_template_id _ refl)
  acted-Acted ContainerAction.stop inst s w =
      noted ContainerAction.stop "stop" inst s w _ _ (λ x b. b)
        (record_usage_event-IsRecorded svc inst.id "stop" inst.user_id inst.name
          inst.plan_template_id _ refl)
