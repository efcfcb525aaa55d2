-- ===== src/Databases/Outcomes.antt =====
-- What the tasks and the endpoints on databases leave behind on each of their ways out:
-- api/src/handlers/databases.rs (lines 227 to 331).
use dbsaa_s.Prelude.{
  ℕ, Bool, true, false, not, Option, some, [], ◌∷◌, ◌++◌, String, ◌⊎◌, ◌≡◌, refl, sym, ◌∙◌, ap,
  List, subst, str_eq, ◌||◌, ◌==◌, any, update,
}
use dbsaa_s.Models.{UsageEvent, DbStatus}
use dbsaa_s.Errors.{AppError, Result, ok, err}
use dbsaa_s.Config.{Config}
use dbsaa_s.Ports.{release}
use dbsaa_s.Platform.{
  State, M, Services, CertPair, pure, run, new_uuid, now_utc, throw_if, modify, ◌>>=◌, ◌>>◌,
}
use dbsaa_s.Platform.Rules.{At}
use dbsaa_s.Platform.Returns.{IsSameTables}
use dbsaa_s.Repository.Databases.{is_database}
use dbsaa_s.Repository.Databases
use dbsaa_s.Repository.Billing.{record_usage_event, check_violation}
use dbsaa_s.Repository.Networks.{duplicate_key}
use dbsaa_s.Provisioner.Containers.{ProvisionResult}
use dbsaa_s.Databases.Provisioning.{Provisioning, provision_container, status_changed}

-- Whether the UUID `fresh` is the key of an event, which stops an insert.
abbrev pub is_taken : {W : Type 0} → ℕ → State W → Bool
is_taken fresh s = any (λ e. e.id == fresh) s.usage_events

-- The events after an insert under the key `fresh`: one more, unless the key was taken.
abbrev pub AreBilled : Bool → ℕ → ℕ → String → List UsageEvent → List UsageEvent → Type 0
AreBilled true fresh id event_type events events' = events' ≡ events
AreBilled false fresh id event_type events events' =
    (e : UsageEvent) × (events' ≡ events ++ (e ∷ []))
    × (e.id ≡ fresh)
    × (e.database_id ≡ id)
    × (e.event_type ≡ event_type)

-- One event more, under the UUID that is drawn in the world `w`, unless that UUID was taken.
abbrev pub IsBilled : {W : Type 0} → Services W → W → ℕ → String → State W → State W → Type 0
IsBilled svc w id event_type s s' =
    AreBilled (is_taken (svc.uuid w).0 s) (svc.uuid w).0 id event_type s.usage_events
      s'.usage_events

-- `s'` is `s` with these events and another world.
abbrev pub IsRecorded : {W : Type 0} → Bool → ℕ → ℕ → String → State W → State W → Type 0
IsRecorded {W} taken fresh id event_type s s' =
    (events : List UsageEvent) × (w : W) × (s' ≡ record s { world = w; usage_events = events })
    × AreBilled taken fresh id event_type s.usage_events events

abbrev insert_event : {W : Type 0} → Bool → Bool → UsageEvent → M W UsageEvent
insert_event known taken row =
    throw_if (not known) check_violation
    >> (throw_if taken duplicate_key
        >> (modify (λ s. record s { usage_events = s.usage_events ++ (row ∷ []) }) >> pure row))

insert_event-IsRecorded :
    {W : Type 0} (known taken : Bool) (row : UsageEvent) (s : State W) (w : W)
    → known ≡ true
    → IsRecorded taken row.id row.database_id row.event_type s
        (insert_event known taken row (record s { world = w })).1
unfolding run
insert_event-IsRecorded true true row s w h = (s.usage_events, w, refl, refl)
insert_event-IsRecorded true false row s w h =
    (s.usage_events ++ (row ∷ []), w, refl, (row, refl, refl, refl, refl))
insert_event-IsRecorded false taken row s w h = cc

module _ {W : Type 0} (svc : Services W) where
  pub record_usage_event-IsRecorded :
      (id : ℕ) (event_type : String) (user_id : ℕ) (name : String) (plan : Option ℕ) (s : State W)
      → (str_eq event_type "start" || str_eq event_type "stop") ≡ true
      → IsRecorded
          (is_taken (svc.uuid s.world).0 s)
          (svc.uuid s.world).0
          id
          event_type
          s
          (record_usage_event svc id event_type user_id name plan s).1
  unfolding record_usage_event run new_uuid now_utc
  record_usage_event-IsRecorded id event_type user_id name plan s known =
      insert_event-IsRecorded _ (is_taken (svc.uuid s.world).0 s)
        (record {
          id = (svc.uuid s.world).0;
          database_id = id;
          event_type = event_type;
          recorded_at = (svc.now (svc.uuid s.world).1).0;
          user_id = some user_id;
          database_name = some name;
          plan_template_id = plan;
        })
        s (svc.now (svc.uuid s.world).1).1 known

-- A step that keeps the tables, and what holds after it whether it fails or returns.
pub after_quiet :
    {W A B : Type 0} (m : M W A) (k : A → M W B) (s : State W) (P : Result B × State W → Type 0)
    → At (IsSameTables s) s m
    → ((e : AppError) (w : W) → P (err e, record s { world = w }))
    → ((a : A) → P (k a (record s { world = (m s).1.world })))
    → P ((m >>= k) s)
unfolding ◌>>=◌
after_quiet {W} {A} {B} m k s P h bad good = go (m s).0 (m s).1 h.at good
  where
    go :
        (r : Result A) (s₁ : State W)
        → IsSameTables s s₁
        → ((a : A) → P (k a (record s { world = s₁.world })))
        → P (elim r as (λ _. Result B × State W) [ ok a ↦ k a s₁ | err e ↦ (err e, s₁) ])
    go (ok a) s₁ (w, e) good =
        let same : record s { world = s₁.world } ≡ s₁ =
          ap {A = W} {B = State W} (λ v. record s { world = v }) (ap (λ x. x.world) e) ∙ sym e in
        subst (λ x. P (k a x)) same (good a)
    go (err d) s₁ (w, e) good = subst (λ x. P (err d, x)) (sym e) (bad d w)

-- The row is running with its container, the start is billed under the UUID drawn in the world `w` and
-- announced, and no port has moved.
pub record IsProvisioned {W : Type 0} (svc : Services W) (w : W) (t : Provisioning) (s s' : State W)
    : Type 0 where
  pub result : ProvisionResult
  pub cert : CertPair
  pub time : ℕ
  pub row_running :
      s'.instances
      ≡ update
          (is_database t.db_id)
          (λ d. record d {
            container_id = some result.container_id;
            network_id = some result.network_id;
            tls_cert = some cert.cert_pem;
            status = DbStatus.running;
            updated_at = time;
          })
          s.instances
  pub billed : IsBilled svc w t.db_id "start" s s'
  pub announced : s'.sent ≡ s.sent ++ (status_changed t.user_id t.db_id DbStatus.running ∷ [])
  pub same_ports : s'.port_pool ≡ s.port_pool

-- The row is in error, which is announced, the port is free again, and nothing is billed.
pub record IsFailed {W : Type 0} (t : Provisioning) (s s' : State W) : Type 0 where
  pub time : ℕ
  pub row_in_error :
      s'.instances
      ≡ update
          (is_database t.db_id)
          (λ d. record d { status = DbStatus.error; updated_at = time })
          s.instances
  pub not_billed : s'.usage_events ≡ s.usage_events
  pub announced : s'.sent ≡ s.sent ++ (status_changed t.user_id t.db_id DbStatus.error ∷ [])
  pub port_free : s'.port_pool ≡ release s.port_pool t.port

module _ {W : Type 0} (svc : Services W) (cfg : Config) (t : Provisioning) (s : State W) where
  -- The world after the container and the clock were asked, in which the event's UUID is drawn.
  abbrev pub drawn_in : W
  drawn_in = (svc.now (provision_container svc cfg t s).1.world).1

  abbrev pub Settled : Result (Unit {0}) × State W → Type 0
  Settled x = (x.0 ≡ ok tt) × (IsProvisioned svc drawn_in t s x.1 ⊎ IsFailed t s x.1)

  abbrev announced : State W → Result (Unit {0}) × State W
  announced x = (
    ok tt,
    record x { sent = x.sent ++ (status_changed t.user_id t.db_id DbStatus.running ∷ []) },
  )
