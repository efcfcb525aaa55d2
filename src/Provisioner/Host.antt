-- ===== src/Provisioner/Host.antt =====
-- Scripts on the Docker host, and waiting for a container: api/src/services/provisioner.rs (lines 367 to
-- 404 and 1003 to 1038).
use Prim.Native.String.{◌++◌, slice}
use dbsaa_s.Prelude.{
  ℕ, zero, suc, ◌+◌, Bool, true, false, Option, none, some, [], ◌∷◌, String, leb, if◌then◌else◌,
}
use dbsaa_s.Prelude.Int.{pos}
use dbsaa_s.Errors.{AppError, ok}
use dbsaa_s.Platform.{
  M, Docker, Services, ContainerCreateBody, ContainerState, HealthStatus, pure, throw, call,
  new_uuid, ◌>>=◌, ◌>>◌,
}
use dbsaa_s.Text.{show_i32}

-- The helper container of a script: on the host's network, with the right to change its firewall.
abbrev pub helper_body : String → ContainerCreateBody
helper_body script = record {
  image = "dbsaas-nftables:latest";
  cmd = some ("sh" ∷ "-c" ∷ script ∷ []);
  env = none;
  host_config = record {
    network_mode = some "host";
    userns_mode = some "host";
    auto_remove = some true;
    cap_add = "NET_ADMIN" ∷ "NET_RAW" ∷ [];
    unless_stopped = false;
    nano_cpus = none;
    memory = none;
    memory_swap = none;
    security_opt = [];
    port_bindings = none;
  };
  healthcheck = none;
}

-- What a look at a container tells the loop: healthy, unhealthy, or to look again.
pub data Verdict : Type 0 where
  ready sick pending : Verdict

abbrev of_health : Option HealthStatus → Verdict
of_health (some HealthStatus.healthy) = ready
of_health (some HealthStatus.unhealthy) = sick
of_health _ = pending

abbrev of_running : Option Bool → Verdict
of_running (some true) = ready
of_running _ = pending

abbrev of_checks : Option (Option HealthStatus) → Option Bool → Verdict
of_checks (some status) running = of_health status
of_checks none running = of_running running

unfoldable pub verdict : Option ContainerState → Verdict
verdict none = pending
verdict (some st) = of_checks st.health st.running

module _ {W : Type 0} (svc : Services W) where
  unfoldable pub read_logs : Docker → String → M W String
  read_logs docker cid s =
      let (out, w) = svc.logs docker cid s.world in (ok out, record s { world = w })

  unfoldable pub exec_on_host : Docker → String → M W String
  exec_on_host docker script = do
    id ← new_uuid svc
    cid ← call (
        svc.create_container docker ("sb-nft-" ++ slice (svc.show_uuid id) 0 8)
          (helper_body script))
    call (svc.start_container docker cid)
    read_logs docker cid

  unfoldable pub instant : M W ℕ
  instant s = let (t, w) = svc.instant s.world in (ok t, record s { world = w })

  unfoldable pub sleep : ℕ → M W (Unit {0})
  sleep secs s = (ok tt, record s { world = svc.sleep secs s.world })

  abbrev pub too_late : String → ℕ → AppError
  too_late container_id timeout_secs = AppError.internal (
      "Container "
      ++ container_id
      ++ " did not become healthy within "
      ++ show_i32 (pos timeout_secs)
      ++ "s")

  abbrev pub unhealthy : String → AppError
  unhealthy container_id = AppError.internal ("Container " ++ container_id ++ " is unhealthy")

  -- One round of the loop, given the rounds that follow.
  abbrev pub poll : Docker → String → M W (Unit {0}) → Verdict → M W (Unit {0})
  poll docker container_id again ready = pure tt
  poll docker container_id again sick = throw (unhealthy container_id)
  poll docker container_id again pending = sleep 2 >> again

  -- The loop up to `deadline`; a round sleeps for two seconds. Where the rounds run out the deadline is
  -- reported, which the clock has passed by then.
  unfoldable pub wait_loop : ℕ → Docker → String → ℕ → ℕ → M W (Unit {0})
  wait_loop zero docker container_id timeout_secs deadline =
      throw (too_late container_id timeout_secs)
  wait_loop (suc rounds) docker container_id timeout_secs deadline =
      let again = wait_loop rounds docker container_id timeout_secs deadline in
      do
        now ← instant
        if leb deadline now
            then throw (too_late container_id timeout_secs)
            else call (svc.inspect_container docker container_id) >>= λ info.
                poll docker container_id again (verdict info)

  unfoldable pub wait_for_healthy : Docker → String → ℕ → M W (Unit {0})
  wait_for_healthy docker container_id timeout_secs = do
    now ← instant
    wait_loop (suc timeout_secs) docker container_id timeout_secs (now + timeout_secs)
