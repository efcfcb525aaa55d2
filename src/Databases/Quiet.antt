-- ===== src/Databases/Quiet.antt =====
-- The parts of the endpoints on databases that only talk to the world outside leave the tables alone.
use dbsaa_s.Prelude.{
  ℕ, zero, suc, Bool, true, false, Option, none, some, List, [], ◌∷◌, String, leb, if◌then◌else◌,
  ap, refl,
}
use dbsaa_s.Models.{DbType, F64}
use dbsaa_s.Prelude.Int.{ℤ}
use dbsaa_s.Errors.{AppError, Result, ok, err}
use dbsaa_s.Platform.{State, M, Docker, Services, throw, ◌>>=◌}
use dbsaa_s.Platform.Rules.{At, Keeps, IsInner, At-pure, At-call, At-attempt, At-bind}
use dbsaa_s.Platform.Returns.{IsSameTables}
use dbsaa_s.Provisioner.Host.{Verdict, verdict, poll, instant, sleep, wait_loop, wait_for_healthy}
use dbsaa_s.Provisioner.Containers.{
  drain, pull, pull_if_missing, ensure_image, proxy_id, ensure_proxy_network,
  connect_to_proxy_network, create_database_sni,
}
use dbsaa_s.Networks.DockerCalls.{Keeps-create_network_with_opts}

-- A world that changed beneath the same tables.
pub IsSameTables-IsInner : {W : Type 0} (s : State W) → IsInner (IsSameTables s)
IsSameTables-IsInner s t w (v, e) =
    (w, ap {A = State _} {B = State _} (λ x. record x { world = w }) e)

pub IsSameTables-refl : {W : Type 0} (s : State W) → IsSameTables s s
IsSameTables-refl s = (s.world, refl)

module _ {W : Type 0} {I : State W → Type 0} {s : State W} where
  -- A step, then the rest, where both keep `I`.
  pub At-then :
      {A B : Type 0} (m : M W A) (k : A → M W B)
      → At I s m
      → ((a : A) → Keeps I (k a))
      → At I s (m >>= k)
  At-then m k h rest = At-bind m k h (λ t j. j) (λ a t j. rest a t j)

module _ {W : Type 0} (svc : Services W) (I : State W → Type 0) (inner : IsInner I) where
  Keeps-drain :
      (full : String) (results : List (Result (Unit {0}))) → Keeps I (drain svc full results)
  unfolding drain throw
  Keeps-drain full [] s i = At-pure tt i
  Keeps-drain full (ok _ ∷ results) s i = Keeps-drain full results s i
  Keeps-drain full (err e ∷ results) s i = record { at = i }

  Keeps-pull : (docker : Docker) (image tag : String) → Keeps I (pull svc docker image tag)
  unfolding pull
  Keeps-pull docker image tag s i = record { at = inner s _ i }

  Keeps-pull_if_missing :
      (docker : Docker) (image tag : String) (r : Result (Unit {0}))
      → Keeps I (pull_if_missing svc docker image tag r)
  Keeps-pull_if_missing docker image tag (ok _) s i = At-pure tt i
  Keeps-pull_if_missing docker image tag (err _) s i =
      At-then _ _ (Keeps-pull docker image tag s i) λ results. Keeps-drain _ results

  Keeps-ensure_image :
      (docker : Docker) (image tag : String) → Keeps I (ensure_image svc docker image tag)
  unfolding ensure_image
  Keeps-ensure_image docker image tag s i =
      At-then _ _ (At-attempt _ (At-call _ inner i))
        λ present. Keeps-pull_if_missing docker image tag present

  Keeps-proxy_id :
      (docker : Docker) (r : Result (Option String × Option (List (Option String × Option String))))
      → Keeps I (proxy_id svc docker r)
  Keeps-proxy_id docker (ok (some id, _)) s i = At-pure id i
  Keeps-proxy_id docker (ok (none, _)) s i = At-call _ inner i
  Keeps-proxy_id docker (err _) s i = At-call _ inner i

  Keeps-ensure_proxy_network : (docker : Docker) → Keeps I (ensure_proxy_network svc docker)
  unfolding ensure_proxy_network
  Keeps-ensure_proxy_network docker s i =
      At-then _ _ (At-attempt _ (At-call _ inner i)) (Keeps-proxy_id docker)

  Keeps-connect_to_proxy :
      (docker : Docker) (cid net : String) → Keeps I (connect_to_proxy_network svc docker cid net)
  unfolding connect_to_proxy_network
  Keeps-connect_to_proxy docker cid net s i = At-call _ inner i

  pub Keeps-if :
      {A : Type 0} (c : Bool) (m k : M W A) → Keeps I m → Keeps I k → Keeps I (if c then m else k)
  Keeps-if true m k h j = h
  Keeps-if false m k h j = j

  Keeps-join :
      (docker : Docker) (cid : String)
      → Keeps I (
          ensure_proxy_network svc docker >>= λ _.
          connect_to_proxy_network svc docker cid "sb-proxy")
  Keeps-join docker cid s i =
      At-then _ _ (Keeps-ensure_proxy_network docker s i)
        λ _. Keeps-connect_to_proxy docker cid "sb-proxy"

  pub Keeps-create_database_sni :
      (docker : Docker) (id : ℕ) (db_type : DbType) (username password db_name : String) (cpu : F64)
      (memory : ℤ) (is_remote : Bool) (port : Option ℕ) (host_ip : Option String)
      → Keeps I (
          create_database_sni svc docker id db_type username password db_name cpu memory is_remote
            port host_ip)
  unfolding create_database_sni
  Keeps-create_database_sni docker id db_type username password db_name cpu memory is_remote port
        host_ip s i =
      At-then _ _ (Keeps-ensure_image docker _ _ s i) λ _ t j.
        At-then _ _ (Keeps-create_network_with_opts svc I inner docker _ _ t j) λ net t j.
          At-then _ _ (At-call _ inner j) λ cid t j. At-then _ _ (At-call _ inner j) λ _ t j.
            At-then _ _ (Keeps-if is_remote _ _ (λ t j. At-pure tt j) (Keeps-join docker cid) t j)
              λ _ t j. At-pure _ j

  Keeps-instant : Keeps I (instant svc)
  unfolding instant
  Keeps-instant s i = record { at = inner s _ i }

  Keeps-sleep : (secs : ℕ) → Keeps I (sleep svc secs)
  unfolding sleep
  Keeps-sleep secs s i = record { at = inner s _ i }

  Keeps-throw : {A : Type 0} (e : AppError) → Keeps I (throw {A = A} e)
  unfolding throw
  Keeps-throw e s i = record { at = i }

  Keeps-poll :
      (docker : Docker) (cid : String) (again : M W (Unit {0})) (v : Verdict)
      → Keeps I again
      → Keeps I (poll svc docker cid again v)
  Keeps-poll docker cid again Verdict.ready h s i = At-pure tt i
  Keeps-poll docker cid again Verdict.sick h s i = Keeps-throw _ s i
  Keeps-poll docker cid again Verdict.pending h s i = At-then _ _ (Keeps-sleep 2 s i) λ _. h

  Keeps-wait_loop :
      (rounds : ℕ) (docker : Docker) (cid : String) (secs deadline : ℕ)
      → Keeps I (wait_loop svc rounds docker cid secs deadline)
  unfolding wait_loop
  Keeps-wait_loop zero docker cid secs deadline s i = Keeps-throw _ s i
  Keeps-wait_loop (suc rounds) docker cid secs deadline s i =
      At-then _ _ (Keeps-instant s i) λ now t j.
        Keeps-if (leb deadline now) _ _ (Keeps-throw _)
          (λ t j. At-then _ _ (At-call _ inner j) λ info.
            Keeps-poll docker cid _ (verdict info)
              (Keeps-wait_loop rounds docker cid secs deadline))
          t j

  pub Keeps-wait_for_healthy :
      (docker : Docker) (cid : String) (secs : ℕ) → Keeps I (wait_for_healthy svc docker cid secs)
  unfolding wait_for_healthy
  Keeps-wait_for_healthy docker cid secs s i =
      At-then _ _ (Keeps-instant s i) λ now. Keeps-wait_loop _ docker cid secs _
