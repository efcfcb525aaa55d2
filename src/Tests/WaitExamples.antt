-- ===== src/Tests/WaitExamples.antt =====
-- An example for the wait for a healthy container, in a world that is its own clock.
use dbsaa_s.Prelude.{◌+◌, ◌≡◌, refl, arith, none}
use dbsaa_s.Platform.{◌>>=◌}
use dbsaa_s.Provisioner.Host.{instant, wait_loop, wait_for_healthy}
use dbsaa_s.Provisioner.Rounds.{IsClock, wait_for_healthy_enough}
use dbsaa_s.Tests.Fixtures.{svc, empty}

svc-IsClock : IsClock svc (λ w. w)
svc-IsClock = record {
  shows = λ w. refl;
  after_instant = λ w. omega arith;
  after_inspect = λ docker cid w. omega arith;
  after_sleep = λ w. omega arith;
}

wait_for_healthy_enough_example :
    wait_for_healthy svc none "c1" 90 empty
    ≡ (instant svc >>= λ now. wait_loop svc 1000 none "c1" 90 (now + 90)) empty
wait_for_healthy_enough_example =
    wait_for_healthy_enough svc (λ w. w) svc-IsClock none "c1" 90 1000 empty (omega arith)
