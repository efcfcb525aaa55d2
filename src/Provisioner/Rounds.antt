-- ===== src/Provisioner/Rounds.antt =====
-- The rounds of the wait for a healthy container are enough: api/src/services/provisioner.rs (lines 369
-- to 404).
use dbsaa_s.Prelude.{
  ℕ, zero, suc, ◌+◌, ◌-◌, ◌*◌, ◌≤◌, ◌<◌, ◌≡◌, refl, arith, Bool-cases, Option, String, inl, inr,
  leb,
}
use dbsaa_s.Errors.{Result, ok, err}
use dbsaa_s.Platform.{State, M, Docker, Services, ContainerState, run, ◌>>=◌}
use dbsaa_s.Provisioner.Host.{Verdict, verdict, poll, instant, sleep, wait_loop, wait_for_healthy}

-- What the waiting relies on: `time` is what the clock shows in a world, no call turns it back, and it
-- moves on by the two seconds of a sleep.
pub record IsClock {W : Type 0} (svc : Services W) (time : W → ℕ) : Type 0 where
  pub shows : (w : W) → (svc.instant w).0 ≡ time w
  pub after_instant : (w : W) → time w ≤ time (svc.instant w).1
  pub after_inspect :
      (docker : Docker) (cid : String) (w : W)
      → time w ≤ time (svc.inspect_container docker cid w).1
  pub after_sleep : (w : W) → time w + 2 ≤ time (svc.sleep 2 w)

module _ {W : Type 0} (svc : Services W) (time : W → ℕ) (clock : IsClock svc time) (docker : Docker)
    (cid : String) (timeout deadline : ℕ) where
  abbrev loop : ℕ → M W (Unit {0})
  loop n = wait_loop svc n docker cid timeout deadline

  -- From time `t` on, `n` rounds do what `m` rounds do.
  abbrev AreEnough : ℕ → ℕ → ℕ → Type 0
  AreEnough t n m = (s : State W) → t ≤ time s.world → loop n s ≡ loop m s

  poll-AreEnough :
      (n m t : ℕ) (v : Verdict) (s : State W)
      → AreEnough (t + 2) n m
      → t ≤ time s.world
      → poll svc docker cid (loop n) v s ≡ poll svc docker cid (loop m) v s
  unfolding run sleep
  poll-AreEnough n m t Verdict.ready s again late = refl
  poll-AreEnough n m t Verdict.sick s again late = refl
  poll-AreEnough n m t Verdict.pending s again late =
      again (record s { world = svc.sleep 2 s.world }) (omega (arith, clock.after_sleep s.world))

  abbrev looked : ℕ → State W → Result (Option ContainerState) × W → Result (Unit {0}) × State W
  looked n s x =
      ((λ _. (x.0, record s { world = x.1 })) >>= λ info.
      poll svc docker cid (loop n) (verdict info))
        s

  looked-AreEnough :
      (n m t : ℕ) (s : State W) (x : Result (Option ContainerState) × W)
      → AreEnough (t + 2) n m
      → t ≤ time x.1
      → looked n s x ≡ looked m s x
  unfolding run
  looked-AreEnough n m t s (ok info, w) again late =
      poll-AreEnough n m t (verdict info) (record s { world = w }) again late
  looked-AreEnough n m t s (err e, w) again late = refl

  -- `r` sleeps reach the deadline, and one more round sees that.
  enough : (r n m t : ℕ) → deadline ≤ t + 2 * r → r < n → r < m → AreEnough t n m
  unfolding wait_loop instant run
  enough r zero m t h a b s late = ground arith
  enough r (suc n) zero t h a b s late = ground arith
  enough r (suc n) (suc m) t h a b s late =
      elim (Bool-cases (leb deadline (svc.instant s.world).0)) [
        | inl over ↦ rw over refl
        | inr time_left ↦
            let soon : time s.world < deadline = ground (arith, clock.shows s.world) in
            rw time_left (
              looked-AreEnough n m t (record s { world = (svc.instant s.world).1 }) _
                (enough (r - 1) n m (t + 2) (omega arith) (omega arith) (omega arith))
                (omega (
                  arith,
                  clock.after_instant s.world,
                  clock.after_inspect docker cid (svc.instant s.world).1,
                )))
      ]

module _ {W : Type 0} (svc : Services W) (time : W → ℕ) (clock : IsClock svc time) where
  -- Where the clock is never turned back and a sleep of two seconds takes two seconds or more, the wait
  -- for a healthy container does in its rounds what it does in any greater number of rounds: it never
  -- stops because the rounds ran out.
  pub wait_for_healthy_enough :
      (docker : Docker) (cid : String) (timeout rounds : ℕ) (s : State W)
      → timeout < rounds
      → wait_for_healthy svc docker cid timeout s
        ≡ (instant svc >>= λ now. wait_loop svc rounds docker cid timeout (now + timeout)) s
  unfolding wait_for_healthy instant run
  wait_for_healthy_enough docker cid timeout rounds s more =
      enough svc time clock docker cid timeout ((svc.instant s.world).0 + timeout) timeout
        (suc timeout) rounds (time s.world) (omega (arith, clock.shows s.world)) (omega arith) more
        (record s { world = (svc.instant s.world).1 }) (clock.after_instant s.world)
