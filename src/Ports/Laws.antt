-- ===== src/Ports/Laws.antt =====
-- What the methods of the port pool (api/src/utils/port_pool.rs) do to the set of ports.
use dbsaa_s.Prelude.{
  ℕ, zero, suc, ◌+◌, ◌-◌, ◌<◌, ◌≤◌, ◌≡◌, refl, ◌⊎◌, inl, inr, Bool, true, false, Option, none, some,
  List, [], ◌∷◌, arith, ltb, ◌==◌, ◌&&◌, ◌||◌, if◌then◌else◌, any, delete, Bool-cases, subst,
}
use dbsaa_s.Prelude.Int.{ℤ, pos, negsuc}
use dbsaa_s.Ports.{
  PortPool, contains, insert, load_port, load_allocated, scan, take_port, allocate, release,
  try_u16,
}

-- What a scan of the `n` ports from `port` on has found.
abbrev Found : PortPool → ℕ → ℕ → Option ℕ → Type 0
Found pool n port none = (q : ℕ) → port ≤ q → q < port + n → contains pool q ≡ true
Found pool n port (some p) =
    (port ≤ p)
    × (p < port + n)
    × (contains pool p ≡ false)
    × ((q : ℕ) → port ≤ q → q < p → contains pool q ≡ true)

past_taken :
    (pool : PortPool) (port q : ℕ)
    → contains pool port ≡ true
    → port ≤ q
    → (suc port ≤ q → contains pool q ≡ true)
    → contains pool q ≡ true
past_taken pool port q taken lo rest = elim (split port q lo) [
  | inl e ↦ subst (λ k. contains pool k ≡ true) e taken
  | inr lt ↦ rest lt
]
  where
    split : (a b : ℕ) → a ≤ b → (a ≡ b) ⊎ (suc a ≤ b)
    split a b h = grind arith

past_taken-Found :
    (pool : PortPool) (n port : ℕ) (r : Option ℕ)
    → contains pool port ≡ true
    → Found pool n (suc port) r
    → Found pool (suc n) port r
past_taken-Found pool n port none taken h =
    λ q lo hi. past_taken pool port q taken lo (λ lt. h q lt (omega arith))
past_taken-Found pool n port (some p) taken h =
    (omega arith, omega arith, h.2, λ q lo hi. past_taken pool port q taken lo (λ lt. h.3 q lt hi))

scan-Found : (pool : PortPool) (n port : ℕ) → Found pool n port (scan pool n port)
unfolding scan
scan-Found pool zero port = λ q lo hi. absurd (omega arith)
scan-Found pool (suc n) port = elim (Bool-cases (contains pool port)) [
  | inl taken ↦
      rw taken
        (past_taken-Found pool n port (scan pool n (suc port)) taken (scan-Found pool n (suc port)))
  | inr free ↦ rw free (omega arith, omega arith, free, λ q lo hi. absurd (omega arith))
]

-- The outcome that a caller of `allocate` may rely on.
abbrev pub Allocates : PortPool → Option ℕ × PortPool → Type 0
Allocates pool (none, pool') =
    (pool' ≡ pool) × ((q : ℕ) → pool.start ≤ q → q ≤ pool.end → contains pool q ≡ true)
Allocates pool (some p, pool') =
    (pool.start ≤ p)
    × (p ≤ pool.end)
    × (contains pool p ≡ false)
    × ((q : ℕ) → pool.start ≤ q → q < p → contains pool q ≡ true)
    × ((q : ℕ) → contains pool' q ≡ (if p == q then true else contains pool q))
    × (pool'.start ≡ pool.start)
    × (pool'.end ≡ pool.end)

take_port-Allocates :
    (pool : PortPool) (r : Option ℕ)
    → Found pool (suc pool.end - pool.start) pool.start r
    → Allocates pool (take_port pool r)
take_port-Allocates pool none h = (refl, λ q lo hi. h q lo (omega arith))
take_port-Allocates pool (some p) h =
    (h.0, omega (arith, h.0, h.1), h.2, h.3, λ q. refl, refl, refl)

-- `allocate` hands out the least free port of the range `start..=end` and marks exactly that port
-- as taken; it fails only if every port of the range is taken, and then changes nothing.
pub allocate-Allocates : (pool : PortPool) → Allocates pool (allocate pool)
unfolding allocate
allocate-Allocates pool =
    take_port-Allocates pool _ (scan-Found pool (suc pool.end - pool.start) pool.start)

contains-delete :
    (p q : ℕ) (ports : List ℕ)
    → any (λ r. r == q) (delete (λ r. r == p) ports)
      ≡ (if p == q then false else any (λ r. r == q) ports)
contains-delete p q [] = ground arith
contains-delete p q (r ∷ ports) = ground (arith, contains-delete p q ports)

-- After `release port` that port is free, and every other port is as it was.
pub contains-release :
    (pool : PortPool) (p q : ℕ)
    → contains (release pool p) q ≡ (if p == q then false else contains pool q)
unfolding release
contains-release pool p q = contains-delete p q pool.allocated

-- `release` undoes `allocate`: once the port handed out is given back, the same ports are free as
-- before.
pub release-allocate :
    (pool : PortPool) {p : ℕ} {pool' : PortPool}
    → allocate pool ≡ (some p, pool')
    → (q : ℕ) → contains (release pool' p) q ≡ contains pool q
release-allocate pool {p} {pool'} e q =
    let h : Allocates pool (some p, pool') = subst (Allocates pool) e (allocate-Allocates pool) in
    elim (Bool-cases (p == q)) [
      | inl same ↦ ground (arith, contains-release pool' p q, h.2)
      | inr other ↦ ground (arith, contains-release pool' p q, h.4 q)
    ]

abbrev pub is_port : ℕ → ℤ → Bool
is_port q (pos n) = n == q
is_port q (negsuc _) = false

contains-insert :
    (pool : PortPool) (p q : ℕ)
    → contains (insert pool p) q ≡ (if p == q then true else contains pool q)
contains-insert pool p q = ground arith

contains-load_port :
    (pool : PortPool) (port : ℤ) (q : ℕ)
    → contains (load_port pool (try_u16 port)) q
      ≡ (contains pool q || (ltb q 65536 && is_port q port))
contains-load_port pool (pos n) q = ground (arith, contains-insert pool n q)
contains-load_port pool (negsuc n) q = ground arith

-- Loading a list of `i32` ports adds exactly those that are a `u16`; the others are skipped.
pub contains-load_allocated :
    (pool : PortPool) (ports : List ℤ) (q : ℕ)
    → contains (load_allocated pool ports) q
      ≡ (contains pool q || (ltb q 65536 && any (is_port q) ports))
unfolding load_allocated
contains-load_allocated pool [] q = ground arith
contains-load_allocated pool (port ∷ ports) q = ground (
  arith,
  contains-load_port pool port q,
  contains-load_allocated (load_port pool (try_u16 port)) ports q,
)
