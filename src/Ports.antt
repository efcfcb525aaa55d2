-- ===== src/Ports.antt =====
-- The pool of host ports: api/src/utils/port_pool.rs.
-- The `HashSet<u16>` is a duplicate-free list; the lock makes each method one step.
pub mod Laws
use dbsaa_s.Prelude.{
  ℕ, zero, suc, ◌+◌, ◌-◌, ◌<◌, ◌≤◌, Bool, true, false, not, Option, none, some, List, [], ◌∷◌, ltb,
  leb, ◌==◌, if◌then◌else◌, any, delete, ◌&&◌,
}
use dbsaa_s.Prelude.Int.{ℤ, pos, negsuc}

pub record PortPool : Type 0 where
  pub start : ℕ  -- u16
  pub end : ℕ  -- u16
  pub allocated : List ℕ

-- `allocated.contains(&port)`
abbrev pub contains : PortPool → ℕ → Bool
contains pool port = any (λ q. q == port) pool.allocated

-- `allocated.insert(port)`
abbrev pub insert : PortPool → ℕ → PortPool
insert pool port =
    if contains pool port then pool else record pool { allocated = port ∷ pool.allocated }

unfoldable pub new : ℕ → ℕ → PortPool
new start end = record { start = start; end = end; allocated = [] }

-- `u16::try_from(port)` on an `i32`
abbrev pub try_u16 : ℤ → Option ℕ
try_u16 (pos n) = if ltb n 65536 then some n else none
try_u16 (negsuc n) = none

abbrev pub load_port : PortPool → Option ℕ → PortPool
load_port pool none = pool
load_port pool (some p) = insert pool p

unfoldable pub load_allocated : PortPool → List ℤ → PortPool
load_allocated pool [] = pool
load_allocated pool (port ∷ ports) = load_allocated (load_port pool (try_u16 port)) ports

-- The loop of `allocate` from `port` on, with `n` ports left to try.
unfoldable pub scan : PortPool → ℕ → ℕ → Option ℕ
scan pool zero port = none
scan pool (suc n) port =
    let rest = scan pool n (suc port) in if contains pool port then rest else some port

abbrev pub take_port : PortPool → Option ℕ → Option ℕ × PortPool
take_port pool none = (none, pool)
take_port pool (some p) = (some p, record pool { allocated = p ∷ pool.allocated })

-- `none` is the error "No available ports".
unfoldable pub allocate : PortPool → Option ℕ × PortPool
unfolding scan
allocate pool = take_port pool (scan pool (suc pool.end - pool.start) pool.start)

unfoldable pub release : PortPool → ℕ → PortPool
release pool port = record pool { allocated = delete (λ q. q == port) pool.allocated }
