-- ===== src/Net/Blocks.antt =====
-- The blocks of IPv4 addresses that are not on the public internet: api/src/services/alert.rs (lines 45 to 62).
use dbsaa_s.Prelude.{
  ℕ, ◌+◌, ◌*◌, ◌/◌, ◌<◌, ◌≡◌, refl, Bool, true, false, List, [], ◌∷◌, leb, ◌==◌, any, ◌&&◌, ◌||◌,
  arith, if◌then◌else◌,
}
use dbsaa_s.Net.{IpAddr, high_bits, is_internal_ip}

-- The 32-bit number of an address.
abbrev pub number : ℕ → ℕ → ℕ → ℕ → ℕ
number a b c d = ((a * 256 + b) * 256 + c) * 256 + d

-- A block in the notation of CIDR: its first address, and the number of its addresses, a power of two that
-- divides the first.
abbrev pub in_block : ℕ → ℕ × ℕ → Bool
in_block n (base, size) = n / size == base / size

-- 127.0.0.0/8, 10.0.0.0/8, 172.16.0.0/12, 192.168.0.0/16, 169.254.0.0/16, 255.255.255.255/32, 0.0.0.0/32 and
-- 100.64.0.0/10
abbrev pub internal_blocks : List (ℕ × ℕ)
internal_blocks =
    (number 127 0 0 0, 16777216)
    ∷ (number 10 0 0 0, 16777216)
    ∷ (number 172 16 0 0, 1048576)
    ∷ (number 192 168 0 0, 65536)
    ∷ (number 169 254 0 0, 65536)
    ∷ (number 255 255 255 255, 1)
    ∷ (number 0 0 0 0, 1)
    ∷ (number 100 64 0 0, 4194304)
    ∷ []

module _ (a b c d : ℕ) (ha : a < 256) (hb : b < 256) (hc : c < 256) (hd : d < 256) where
  first-octet : (x : ℕ) → (number a b c d / 16777216 == x) ≡ (a == x)
  first-octet x = ground arith

  two-octets : (x y : ℕ) → y < 256 → (number a b c d / 65536 == x * 256 + y) ≡ (a == x && b == y)
  two-octets x y hy = ground arith

  private-block : (number a b c d / 1048576 == 2753) ≡ (a == 172 && (leb 16 b && leb b 31))
  private-block = ground arith

  last-address :
      (number a b c d / 1 == 4294967295) ≡ (a == 255 && (b == 255 && (c == 255 && d == 255)))
  last-address = ground arith

  first-address : (number a b c d / 1 == 0) ≡ (a == 0 && (b == 0 && (c == 0 && d == 0)))
  first-address = ground arith

  shared-block : (number a b c d / 4194304 == 401) ≡ (a == 100 && high_bits b == 64)
  shared-block = ground arith

regroup :
    (l p1 p2 p3 k br un cg : Bool)
    → (l || ((p1 || (p2 || p3)) || (k || (br || (un || (k || cg)))))) ≡ (
        if l
        then true
        else if p1
        then true
        else if p2
        then true
        else if p3
        then true
        else if k
        then true
        else if br
        then true
        else if un
        then true
        else if cg
        then true
        else false)
regroup true p1 p2 p3 k br un cg = refl
regroup false true p2 p3 k br un cg = refl
regroup false false true p3 k br un cg = refl
regroup false false false true k br un cg = refl
regroup false false false false true br un cg = refl
regroup false false false false false true un cg = refl
regroup false false false false false false true cg = refl
regroup false false false false false false false true = refl
regroup false false false false false false false false = refl

-- An IPv4 address is refused as an internal one exactly if its 32-bit number lies in one of the eight blocks.
pub is_internal_ip-blocks :
    (a b c d : ℕ)
    → a < 256
    → b < 256
    → c < 256
    → d < 256
    → is_internal_ip (IpAddr.v4 a b c d) ≡ any (in_block (number a b c d)) internal_blocks
unfolding is_internal_ip
is_internal_ip-blocks a b c d ha hb hc hd =
    rw
      (
        first-octet a b c d ha hb hc hd 127,
        first-octet a b c d ha hb hc hd 10,
        private-block a b c d ha hb hc hd,
        two-octets a b c d ha hb hc hd 192 168 (omega arith),
        two-octets a b c d ha hb hc hd 169 254 (omega arith),
        last-address a b c d ha hb hc hd,
        first-address a b c d ha hb hc hd,
        shared-block a b c d ha hb hc hd,
      )
      (regroup (a == 127) (a == 10) (a == 172 && (leb 16 b && leb b 31)) (a == 192 && b == 168)
        (a == 169 && b == 254) (a == 255 && (b == 255 && (c == 255 && d == 255)))
        (a == 0 && (b == 0 && (c == 0 && d == 0))) (a == 100 && high_bits b == 64))
