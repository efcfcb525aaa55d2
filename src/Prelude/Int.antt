-- ===== src/Prelude/Int.antt =====
-- Signed integers over the native numbers, and the 32-bit wrap-around.
use Prim.Native.Nat.{ℕ, suc, ◌+◌, ◌-◌, ◌≤◌, ◌%◌, ◌^◌}
use mathlib.Core.Bool.{Bool, false}
use mathlib.Core.Path.{◌≡◌}
use native.Mathlib.Omega.{arith}
use dbsaa_s.Prelude.Tests.{ltb, leb, if◌then◌else◌}

-- `negsuc n` is -(n + 1).
pub data ℤ : Type 0 where
  pos : ℕ → ℤ
  negsuc : ℕ → ℤ

abbrev pub pos_part : ℤ → ℕ
pos_part (pos n) = n
pos_part (negsuc _) = 0

abbrev pub neg_part : ℤ → ℕ
neg_part (pos _) = 0
neg_part (negsuc n) = suc n

abbrev pub sub_ℕ : ℕ → ℕ → ℤ
sub_ℕ a b = if leb b a then pos (a - b) else negsuc (b - a - 1)

infix 50 ◌≤ℤ◌
abbrev pub ◌≤ℤ◌ : ℤ → ℤ → Type 0
a ≤ℤ b = pos_part a + neg_part b ≤ pos_part b + neg_part a

abbrev pub leb_ℤ : ℤ → ℤ → Bool
leb_ℤ a b = leb (pos_part a + neg_part b) (pos_part b + neg_part a)

-- `a + b` on `i32` in a release build: the sum modulo 2 ^ 32, read back as a signed number.
unfoldable pub add_i32 : ℤ → ℤ → ℤ
add_i32 a b =
    let bits = (pos_part a + pos_part b + 2 ^ 33 - (neg_part a + neg_part b)) % 2 ^ 32 in
    if ltb bits (2 ^ 31) then pos bits else sub_ℕ bits (2 ^ 32)

pub suc-le : (m : ℤ) (n : ℕ) → leb_ℤ m (pos n) ≡ false → suc n ≤ pos_part m
suc-le (pos k) n h = ground arith
suc-le (negsuc k) n h = absurd (ground arith)
