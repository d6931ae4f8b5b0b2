-- ===== src/Base/Int.antt =====
-- Go's int64 and time.Duration: integers over the native numbers, under the library's names, with
-- the wrap-around of 64 bits written out where the source multiplies.
use Prim.Native.Nat.{ℕ, suc, ◌+◌, ◌-◌, ◌*◌, ◌/◌, ◌%◌, ◌^◌, ◌≤◌, ◌<◌}
use mathlib.Core.Path.{◌≡◌}
use mathlib.Core.Bool.{Bool}
use native.Mathlib.Omega.{arith}
use aegis_core.Base.Checks.{ltb, leb, if◌then◌else◌}

-- `negsuc n` is -(n + 1).
pub data ℤ : Type 0 where
  pos : ℕ → ℤ
  negsuc : ℕ → ℤ

abbrev pub pos_part : ℤ → ℕ
pos_part (pos n) = n
pos_part (negsuc n) = 0

abbrev pub neg_part : ℤ → ℕ
neg_part (pos n) = 0
neg_part (negsuc n) = suc n

infix 50 ◌≤ℤ◌ ◌<ℤ◌
abbrev pub ◌≤ℤ◌ : ℤ → ℤ → Type 0
a ≤ℤ b = pos_part a + neg_part b ≤ pos_part b + neg_part a

abbrev pub ◌<ℤ◌ : ℤ → ℤ → Type 0
a <ℤ b = pos_part a + neg_part b < pos_part b + neg_part a

abbrev pub ltb_ℤ : ℤ → ℤ → Bool
ltb_ℤ a b = ltb (pos_part a + neg_part b) (pos_part b + neg_part a)

abbrev pub leb_ℤ : ℤ → ℤ → Bool
leb_ℤ a b = leb (pos_part a + neg_part b) (pos_part b + neg_part a)

-- the int64 whose 64-bit pattern is `n % 2 ^ 64`
abbrev from_bits : ℕ → ℤ
from_bits n = let r = n % 2 ^ 64 in if ltb r (2 ^ 63) then pos r else negsuc (2 ^ 64 - 1 - r)

-- d * 2 in int64
unfoldable pub double64 : ℤ → ℤ
double64 (pos n) = from_bits (n * 2)
double64 (negsuc n) = from_bits (2 ^ 64 - 1 - (n * 2 + 1) % 2 ^ 64)

-- d / 2, truncated towards zero
unfoldable pub half : ℤ → ℤ
half (pos n) = pos (n / 2)
half (negsuc n) = if ltb n 1 then pos 0 else negsuc ((n + 1) / 2 - 1)

-- where the product fits, doubling is exact
pub double64-pos : (n : ℕ) → n * 2 < 2 ^ 63 → double64 (pos n) ≡ pos (n * 2)
unfolding double64
double64-pos n h = ground arith
