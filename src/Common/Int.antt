-- ===== src/Common/Int.antt =====
-- The signed integers of the C code, before they are cut to a width.
use Prim.Native.Nat.{ℕ, zero, suc, ◌+◌, ◌-◌, ◌%◌, ◌^◌}
use vpopmail.Common.Tests.{ltb, if◌then◌else◌}

-- `negsuc n` is -(n + 1).
pub data ℤ : Type 0 where
  pos : ℕ → ℤ
  negsuc : ℕ → ℤ

-- -n.
abbrev pub negate : ℕ → ℤ
negate zero = pos 0
negate (suc n) = negsuc n

-- The conversion to a 64-bit unsigned integer.
abbrev pub to_u64 : ℤ → ℕ
to_u64 (pos n) = n % 2 ^ 64
to_u64 (negsuc n) = 2 ^ 64 - 1 - n % 2 ^ 64

-- `x & (2 ^ k - 1)` in two's complement, for a mask of at most 64 bits.
abbrev pub low_bits : ℕ → ℤ → ℕ
low_bits k x = to_u64 x % 2 ^ k

-- `strtoll` and `atol` stop at the ends of their range.
abbrev pub clamp64 : ℤ → ℤ
clamp64 (pos n) = if ltb n (2 ^ 63) then pos n else pos (2 ^ 63 - 1)
clamp64 (negsuc n) = if ltb n (2 ^ 63) then negsuc n else negsuc (2 ^ 63 - 1)

infixl 60 ◌+ℤ◌
abbrev pub ◌+ℤ◌ : ℤ → ℤ → ℤ
pos a +ℤ pos b = pos (a + b)
pos a +ℤ negsuc b = if ltb b a then pos (a - suc b) else negate (suc b - a)
negsuc a +ℤ pos b = if ltb a b then pos (b - suc a) else negate (suc a - b)
negsuc a +ℤ negsuc b = negsuc (suc (a + b))
