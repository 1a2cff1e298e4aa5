-- ===== src/Base/Int.antt =====
-- C's `int` as a mathematical integer over the native numbers, with the conversions of the source.
use Prim.Native.Nat.{ℕ, suc, ◌+◌, ◌-◌, ◌%◌, ◌≤◌}
use mathlib.Core.Bool.{Bool}
use sc_control.Base.Tests.{ltb, leb, if◌then◌else◌}

-- `negsuc n` is -(n + 1).
pub data ℤ : Type 0 where
  pos : ℕ → ℤ
  negsuc : ℕ → ℤ

abbrev pub pos_part : ℤ → ℕ
pos_part (pos n) = n
pos_part (negsuc n) = 0

abbrev pub neg_part : ℤ → ℕ
neg_part (pos n) = 0
neg_part (negsuc n) = suc n

infix 50 ◌≤ℤ◌
abbrev pub ◌≤ℤ◌ : ℤ → ℤ → Type 0
a ≤ℤ b = pos_part a + neg_part b ≤ pos_part b + neg_part a

abbrev pub ltb_ℤ : ℤ → ℤ → Bool
ltb_ℤ a b = ltb (pos_part a + neg_part b) (pos_part b + neg_part a)

abbrev pub leb_ℤ : ℤ → ℤ → Bool
leb_ℤ a b = leb (pos_part a + neg_part b) (pos_part b + neg_part a)

-- The `int` that a 32-bit pattern stands for.
abbrev pub signed32 : ℕ → ℤ
signed32 w = if ltb w 2147483648 then pos w else negsuc (4294967295 - w)

-- The `u32` that an `int` converts to.
abbrev pub unsigned32 : ℤ → ℕ
unsigned32 (pos n) = n % 4294967296
unsigned32 (negsuc n) = 4294967295 - n % 4294967296

-- The `u8` that an `int` converts to.
abbrev pub byte_of : ℤ → ℕ
byte_of v = unsigned32 v % 256

-- |a - b|, which the source writes abs(a - b).
abbrev pub distance : ℤ → ℤ → ℕ
distance a b =
    let p = pos_part a + neg_part b in let q = pos_part b + neg_part a in (p - q) + (q - p)
