-- ===== src/Base/Int32.antt =====
-- Signed 32-bit counts (`int32` of Go), as integers that wrap at the ends of their range.
use Prim.Native.Nat.{ℕ, suc, ◌+◌, ◌-◌, ◌/◌, ◌%◌, ◌<◌}
use mathlib.Core.Path.{◌≡◌, refl}
use mathlib.Core.Bool.{Bool}
use native.Mathlib.Omega.{arith}
use elasticell_operator.Base.Tests.{ltb, leb, nat_eq, if◌then◌else◌}

-- `negsuc n` is -(n + 1).
pub data ℤ : Type 0 where
  pos : ℕ → ℤ
  negsuc : ℕ → ℤ

abbrev pub pos_part : ℤ → ℕ
pos_part (pos n) = n
pos_part (negsuc n) = 0

abbrev pub neg_part : ℤ → ℕ
neg_part (pos n) = 0
neg_part (negsuc n) = suc n

abbrev pub sub_ℕ : ℕ → ℕ → ℤ
sub_ℕ a b = if leb b a then pos (a - b) else negsuc (b - a - 1)

abbrev pub ltb_ℤ : ℤ → ℤ → Bool
ltb_ℤ a b = ltb (pos_part a + neg_part b) (pos_part b + neg_part a)

abbrev pub leb_ℤ : ℤ → ℤ → Bool
leb_ℤ a b = leb (pos_part a + neg_part b) (pos_part b + neg_part a)

abbrev pub eqb_ℤ : ℤ → ℤ → Bool
eqb_ℤ a b = nat_eq (pos_part a + neg_part b) (pos_part b + neg_part a)

abbrev pub min_int32 : ℕ
min_int32 = 2147483648

-- The value of the low 32 bits of an integer, read with a sign.
abbrev pub signed : ℕ → ℤ
signed bits = if ltb bits min_int32 then pos bits else negsuc (4294967296 - bits - 1)

abbrev pub wrap : ℤ → ℤ
wrap (pos n) = signed (n % 4294967296)
wrap (negsuc n) = signed (4294967295 - n % 4294967296)

-- `a + int32(n)` and `a - 1` of the source.
abbrev pub add32 : ℤ → ℕ → ℤ
add32 a n = wrap (sub_ℕ (pos_part a + n) (neg_part a))

abbrev pub pred32 : ℤ → ℤ
pred32 a = wrap (sub_ℕ (pos_part a) (neg_part a + 1))

-- `int32(n)`.
abbrev pub to_int32 : ℕ → ℤ
to_int32 n = signed (n % 4294967296)

-- `a / 2`, which Go rounds towards zero.
abbrev pub half : ℤ → ℤ
half (pos n) = pos (n / 2)
half (negsuc n) = sub_ℕ 0 (suc n / 2)

-- An `int` of 64 bits, where none of the program's counts wraps.
abbrev pub suc_ℤ : ℤ → ℤ
suc_ℤ (pos n) = pos (suc n)
suc_ℤ (negsuc n) = sub_ℕ 0 n

pub add32_pos : (a n : ℕ) → a + n < min_int32 → add32 (pos a) n ≡ pos (a + n)
add32_pos a n h = ground arith

pub pred32-suc : (a : ℕ) → suc a < min_int32 → pred32 (pos (suc a)) ≡ pos a
pred32-suc a h = ground arith

pub add32_wraps : add32 (pos 2147483647) 1 ≡ negsuc 2147483647
add32_wraps = refl
