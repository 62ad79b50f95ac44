-- ===== src/Prelude/Int.antt =====
-- Signed machine integers. A value is a mathematical integer; a cast to a width is written where
-- the source casts or may overflow. Sums and orders go through the two parts of an integer.
use Prim.Native.Nat.{ℕ, zero, suc, ◌+◌, ◌-◌, ◌*◌, ◌/◌, ◌%◌, ◌^◌, ◌≤◌, ◌<◌}
use mathlib.Core.Path.{◌≡◌}
use mathlib.Core.Bool.{Bool}
use native.Mathlib.Omega.{arith}
use linux_ptp_driver_package.Prelude.Tests.{ltb, leb, ◌==◌, if◌then◌else◌}

-- `negsuc n` is -(n + 1).
pub data ℤ : Type 0 where
  pos : ℕ → ℤ
  negsuc : ℕ → ℤ

abbrev pub pos_part : ℤ → ℕ
pos_part (pos n) = n
pos_part (negsuc n) = 0

abbrev pub neg_part : ℤ → ℕ
neg_part (pos n) = 0
neg_part (negsuc n) = suc n

-- a - b, as an integer.
abbrev pub sub_ℕ : ℕ → ℕ → ℤ
sub_ℕ a b = if leb b a then pos (a - b) else negsuc (b - a - 1)

infixl 65 ◌+ℤ◌ ◌-ℤ◌
infixl 70 ◌*ℤ◌
infix 50 ◌≤ℤ◌
unfoldable pub ◌+ℤ◌ : ℤ → ℤ → ℤ
a +ℤ b = sub_ℕ (pos_part a + pos_part b) (neg_part a + neg_part b)

unfoldable pub ◌-ℤ◌ : ℤ → ℤ → ℤ
a -ℤ b = sub_ℕ (pos_part a + neg_part b) (neg_part a + pos_part b)

unfoldable pub ◌*ℤ◌ : ℤ → ℤ → ℤ
a *ℤ b =
    sub_ℕ (pos_part a * pos_part b + neg_part a * neg_part b)
      (pos_part a * neg_part b + neg_part a * pos_part b)

abbrev pub ◌≤ℤ◌ : ℤ → ℤ → Type 0
a ≤ℤ b = pos_part a + neg_part b ≤ pos_part b + neg_part a

abbrev pub ltb_ℤ : ℤ → ℤ → Bool
ltb_ℤ a b = ltb (pos_part a + neg_part b) (pos_part b + neg_part a)

abbrev pub eqb_ℤ : ℤ → ℤ → Bool
eqb_ℤ a b = (pos_part a + neg_part b) == (pos_part b + neg_part a)

-- The library's `abs`, as a number.
abbrev pub abs : ℤ → ℕ
abs (pos n) = n
abs (negsuc n) = suc n

abbrev pub neg : ℤ → ℤ
neg (pos zero) = pos zero
neg (pos (suc n)) = negsuc n
neg (negsuc n) = pos (suc n)

-- C's division by a positive number truncates towards zero.
unfoldable pub quot : ℤ → ℕ → ℤ
quot (pos n) d = pos (n / d)
quot (negsuc n) d = neg (pos (suc n / d))

-- `x >> k`, arithmetic: it rounds down.
abbrev pub asr : ℤ → ℕ → ℤ
asr (pos n) k = pos (n / 2 ^ k)
asr (negsuc n) k = negsuc (n / 2 ^ k)

-- The low `k` bits of the two's complement pattern, as an unsigned number.
abbrev pub low_bits : ℕ → ℤ → ℕ
low_bits k (pos n) = n % 2 ^ k
low_bits k (negsuc n) = 2 ^ k - 1 - n % 2 ^ k

-- The signed number that a `k`-bit pattern stands for.
abbrev pub signed : ℕ → ℕ → ℤ
signed k w = if ltb w (2 ^ (k - 1)) then pos w else negsuc (2 ^ k - 1 - w)

abbrev pub s32 : ℤ → ℤ
s32 z = signed 32 (low_bits 32 z)

abbrev pub s64 : ℤ → ℤ
s64 z = signed 64 (low_bits 64 z)

-- The kernel's `abs` of an `s32`: that of the lowest number is itself.
abbrev pub abs_s32 : ℤ → ℤ
abs_s32 z = s32 (pos (abs z))

-- The number cut at `limit` in either direction.
abbrev pub clamp : ℕ → ℤ → ℤ
clamp limit (pos n) = pos (if leb n limit then n else limit)
clamp limit (negsuc n) = if leb (suc n) limit then negsuc n else neg (pos limit)

pub +ℤ_parts :
    (a b : ℤ)
    → pos_part (a +ℤ b) + neg_part a + neg_part b ≡ neg_part (a +ℤ b) + pos_part a + pos_part b
unfolding ◌+ℤ◌
+ℤ_parts a b = ground arith

pub -ℤ_parts :
    (a b : ℤ)
    → pos_part (a -ℤ b) + neg_part a + pos_part b ≡ neg_part (a -ℤ b) + pos_part a + neg_part b
unfolding ◌-ℤ◌
-ℤ_parts a b = ground arith

pub eq_of_parts : (a b : ℤ) → pos_part a + neg_part b ≡ pos_part b + neg_part a → a ≡ b
eq_of_parts a b h = ground arith

-- A value that fits 64 bits is unchanged by the cast.
pub s64_of_fits : (z : ℤ) → abs z < 2 ^ 63 → s64 z ≡ z
s64_of_fits (pos n) h = ground arith
s64_of_fits (negsuc n) h = ground arith

pub s32_of_fits : (z : ℤ) → abs z < 2 ^ 31 → s32 z ≡ z
s32_of_fits (pos n) h = ground arith
s32_of_fits (negsuc n) h = ground arith
