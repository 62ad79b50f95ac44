-- ===== src/Prelude/Bits.antt =====
-- Laws of `&` and `|` that the register code needs: bytes are checked by a table, a field
-- shifted above a smaller one is a sum at every width.
use Prim.Native.Nat.{
  ℕ, zero, suc, ◌+◌, ◌*◌, ◌/◌, ◌%◌, ◌-◌, ◌^◌, ◌<◌, ◌≤◌, min, max, digits, bit_and, bit_or,
  bit_and-bitwise, bit_or-bitwise,
}
use mathlib.Core.Path.{◌≡◌, refl, ap}
use mathlib.Core.Bool.{Bool, true, false}
use native.Mathlib.Nat.{
  le_refl, pow-suc, one-le-pow, div-add-mod, mod-lt, mul-add-mod_self_left, mod-eq_of_lt,
  div-div-eq-div-mul,
}
use native.Mathlib.Omega.{arith}
use linux_ptp_driver_package.Prelude.Tests.{if◌then◌else◌}

-- A table: whether the test `p` succeeds at 0, 1, and so on below `n`.
unfoldable pub checked : ℕ → (ℕ → Bool) → Bool
checked zero p = true
checked (suc n) p = if p n then checked n p else false

-- What the table says of one of its entries.
pub checked-entry : (p : ℕ → Bool) (n : ℕ) → checked n p ≡ true → (i : ℕ) → i < n → p i ≡ true
unfolding checked
checked-entry p (suc n) table i below = grind (arith, checked-entry p n)
checked-entry p zero table i below = absurd (omega (arith, below))

-- Fuel above the left number does not change what `digits` computes.
digits_enough :
    (z : ℕ → ℕ) (f : ℕ → ℕ → ℕ) (n m a b : ℕ) → a ≤ n → a ≤ m → digits z f n a b ≡ digits z f m a b
digits_enough z f zero zero a b p q = refl
digits_enough z f zero (suc m) zero b p q = refl
digits_enough z f zero (suc m) (suc a) b p q = absurd (omega arith)
digits_enough z f (suc n) zero zero b p q = refl
digits_enough z f (suc n) zero (suc a) b p q = absurd (omega arith)
digits_enough z f (suc n) (suc m) zero b p q = refl
digits_enough z f (suc n) (suc m) (suc a) b p q =
    rw (digits_enough z f n m (suc a / 2) (b / 2) (omega arith) (omega arith))

-- One step of `|` and of `&`: the lowest digit, and the rest.
or_digit : (a b : ℕ) → bit_or a b ≡ bit_or (a / 2) (b / 2) * 2 + max (a % 2) (b % 2)
or_digit zero b = simp bit_or-bitwise (omega arith)
or_digit (suc a) b = simp bit_or-bitwise (
    omega (
      arith,
      digits_enough (λ y. y) max a (suc a / 2) (suc a / 2) (b / 2) (omega arith) (le_refl _),
    ))

and_digit : (a b : ℕ) → bit_and a b ≡ bit_and (a / 2) (b / 2) * 2 + min (a % 2) (b % 2)
and_digit zero b = simp bit_and-bitwise (omega arith)
and_digit (suc a) b = simp bit_and-bitwise (
    omega (
      arith,
      digits_enough (λ y. 0) min a (suc a / 2) (suc a / 2) (b / 2) (omega arith) (le_refl _),
    ))

or_nothing : (n a : ℕ) → a ≤ n → bit_or a 0 ≡ a
or_nothing zero a h = ground (arith, or_digit a 0)
or_nothing (suc n) zero h = refl
or_nothing (suc n) (suc a) h =
    omega (arith, or_digit (suc a) 0, or_nothing n (suc a / 2) (omega arith))

and_nothing : (n a : ℕ) → a ≤ n → bit_and a 0 ≡ 0
and_nothing zero a h = ground (arith, and_digit a 0)
and_nothing (suc n) zero h = refl
and_nothing (suc n) (suc a) h =
    omega (arith, and_digit (suc a) 0, and_nothing n (suc a / 2) (omega arith))

pub times_pow : (q k : ℕ) → q * 2 ^ suc k ≡ q * 2 ^ k * 2
times_pow q k = omega (arith, ap (λ (t : ℕ). q * t) (pow-suc 2 k))

-- `(q << k) | r` adds where `r` has no more than `k` bits.
pub or_field : (k q r : ℕ) → r < 2 ^ k → bit_or (q * 2 ^ k) r ≡ q * 2 ^ k + r
or_field zero q r h = ground (arith, or_nothing q q (le_refl _))
or_field (suc k) q r h = ground (
  arith,
  times_pow q k,
  pow-suc 2 k,
  or_digit (q * 2 ^ suc k) r,
  or_field k q (r / 2) (omega (arith, pow-suc 2 k)),
)

mod_double : (a m : ℕ) → 0 < m → a / 2 % m * 2 + a % 2 ≡ a % (m * 2)
mod_double a m h = grind (
  arith,
  div-add-mod (a / 2) m,
  mod-lt (a / 2) h,
  mul-add-mod_self_left (m * 2) (a / 2 / m) (a / 2 % m * 2 + a % 2),
  mod-eq_of_lt,
)

-- `a & (2 ^ k - 1)` is the remainder.
pub and_mask : (k a : ℕ) → bit_and a (2 ^ k - 1) ≡ a % 2 ^ k
and_mask zero a = ground (arith, and_nothing a a (le_refl _))
and_mask (suc k) a = ground (
  arith,
  pow-suc 2 k,
  one-le-pow k 2,
  and_digit a (2 ^ suc k - 1),
  and_mask k (a / 2),
  mod_double a (2 ^ k),
)

-- A mask of high bits only: what is below it is cleared.
pub and_high : (k a m : ℕ) → bit_and a (m * 2 ^ k) ≡ bit_and (a / 2 ^ k) m * 2 ^ k
and_high zero a m = ground arith
and_high (suc k) a m = ground (
  arith,
  pow-suc 2 k,
  times_pow m k,
  times_pow (bit_and (a / 2 ^ suc k) m) k,
  and_digit a (m * 2 ^ suc k),
  and_high k (a / 2) m,
  div-div-eq-div-mul a 2 (2 ^ k),
)
