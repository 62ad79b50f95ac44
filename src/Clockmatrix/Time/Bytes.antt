-- ===== src/Clockmatrix/Time/Bytes.antt =====
-- The little-endian bytes of a number are bytes, as many as were asked for.
use linux_ptp_driver_package.Prelude.{ℕ, ◌<◌, zero, suc, ◌≡◌, refl, ap, arith, length}
use linux_ptp_driver_package.Clockmatrix.Time.{le_bytes}
use linux_ptp_driver_package.Prelude.Int.{ℤ, low_bits, asr, pos, negsuc}
use linux_ptp_driver_package.Bus.Regmap.{AreBytes}

pub le_bytes-AreBytes : (n : ℕ) (z : ℤ) → AreBytes (le_bytes n z)
unfolding le_bytes
le_bytes-AreBytes zero z = tt
le_bytes-AreBytes (suc n) z = (low_byte z, le_bytes-AreBytes n (asr z 8))
  where
    low_byte : (z : ℤ) → low_bits 8 z < 256
    low_byte (pos n) = omega arith
    low_byte (negsuc n) = omega arith

pub length-le_bytes : (n : ℕ) (z : ℤ) → length (le_bytes n z) ≡ n
unfolding le_bytes
length-le_bytes zero z = refl
length-le_bytes (suc n) z = ap suc (length-le_bytes n (asr z 8))
