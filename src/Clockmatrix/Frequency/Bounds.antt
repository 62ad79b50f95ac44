-- ===== src/Clockmatrix/Frequency/Bounds.antt =====
-- The numbers that are written for a frequency and for a phase: exact in the range that the kernel
-- admits, cut outside it, and decoded by the chip to what was meant.
use linux_ptp_driver_package.Prelude.Int.{ℤ, pos, quot, ◌*ℤ◌, low_bits, signed, abs, negsuc}
use linux_ptp_driver_package.Prelude.{◌+◌, ◌*◌, ◌^◌, ◌≤◌, ◌<◌, ℕ, ◌≡◌, List, [], ◌∷◌, arith}
use linux_ptp_driver_package.Clockmatrix.Time.{le_bytes}
use linux_ptp_driver_package.Clockmatrix.Frequency.{frequency_control_word, phase_50ps}

-- The number that little-endian bytes stand for.
abbrev pub le_value : List ℕ → ℕ
le_value [] = 0
le_value (b ∷ bs) = b + 256 * le_value bs

pub le_value-four : (z : ℤ) → le_value (le_bytes 4 z) ≡ low_bits 32 z
unfolding le_bytes
le_value-four (pos n) = omega arith
le_value-four (negsuc n) = omega arith

le_value-six : (z : ℤ) → le_value (le_bytes 6 z) ≡ low_bits 48 z
unfolding le_bytes
le_value-six (pos n) = omega arith
le_value-six (negsuc n) = omega arith

signed_fits_48 : (z : ℤ) → abs z < 2 ^ 47 → signed 48 (low_bits 48 z) ≡ z
signed_fits_48 (pos n) h = ground arith
signed_fits_48 (negsuc n) h = ground arith

-- 244000 ppb, the largest frequency that the kernel passes on, in its own unit, rounded up.
abbrev pub max_scaled_ppm : ℕ
max_scaled_ppm = 15990850

-- For every frequency that the kernel passes on, the control word is scaled_ppm * 5 ^ 12 / (111 *
-- 2 ^ 4) rounded towards zero, with no overflow on the way; it fits the signed 42 bits of the
-- register, and its six bytes, read as a signed number, are it.
pub frequency_control_word_lem :
    (scaled_ppm : ℤ)
    → abs scaled_ppm ≤ max_scaled_ppm
    → (frequency_control_word scaled_ppm ≡ quot (scaled_ppm *ℤ pos 244140625) 1776)
      × (abs (frequency_control_word scaled_ppm) < 2 ^ 41)
      × (signed 48 (le_value (le_bytes 6 (frequency_control_word scaled_ppm)))
          ≡ frequency_control_word scaled_ppm)
unfolding frequency_control_word ◌*ℤ◌ quot
frequency_control_word_lem (pos n) h = ground (arith, le_value-six (frequency_control_word (pos n)))
frequency_control_word_lem (negsuc n) h =
    ground (arith, le_value-six (frequency_control_word (negsuc n)))

-- The phase that is written never leaves the 32-bit register: it is 20 steps of 50 ps for each
-- nanosecond as long as that fits, and the end of the register on that side where it does not; its
-- four bytes, read as a signed number, are it.
pub phase_50ps_lem :
    (delta_ns : ℤ)
    → ((abs delta_ns ≤ 107374182) → phase_50ps delta_ns ≡ delta_ns *ℤ pos 20)
      × ((n : ℕ) → delta_ns ≡ pos n → 107374182 < n → phase_50ps delta_ns ≡ pos 2147483647)
      × ((n : ℕ) → delta_ns ≡ negsuc n → 107374182 ≤ n → phase_50ps delta_ns ≡ negsuc 2147483646)
      × (signed 32 (le_value (le_bytes 4 (phase_50ps delta_ns))) ≡ phase_50ps delta_ns)
unfolding phase_50ps ◌*ℤ◌ quot
phase_50ps_lem (pos n) = ground (arith, le_value-four (phase_50ps (pos n)))
phase_50ps_lem (negsuc n) = ground (arith, le_value-four (phase_50ps (negsuc n)))
