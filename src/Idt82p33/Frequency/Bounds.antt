-- ===== src/Idt82p33/Frequency/Bounds.antt =====
-- The numbers that are written for a frequency and for a phase: exact in their range, cut outside
-- it, and decoded by the chip to what was meant.
use linux_ptp_driver_package.Prelude.{
  ℕ, ◌+◌, ◌-◌, ◌%◌, ◌^◌, ◌≤◌, ◌<◌, bit_and, bit_or, ◌≡◌, refl, true, arith, ◌==◌,
}
use linux_ptp_driver_package.Clockmatrix.Time.{le_bytes}
use linux_ptp_driver_package.Idt82p33.Frequency.{
  frequency_control_word, ddco_scaled_ppm, phase_bytes, phase_register, max_scaled_ppm,
}
use linux_ptp_driver_package.Prelude.Bits.{checked, checked-entry}
use linux_ptp_driver_package.Prelude.Int.{
  ℤ, ◌*ℤ◌, quot, ◌+ℤ◌, low_bits, abs, pos, signed, negsuc, asr, neg, clamp,
}
use linux_ptp_driver_package.Clockmatrix.Frequency.Bounds.{le_value}
use linux_ptp_driver_package.Idt82p33.State.{dco_max_ppb}

le_value-five : (z : ℤ) → le_value (le_bytes 5 z) ≡ low_bits 40 z
unfolding le_bytes
le_value-five (pos n) = omega arith
le_value-five (negsuc n) = omega arith

-- For every frequency of at most 92000 ppb in either direction, the control word is scaled_ppm *
-- 5 ^ 17 divided by 8430756, rounded towards zero, with no overflow on the way; it fits the signed 40
-- bits of the register, and its five bytes, read as a signed number, are it.
pub frequency_control_word_fits :
    (scaled_ppm : ℤ)
    → abs scaled_ppm ≤ max_scaled_ppm
    → (frequency_control_word scaled_ppm ≡ quot (scaled_ppm *ℤ pos 762939453125) 8430756)
      × (abs (frequency_control_word scaled_ppm) < 2 ^ 39)
      × (signed 40 (le_value (le_bytes 5 (frequency_control_word scaled_ppm)))
          ≡ frequency_control_word scaled_ppm)
unfolding frequency_control_word ◌*ℤ◌ quot
frequency_control_word_fits (pos n) h =
    ground (arith, le_value-five (frequency_control_word (pos n)))
frequency_control_word_fits (negsuc n) h =
    ground (arith, le_value-five (frequency_control_word (negsuc n)))

-- The frequency of a double DCO correction is the sum of the present one and the correction, cut at
-- 92000 ppb in either direction, which the control word holds.
pub ddco_scaled_ppm_lem :
    (current_ppm ppb : ℤ)
    → abs current_ppm ≤ 2 ^ 31
    → abs ppb ≤ dco_max_ppb
    → ddco_scaled_ppm current_ppm ppb
      ≡ clamp max_scaled_ppm (current_ppm +ℤ quot (ppb *ℤ pos (2 ^ 13)) 125)
unfolding ddco_scaled_ppm ◌*ℤ◌ ◌+ℤ◌ quot
ddco_scaled_ppm_lem current_ppm ppb h k = ground arith

high_table : checked 256 (λ b. bit_or (bit_and b 0x1F) 0x80 == 0x80 + b % 32) ≡ true
unfolding checked
high_table = refl

high_byte : (b : ℕ) → b < 256 → bit_or (bit_and b 0x1F) 0x80 ≡ 0x80 + b % 32
high_byte b h = ground (arith, checked-entry _ 256 high_table b h)

phase_bytes_value : (z : ℤ) → le_value (phase_bytes z) ≡ 2 ^ 31 + low_bits 29 z
unfolding phase_bytes
phase_bytes_value (pos n) = omega (arith, high_byte (low_bits 8 (asr (pos n) 24)))
phase_bytes_value (negsuc n) = omega (arith, high_byte (low_bits 8 (asr (negsuc n) 24)))

-- For every 32-bit phase offset but the lowest, the number that is written fits the signed 29 bits of the register:
-- its four bytes have the enable bit set, and without it they are that number. Up to 20000 ns in
-- either direction it is the negated offset in steps of 74.506 fs, rounded towards zero; beyond that
-- it is the last number of the other side.
pub phase_register_lem :
    (offset_ns : ℤ)
    → abs offset_ns < 2 ^ 31
    → let v = phase_register offset_ns in
      (abs v < 2 ^ 28)
      × (2 ^ 31 ≤ le_value (phase_bytes v))
      × (signed 29 (le_value (phase_bytes v) - 2 ^ 31) ≡ v)
      × ((abs offset_ns ≤ 20000) → v ≡ quot (neg offset_ns *ℤ pos 1000000000) 74506)
      × ((n : ℕ) → offset_ns ≡ pos n → 20000 < n → v ≡ negsuc 268435454)
      × ((n : ℕ) → offset_ns ≡ negsuc n → 20000 ≤ n → v ≡ pos 268435455)
unfolding phase_register ◌*ℤ◌ quot
phase_register_lem offset_ns h = ground (arith, phase_bytes_value (phase_register offset_ns))
