-- ===== src/Tests/Sabre.antt =====
-- The theorems of the Sabre PTP driver, at a memory behind the register map.
use linux_ptp_driver_package.Tests.Chips.{memory, memory_bytes}
use linux_ptp_driver_package.Prelude.{
  ◌-◌, ◌*◌, ◌/◌, ◌%◌, ◌^◌, ◌≤◌, ◌<◌, ℕ, zero, suc, ◌≡◌, refl, false, List, [], ◌∷◌, ◌++◌, arith,
  length,
}
use linux_ptp_driver_package.Idt82p33.Frequency.{
  max_scaled_ppm, frequency_control_word, raw_adjfine, phase_register, idt82p33_start_ddco,
  idt82p33_stop_ddco, phase_bytes, idt82p33_adjfine,
}
use linux_ptp_driver_package.Idt82p33.State.{
  read_u8, write_u8, schedule_worker, Idt82p33, tod_byte_count, dco_max_ppb,
}
use linux_ptp_driver_package.Idt82p33.Frequency.Effect.{FrequencyRegister}
use linux_ptp_driver_package.Bus.{After, ok, fail}
use linux_ptp_driver_package.Idt82p33.Setup.{
  registered, Registration, initial, channel_registers, refused, idt82p33_probe, zeroed_channel,
}
use linux_ptp_driver_package.Idt82p33.Setup.Probe.{
  Failed, EndsUnregistered, idt82p33_probe-EndsUnregistered,
}
use linux_ptp_driver_package.Idt82p33.Time.{timespec_to_byte_array, byte_array_to_timespec}
use linux_ptp_driver_package.Prelude.Int.{negsuc, pos, quot, abs, ◌*ℤ◌, signed, neg, ℤ, clamp, ◌+ℤ◌}
use linux_ptp_driver_package.Tests.States.{left_by, still}
use linux_ptp_driver_package.Idt82p33.Firmware.Masks.{HasPlls, idt82p33_load_firmware-HasPlls}
use linux_ptp_driver_package.Idt82p33.Firmware.{idt82p33_load_firmware, found, Fwrc}
use linux_ptp_driver_package.Clockmatrix.Frequency.Bounds.{le_value}
use linux_ptp_driver_package.Idt82p33.Time.RoundTrip.{byte_array_to_timespec-timespec_to_byte_array}
use linux_ptp_driver_package.Clockmatrix.Time.{le_bytes, Timespec}
use linux_ptp_driver_package.Idt82p33.Frequency.Bounds.{
  frequency_control_word_fits, phase_register_lem,
}
use linux_ptp_driver_package.Idt82p33.Adjtime.{idt82p33_adjtime}
use linux_ptp_driver_package.Bus.Errno.{ebusy}
use linux_ptp_driver_package.Idt82p33.Ddco.{ddco_lem}
use linux_ptp_driver_package.Idt82p33.Mode.{dpll_set_mode}
use linux_ptp_driver_package.Clockmatrix.Time.RoundTrip.{FitsRegister}

-- The last nanosecond of a second.
abbrev late : Timespec
late = record { tv_sec = pos 1700000000; tv_nsec = pos 999999999 }

late-FitsRegister : FitsRegister late 1700000000 999999999
late-FitsRegister = record {
  is_sec = refl;
  is_nsec = refl;
  sec_small = omega arith;
  nsec_small = omega arith;
}

byte_array_to_timespec-timespec_to_byte_array_example :
    (length (timespec_to_byte_array late) ≡ tod_byte_count)
    × (byte_array_to_timespec (timespec_to_byte_array late) ≡ late)
byte_array_to_timespec-timespec_to_byte_array_example =
    byte_array_to_timespec-timespec_to_byte_array late late-FitsRegister

frequency_control_word_fits_example :
    (frequency_control_word (negsuc 65535) ≡ quot (negsuc 65535 *ℤ pos 762939453125) 8430756)
    × (abs (frequency_control_word (negsuc 65535)) < 2 ^ 39)
    × (signed 40 (le_value (le_bytes 5 (frequency_control_word (negsuc 65535))))
        ≡ frequency_control_word (negsuc 65535))
frequency_control_word_fits_example = frequency_control_word_fits (negsuc 65535) (omega arith)

phase_register_example :
    let v = phase_register (negsuc 20000) in
    (abs v < 2 ^ 28)
    × (2 ^ 31 ≤ le_value (phase_bytes v))
    × (signed 29 (le_value (phase_bytes v) - 2 ^ 31) ≡ v)
    × ((abs (negsuc 20000) ≤ 20000) → v ≡ quot (neg (negsuc 20000) *ℤ pos 1000000000) 74506)
    × ((n : ℕ) → negsuc 20000 ≡ pos n → 20000 < n → v ≡ negsuc 268435454)
    × ((n : ℕ) → negsuc 20000 ≡ negsuc n → 20000 ≤ n → v ≡ pos 268435455)
phase_register_example = phase_register_lem (negsuc 20000) (omega arith)

-- A chip in DCO mode whose first channel is set up and runs 1 ppm fast.
abbrev ready : Idt82p33 (ℕ → ℕ)
ready = record (initial (λ a. 10)) {
  channel = λ i. record (channel_registers i zeroed_channel) { current_freq = pos 65536 };
}

abbrev started : Idt82p33 (ℕ → ℕ)
started = left_by (idt82p33_start_ddco memory 0 (pos 1000000) ready)

abbrev ended : Idt82p33 (ℕ → ℕ)
ended = left_by (idt82p33_stop_ddco memory 0 started)

abbrev frequency_register : FrequencyRegister memory 0 ready
frequency_register = memory_bytes 0x12C 5

ddco_example :
    (rounds : ℕ) × let ppb = quot (pos 1000000) (2 ^ rounds) in
      (abs ppb ≤ dco_max_ppb)
      × ((k : ℕ) → k < rounds → dco_max_ppb < abs (pos 1000000) / 2 ^ k)
      × (frequency_register.bytes started.dev
          ≡ le_bytes 5 (
              frequency_control_word
                (clamp max_scaled_ppm (pos 65536 +ℤ quot (ppb *ℤ pos (2 ^ 13)) 125))))
      × (started.requests ≡ [] ++ (schedule_worker 0 (1000 * 2 ^ rounds % 2 ^ 32) ∷ []))
      × ((scaled_ppm : ℤ) → idt82p33_adjfine memory 0 scaled_ppm started ≡ ok tt started)
      × ((threshold : ℕ) (shift : ℤ)
          → idt82p33_adjtime memory still 0 threshold shift started ≡ fail ebusy started)
      × (frequency_register.bytes ended.dev ≡ le_bytes 5 (frequency_control_word (pos 65536)))
      × ((ended.channel 0).ddco ≡ false)
      × (ended.requests ≡ started.requests)
unfolding idt82p33_start_ddco idt82p33_stop_ddco raw_adjfine dpll_set_mode read_u8 write_u8
ddco_example =
    ddco_lem memory still 0 (pos 1000000) ready frequency_register {t = started} {w = ended}
      (omega arith) (omega arith) (omega arith) refl refl

abbrev image : List Fwrc
image =
    record { hiaddr = 0xFF; loaddr = 0xA5; value = 3; reserved = 0 }
    ∷ record { hiaddr = 1; loaddr = 0x20; value = 0x0A; reserved = 0 }
    ∷ []

idt82p33_load_firmware-HasPlls_example :
    After HasPlls (idt82p33_load_firmware memory (found image) (initial (λ a. 0)))
idt82p33_load_firmware-HasPlls_example =
    idt82p33_load_firmware-HasPlls memory (found image) (initial (λ a. 0))
      (omega arith, (omega arith, tt)) (omega arith, omega arith)

-- The kernel registers a clock for the first channel only.
abbrev one_clock : ℕ → Registration
one_clock zero = registered
one_clock (suc i) = refused (negsuc 11)

idt82p33_probe-EndsUnregistered_example :
    Failed EndsUnregistered
      (idt82p33_probe memory still (λ i. 0) one_clock (found image) (initial (λ a. 0)))
idt82p33_probe-EndsUnregistered_example =
    idt82p33_probe-EndsUnregistered memory still (λ i. 0) one_clock (found image) (initial (λ a. 0))
