-- ===== src/Tests/Clock.antt =====
-- The theorems of setting the clock, at a memory behind the register map.
use linux_ptp_driver_package.Tests.Chips.{memory, memory_block}
use linux_ptp_driver_package.Tests.States.{blank, left_by}
use linux_ptp_driver_package.Prelude.{
  ◌*◌, ◌/◌, ◌%◌, ◌^◌, ◌≤◌, ◌<◌, ℕ, ◌≡◌, refl, true, false, [], ◌∷◌, ◌++◌, arith,
}
use linux_ptp_driver_package.Clockmatrix.Frequency.{
  frequency_control_word, raw_adjfine, phase_50ps, idtcm_adjfine,
}
use linux_ptp_driver_package.Prelude.Int.{abs, negsuc, pos, quot, ◌*ℤ◌, signed, ◌+ℤ◌, clamp}
use linux_ptp_driver_package.Clockmatrix.PullIn.{
  halve, do_phase_pull_in_sw, idtcm_stop_phase_pull_in, limit_ffo, phase_pull_in_scaled_ppm,
  msec_per_sec, max_pull_in_scaled_ppm,
}
use linux_ptp_driver_package.Clockmatrix.State.{
  Idtcm, idtcm_write, schedule_worker, write_frequency,
}
use linux_ptp_driver_package.Clockmatrix.Time.{le_bytes}
use linux_ptp_driver_package.Clockmatrix.PullIn.Halving.{halve_lem, phase_pull_in_scaled_ppm_lem}
use linux_ptp_driver_package.Clockmatrix.Pll.Keeps.{in_mode}
use linux_ptp_driver_package.Clockmatrix.PullIn.Lifecycle.{
  idtcm_stop_phase_pull_in_lem, do_phase_pull_in_sw_lem,
}
use linux_ptp_driver_package.Clockmatrix.Frequency.Bounds.{
  le_value, frequency_control_word_lem, phase_50ps_lem,
}
use linux_ptp_driver_package.Clockmatrix.Frequency.Effect.{
  raw_adjfine_lem, idtcm_adjfine_lem, Adjusted,
}
use linux_ptp_driver_package.Bus.{ok}

frequency_control_word_example :
    (frequency_control_word (negsuc 65535) ≡ quot (negsuc 65535 *ℤ pos 244140625) 1776)
    × (abs (frequency_control_word (negsuc 65535)) < 2 ^ 41)
    × (signed 48 (le_value (le_bytes 6 (frequency_control_word (negsuc 65535))))
        ≡ frequency_control_word (negsuc 65535))
frequency_control_word_example = frequency_control_word_lem (negsuc 65535) (omega arith)

phase_50ps_example :
    ((abs (negsuc 200000000) ≤ 107374182)
      → phase_50ps (negsuc 200000000) ≡ negsuc 200000000 *ℤ pos 20)
    × ((n : ℕ)
        → negsuc 200000000 ≡ pos n
        → 107374182 < n
        → phase_50ps (negsuc 200000000) ≡ pos 2147483647)
    × ((n : ℕ)
        → negsuc 200000000 ≡ negsuc n
        → 107374182 ≤ n
        → phase_50ps (negsuc 200000000) ≡ negsuc 2147483646)
    × (signed 32 (le_value (le_bytes 4 (phase_50ps (negsuc 200000000))))
        ≡ phase_50ps (negsuc 200000000))
phase_50ps_example = phase_50ps_lem (negsuc 200000000)

halve_example :
    let pull = halve 32 (limit_ffo 100000) msec_per_sec (negsuc 999999) in
    (rounds : ℕ) × (abs pull.1 ≤ limit_ffo 100000)
    × (pull.1 ≡ quot (negsuc 999999) (2 ^ rounds))
    × (pull.0 ≡ 1000 * 2 ^ rounds % 2 ^ 32)
    × ((k : ℕ) → k < rounds → limit_ffo 100000 < abs (negsuc 999999) / 2 ^ k)
halve_example = halve_lem 100000 (negsuc 999999) (omega arith)

phase_pull_in_scaled_ppm_example :
    phase_pull_in_scaled_ppm (pos 65536) (pos 144000)
    ≡ clamp max_pull_in_scaled_ppm (pos 65536 +ℤ quot (pos 144000 *ℤ pos (2 ^ 13)) 125)
phase_pull_in_scaled_ppm_example =
    phase_pull_in_scaled_ppm_lem (pos 65536) (pos 144000) (omega arith) (omega arith)

abbrev tuned : Idtcm (ℕ → ℕ)
tuned = left_by (raw_adjfine memory 0 (negsuc 65535) blank)

raw_adjfine_example :
    ((memory_block 0x2010c838).bytes tuned.dev ≡ le_bytes 6 (frequency_control_word (negsuc 65535)))
    × (tuned ≡ record (in_mode memory 0 write_frequency blank) { dev = tuned.dev })
unfolding raw_adjfine idtcm_write
raw_adjfine_example = raw_adjfine_lem memory 0 (negsuc 65535) blank (memory_block 0x2010c838) refl

abbrev pulling : Idtcm (ℕ → ℕ)
pulling = left_by (do_phase_pull_in_sw memory 0 (pos 1000000) 100000 blank)

do_phase_pull_in_sw_example :
    (rounds : ℕ) × let ppb = quot (pos 1000000) (2 ^ rounds) in
      (abs ppb ≤ limit_ffo 100000)
      × ((k : ℕ) → k < rounds → limit_ffo 100000 < abs (pos 1000000) / 2 ^ k)
      × ((memory_block 0x2010c838).bytes pulling.dev
          ≡ le_bytes 6 (
              frequency_control_word
                (clamp max_pull_in_scaled_ppm (pos 0 +ℤ quot (ppb *ℤ pos (2 ^ 13)) 125))))
      × ((pulling.channel 0).phase_pull_in ≡ true)
      × ((pulling.channel 0).current_freq_scaled_ppm ≡ pos 0)
      × (pulling.requests ≡ [] ++ (schedule_worker 0 (1000 * 2 ^ rounds % 2 ^ 32) ∷ []))
unfolding do_phase_pull_in_sw raw_adjfine idtcm_write
do_phase_pull_in_sw_example =
    do_phase_pull_in_sw_lem memory 0 (pos 1000000) 100000 blank (memory_block 0x2010c838)
      (omega arith) (omega arith) (omega arith) refl

abbrev stopped : Idtcm (ℕ → ℕ)
stopped = left_by (idtcm_stop_phase_pull_in memory 0 blank)

idtcm_stop_phase_pull_in_example :
    ((memory_block 0x2010c838).bytes stopped.dev ≡ le_bytes 6 (frequency_control_word (pos 0)))
    × ((stopped.channel 0).phase_pull_in ≡ false)
    × ((stopped.channel 0).current_freq_scaled_ppm ≡ pos 0)
    × (stopped.requests ≡ [])
unfolding idtcm_stop_phase_pull_in raw_adjfine idtcm_write
idtcm_stop_phase_pull_in_example =
    idtcm_stop_phase_pull_in_lem memory 0 blank (memory_block 0x2010c838) refl

-- While the pull-in above runs, and before it.
idtcm_adjfine_example :
    (idtcm_adjfine memory 0 (negsuc 65535) pulling ≡ ok tt pulling)
    × Adjusted memory 0
        (negsuc 65535)
        blank
        (memory_block 0x2010c838)
        false
        (idtcm_adjfine memory 0 (negsuc 65535) blank)
unfolding do_phase_pull_in_sw raw_adjfine idtcm_write
idtcm_adjfine_example = (
  idtcm_adjfine_lem memory 0 (negsuc 65535) pulling (memory_block 0x2010c838),
  idtcm_adjfine_lem memory 0 (negsuc 65535) blank (memory_block 0x2010c838),
)
