-- ===== src/Clockmatrix/PullIn/Lifecycle.antt =====
-- The software pull-in from its start to the worker that ends it.
use linux_ptp_driver_package.Clockmatrix.State.{Idtcm, schedule_worker, request}
use linux_ptp_driver_package.Prelude.{
  ◌≤◌, ℕ, ◌≡◌, ap, true, false, [], ◌∷◌, ◌++◌, arith, ◌*◌, ◌/◌, ◌%◌, ◌^◌, ◌<◌, subst, ◌∙◌,
}
use linux_ptp_driver_package.Bus.Regmap.{Regmap}
use linux_ptp_driver_package.Clockmatrix.PullIn.{
  idtcm_stop_phase_pull_in, do_phase_pull_in_sw, halve, limit_ffo, msec_per_sec,
  phase_pull_in_scaled_ppm, set_pull_in, max_pull_in_scaled_ppm, phase_pull_in_max_ppb,
}
use linux_ptp_driver_package.Clockmatrix.Frequency.Effect.{FrequencyRegister, raw_adjfine_lem}
use linux_ptp_driver_package.Prelude.Int.{ℤ, abs, quot, clamp, ◌+ℤ◌, ◌*ℤ◌, pos, ltb_ℤ, abs_s32}
use linux_ptp_driver_package.Bus.{ok, >>-ok, ◌>>◌}
use linux_ptp_driver_package.Clockmatrix.Time.{le_bytes}
use linux_ptp_driver_package.Clockmatrix.Frequency.{frequency_control_word, raw_adjfine}
use linux_ptp_driver_package.Clockmatrix.PullIn.Halving.{halve_lem, phase_pull_in_scaled_ppm_lem}

not_below : (z : ℤ) → 2 ≤ abs z → abs z < 2 ^ 31 → ltb_ℤ (abs_s32 z) (pos 2) ≡ false
not_below z h k = ground arith

limit_ffo_bound : (max : ℕ) {n : ℕ} → n ≤ limit_ffo max → n ≤ phase_pull_in_max_ppb
limit_ffo_bound max h = ground arith

module _ {Dev : Type 0} (regmap : Regmap Dev) (i : ℕ) where
  -- Ending a pull-in writes the frequency that was set before it, and lowers the flag.
  pub idtcm_stop_phase_pull_in_lem :
      (s : Idtcm Dev) (reg : FrequencyRegister regmap i s) {u : Unit {0}} {s' : Idtcm Dev}
      → idtcm_stop_phase_pull_in regmap i s ≡ ok u s'
      → (reg.bytes s'.dev
          ≡ le_bytes 6 (frequency_control_word (s.channel i).current_freq_scaled_ppm))
        × ((s'.channel i).phase_pull_in ≡ false)
        × ((s'.channel i).current_freq_scaled_ppm ≡ (s.channel i).current_freq_scaled_ppm)
        × (s'.requests ≡ s.requests)
  unfolding idtcm_stop_phase_pull_in
  idtcm_stop_phase_pull_in_lem s reg {s'} e =
      let (_, t, tuned, done) =
        >>-ok (raw_adjfine regmap i (s.channel i).current_freq_scaled_ppm)
          (set_pull_in regmap i false) e in
      let (word, kept) =
        raw_adjfine_lem regmap i (s.channel i).current_freq_scaled_ppm s reg tuned in
      ground (arith, word, kept, ap (λ (x : Idtcm Dev). x.channel i) kept)

  -- Where the correction is at least two nanoseconds and not the lowest 32-bit number, and the present
  -- frequency at most 2 ^ 30 in either direction, a software pull-in that is started takes the correction
  -- halved as often as the limit needs and no oftener, rounded towards zero. It writes the sum of the
  -- present frequency and that one, cut at 144000 ppb in either direction, asks for the worker once,
  -- after one second doubled as often, modulo 2 ^ 32, raises the flag, and leaves the frequency that it
  -- will return to.
  pub do_phase_pull_in_sw_lem :
      (delta_ns : ℤ) (max_ffo_ppb : ℕ) (s : Idtcm Dev) (reg : FrequencyRegister regmap i s)
      {u : Unit {0}} {s' : Idtcm Dev}
      → 2 ≤ abs delta_ns
      → abs delta_ns < 2 ^ 31
      → abs (s.channel i).current_freq_scaled_ppm ≤ 2 ^ 30
      → do_phase_pull_in_sw regmap i delta_ns max_ffo_ppb s ≡ ok u s'
      → let limit = limit_ffo max_ffo_ppb in
        let base = (s.channel i).current_freq_scaled_ppm in
        (rounds : ℕ) × let ppb = quot delta_ns (2 ^ rounds) in
          (abs ppb ≤ limit)
          × ((k : ℕ) → k < rounds → limit < abs delta_ns / 2 ^ k)
          × (reg.bytes s'.dev
              ≡ le_bytes 6 (
                  frequency_control_word
                    (clamp max_pull_in_scaled_ppm (base +ℤ quot (ppb *ℤ pos (2 ^ 13)) 125))))
          × ((s'.channel i).phase_pull_in ≡ true)
          × ((s'.channel i).current_freq_scaled_ppm ≡ base)
          × (s'.requests ≡ s.requests ++ (schedule_worker i (1000 * 2 ^ rounds % 2 ^ 32) ∷ []))
  unfolding do_phase_pull_in_sw
  do_phase_pull_in_sw_lem delta_ns max_ffo_ppb s reg {s'} h bound fits e =
      let base = (s.channel i).current_freq_scaled_ppm in
      let pull = halve 32 (limit_ffo max_ffo_ppb) msec_per_sec delta_ns in
      let ppm = phase_pull_in_scaled_ppm base pull.1 in
      let (_, t, tuned, done) =
        >>-ok (raw_adjfine regmap i ppm)
          (request (schedule_worker i pull.0) >> set_pull_in regmap i true)
          (rw (not_below delta_ns h bound) at e) in
      let (word, kept) = raw_adjfine_lem regmap i ppm s reg tuned in
      let (rounds, within, halved, doubled, needed) =
        halve_lem max_ffo_ppb delta_ns (omega (arith, bound)) in
      let sum =
        phase_pull_in_scaled_ppm_lem base pull.1 fits (limit_ffo_bound max_ffo_ppb within) in
      let written : reg.bytes s'.dev ≡ le_bytes 6 (frequency_control_word ppm) =
        ground (arith, word, done) in
      let asked : s'.requests ≡ s.requests ++ (schedule_worker i pull.0 ∷ []) =
        ground (arith, done, kept) in
      (
        rounds,
        (
          subst (λ p. abs p ≤ limit_ffo max_ffo_ppb) halved within,
          needed,
          written
              ∙ ap (λ p. le_bytes 6 (frequency_control_word p))
                  (sum
                    ∙ ap (λ q. clamp max_pull_in_scaled_ppm (base +ℤ quot (q *ℤ pos (2 ^ 13)) 125))
                        halved),
          ground (arith, done),
          ground (arith, done, kept, ap (λ (x : Idtcm Dev). x.channel i) kept),
          asked ∙ ap (λ m. s.requests ++ (schedule_worker i m ∷ [])) doubled,
        ),
      )
