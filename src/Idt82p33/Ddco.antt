-- ===== src/Idt82p33/Ddco.antt =====
-- drivers/ptp/ptp_idt82p33.c: the life of a double DCO correction, from its start to the worker that
-- takes it back.
use linux_ptp_driver_package.Prelude.{
  ℕ, ◌*◌, ◌/◌, ◌%◌, ◌^◌, ◌≤◌, zero, suc, ◌≡◌, refl, ap, true, false, [], ◌∷◌, ◌++◌, arith, ◌<◌, ◌∙◌,
  subst,
}
use linux_ptp_driver_package.Idt82p33.Frequency.{
  halve_ppb, idt82p33_start_ddco, idt82p33_stop_ddco, idt82p33_adjfine, frequency_control_word,
  ddco_scaled_ppm, raw_adjfine, max_scaled_ppm,
}
use linux_ptp_driver_package.Bus.Regmap.{Regmap}
use linux_ptp_driver_package.Clockmatrix.PullIn.{halve}
use linux_ptp_driver_package.Bus.{M, ◌>>◌, ok, >>-ok, fail}
use linux_ptp_driver_package.Clockmatrix.Kernel.{Kernel}
use linux_ptp_driver_package.Prelude.Int.{ℤ, quot, abs, ltb_ℤ, clamp, abs_s32, pos, ◌+ℤ◌, ◌*ℤ◌}
use linux_ptp_driver_package.Idt82p33.State.{
  Idt82p33, dco_max_ppb, request, schedule_worker, modify_channel, pll_mode_dco,
}
use linux_ptp_driver_package.Idt82p33.Frequency.Effect.{
  FrequencyRegister, FrequencyRegister, raw_adjfine_lem,
}
use linux_ptp_driver_package.Idt82p33.Adjtime.{idt82p33_adjtime}
use linux_ptp_driver_package.Clockmatrix.Time.{le_bytes}
use linux_ptp_driver_package.Bus.Errno.{ebusy}
use linux_ptp_driver_package.Clockmatrix.PullIn.Halving.{halve_lem, abs-quot}
use linux_ptp_driver_package.Idt82p33.Frequency.Bounds.{ddco_scaled_ppm_lem}

smaller : (ppb : ℤ) → abs ppb < 2 ^ 31 → abs (quot ppb 2) < 2 ^ 31
smaller ppb h = ground (arith, abs-quot ppb 2)

-- The loop is that of the other driver's pull-in, at this driver's limit.
halve_ppb-halve :
    (n duration_ms : ℕ) (ppb : ℤ)
    → abs ppb < 2 ^ 31
    → halve_ppb n duration_ms ppb ≡ halve n dco_max_ppb duration_ms ppb
unfolding halve_ppb halve
halve_ppb-halve zero duration_ms ppb h = refl
halve_ppb-halve (suc n) duration_ms ppb h =
    ground (arith, halve_ppb-halve n (duration_ms * 2 % 2 ^ 32) (quot ppb 2) (smaller ppb h))

not_below : (z : ℤ) → 5 ≤ abs z → abs z < 2 ^ 31 → ltb_ℤ (abs_s32 z) (pos 5) ≡ false
not_below z h k = ground arith

module _ {Dev : Type 0} (regmap : Regmap Dev) (i : ℕ) where
  -- What follows the write of the frequency.
  abbrev after_write : ℕ → M (Idt82p33 Dev) (Unit {0})
  after_write duration_ms = do
    request (schedule_worker i duration_ms)
    modify_channel i (λ c. record c { ddco = true })

  started :
      (delta_ns : ℤ) (s : Idt82p33 Dev) (reg : FrequencyRegister regmap i s) {u : Unit {0}}
      {t : Idt82p33 Dev}
      → 5 ≤ abs delta_ns
      → abs delta_ns < 2 ^ 31
      → idt82p33_start_ddco regmap i delta_ns s ≡ ok u t
      → let pull = halve_ppb 32 1000 delta_ns in
        let base = (s.channel i).current_freq in
        (reg.bytes t.dev ≡ le_bytes 5 (frequency_control_word (ddco_scaled_ppm base pull.1)))
        × (t.channel i ≡ record (s.channel i) { pll_mode = pll_mode_dco; ddco = true })
        × (t.requests ≡ s.requests ++ (schedule_worker i pull.0 ∷ []))
  unfolding idt82p33_start_ddco
  started delta_ns s reg h bound e =
      let pull = halve_ppb 32 1000 delta_ns in
      let ppm = ddco_scaled_ppm (s.channel i).current_freq pull.1 in
      let (_, t1, tuned, done) =
        >>-ok (raw_adjfine regmap i ppm) (after_write pull.0)
          (rw (not_below delta_ns h bound) at e) in
      let (word, mode, kept) = raw_adjfine_lem regmap i ppm s s reg refl tuned in
      ground (arith, word, mode, kept)

  stopped :
      (base : ℤ) (s t : Idt82p33 Dev) (reg : FrequencyRegister regmap i s) {u : Unit {0}}
      {w : Idt82p33 Dev}
      → (t.channel i).dpll_freq_cnfg ≡ (s.channel i).dpll_freq_cnfg
      → (t.channel i).current_freq ≡ base
      → idt82p33_stop_ddco regmap i t ≡ ok u w
      → (reg.bytes w.dev ≡ le_bytes 5 (frequency_control_word base))
        × (w.channel i ≡ record (t.channel i) { pll_mode = pll_mode_dco; ddco = false })
        × (w.requests ≡ t.requests)
  unfolding idt82p33_stop_ddco
  stopped base s t reg same b e =
      let (_, t1, tuned, done) =
        >>-ok (raw_adjfine regmap i (t.channel i).current_freq)
          (modify_channel i (λ c. record c { ddco = false })) e in
      let (word, mode, kept) =
        raw_adjfine_lem regmap i (t.channel i).current_freq s t reg same tuned in
      ground (arith, word, mode, kept, b)

module _ {Dev : Type 0} (regmap : Regmap Dev) (kernel : Kernel Dev) (i : ℕ) where
  -- Where the correction is at least 5 ns and not the lowest 32-bit number, and the present frequency is
  -- a 32-bit number: a correction that is started, and later stopped with no call in between that
  -- changes the channel, is halved as often as it takes to be at most 92000 ppb, rounded towards zero.
  -- Meanwhile the frequency register has the sum of the present frequency and that one, cut at 92000 ppb
  -- in either direction, the worker was asked for once, after one second doubled as often, modulo
  -- 2 ^ 32, setting a frequency is accepted and dropped, and shifting the clock is refused as busy. At
  -- the end the register has the frequency that was set before, and the flag of the correction is off.
  pub ddco_lem :
      (delta_ns : ℤ) (s : Idt82p33 Dev) (reg : FrequencyRegister regmap i s) {u v : Unit {0}}
      {t w : Idt82p33 Dev}
      → 5 ≤ abs delta_ns
      → abs delta_ns < 2 ^ 31
      → abs (s.channel i).current_freq ≤ 2 ^ 31
      → idt82p33_start_ddco regmap i delta_ns s ≡ ok u t
      → idt82p33_stop_ddco regmap i t ≡ ok v w
      → let base = (s.channel i).current_freq in
        (rounds : ℕ) × let ppb = quot delta_ns (2 ^ rounds) in
          (abs ppb ≤ dco_max_ppb)
          × ((k : ℕ) → k < rounds → dco_max_ppb < abs delta_ns / 2 ^ k)
          × (reg.bytes t.dev
              ≡ le_bytes 5 (
                  frequency_control_word
                    (clamp max_scaled_ppm (base +ℤ quot (ppb *ℤ pos (2 ^ 13)) 125))))
          × (t.requests ≡ s.requests ++ (schedule_worker i (1000 * 2 ^ rounds % 2 ^ 32) ∷ []))
          × ((scaled_ppm : ℤ) → idt82p33_adjfine regmap i scaled_ppm t ≡ ok tt t)
          × ((threshold : ℕ) (shift : ℤ)
              → idt82p33_adjtime regmap kernel i threshold shift t ≡ fail ebusy t)
          × (reg.bytes w.dev ≡ le_bytes 5 (frequency_control_word base))
          × ((w.channel i).ddco ≡ false)
          × (w.requests ≡ t.requests)
  unfolding idt82p33_adjfine idt82p33_adjtime
  ddco_lem delta_ns s reg {t = t} {w = w} big small fits start stop =
      let base = (s.channel i).current_freq in
      let (rounds, limit, halved, doubled, needed) =
        halve_lem 92000 delta_ns (omega (arith, small)) in
      let same = halve_ppb-halve 32 1000 delta_ns small in
      let (word, channel, asked) = started regmap i delta_ns s reg big small start in
      let extra : (halve_ppb 32 1000 delta_ns).1 ≡ quot delta_ns (2 ^ rounds) = rw same halved in
      let within = subst (λ p. abs p ≤ dco_max_ppb) halved limit in
      let running : (t.channel i).ddco ≡ true = ap (λ c. c.ddco) channel in
      let (restored, last, quiet) =
        stopped regmap i (s.channel i).current_freq s t reg (ap (λ c. c.dpll_freq_cnfg) channel)
          (ap (λ c. c.current_freq) channel) stop in
      (
        rounds,
        (
          within,
          needed,
          word
              ∙ ap (λ p. le_bytes 5 (frequency_control_word p))
                  (ap (ddco_scaled_ppm base) extra
                    ∙ ddco_scaled_ppm_lem base (quot delta_ns (2 ^ rounds)) fits within),
          asked ∙ ap (λ m. s.requests ++ (schedule_worker i m ∷ [])) (rw same doubled),
          λ scaled_ppm. rw running refl,
          λ threshold shift. rw running refl,
          restored,
          ap (λ c. c.ddco) last,
          quiet,
        ),
      )
