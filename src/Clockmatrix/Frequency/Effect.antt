-- ===== src/Clockmatrix/Frequency/Effect.antt =====
-- What setting a frequency does to the chip and to the driver.
use mathlib.Core.Path.{fun_ext}
use linux_ptp_driver_package.Clockmatrix.State.{
  Idtcm, idtcm_write, write_frequency, PtpPllMode, Channel, write_phase, unsupported, set_channel,
}
use linux_ptp_driver_package.Prelude.{
  ◌+◌, ◌%◌, ◌^◌, ℕ, ◌≡◌, refl, ap, arith, inl, inr, true, Bool-cases, ◌==◌, ==_iff, false, Bool,
}
use linux_ptp_driver_package.Bus.Regmap.{Regmap, Block}
use linux_ptp_driver_package.Clockmatrix.Time.{le_bytes}
use linux_ptp_driver_package.Clockmatrix.Frequency.{
  raw_adjfine, frequency_control_word, is_write_frequency, idtcm_adjfine,
}
use linux_ptp_driver_package.Clockmatrix.Registers.{dpll_wr_freq}
use linux_ptp_driver_package.Prelude.Int.{ℤ, s32}
use linux_ptp_driver_package.Clockmatrix.Pll.Keeps.{in_mode, configure_write_frequency_keeps}
use linux_ptp_driver_package.Bus.{ok, M, >>-ok, Outcome, fail}
use linux_ptp_driver_package.Clockmatrix.Pll.{configure_write_frequency}
use linux_ptp_driver_package.Clockmatrix.Time.Bytes.{length-le_bytes, le_bytes-AreBytes}

module _ {Dev : Type 0} (regmap : Regmap Dev) (i : ℕ) where
  -- The six bytes of the frequency register of the channel's PLL.
  abbrev pub FrequencyRegister : Idtcm Dev → Type 0
  FrequencyRegister s = Block regmap (((s.channel i).dpll_freq + dpll_wr_freq) % 2 ^ 32) 6

  abbrev write_frequency_word : ℤ → M (Idtcm Dev) (Unit {0})
  write_frequency_word scaled_ppm t =
      idtcm_write regmap (t.channel i).dpll_freq dpll_wr_freq
        (le_bytes 6 (frequency_control_word scaled_ppm)) t

  same_channel :
      (s : Idtcm Dev) (j : ℕ)
      → (s.channel i).mode ≡ write_frequency
      → s.channel j ≡ (in_mode regmap i write_frequency s).channel j
  same_channel s j h = elim (Bool-cases (j == i)) [
    | inl e ↦ rw (e, (==_iff j i).0 e) (ground (arith, h))
    | inr e ↦ rw e refl
  ]

  -- Being in frequency mode already is being put into it.
  already :
      (s : Idtcm Dev)
      → is_write_frequency (s.channel i).mode ≡ true
      → s ≡ record (in_mode regmap i write_frequency s) { dev = s.dev }
  already s f =
      ap (λ (c : ℕ → Channel). record s { channel = c })
        (fun_ext (λ j. same_channel s j (same_mode (s.channel i).mode f)))
    where
      same_mode : (m : PtpPllMode) → is_write_frequency m ≡ true → m ≡ write_frequency
      same_mode write_frequency f = refl
      same_mode write_phase f = absurd (ground arith)
      same_mode unsupported f = absurd (ground arith)

  frequency_written :
      (scaled_ppm : ℤ) (s t : Idtcm Dev) (reg : FrequencyRegister s) {u : Unit {0}} {s' : Idtcm Dev}
      → t ≡ record (in_mode regmap i write_frequency s) { dev = t.dev }
      → idtcm_write regmap
          (t.channel i).dpll_freq
          dpll_wr_freq
          (le_bytes 6 (frequency_control_word scaled_ppm))
          t
        ≡ ok u s'
      → (reg.bytes s'.dev ≡ le_bytes 6 (frequency_control_word scaled_ppm))
        × (s' ≡ record (in_mode regmap i write_frequency s) { dev = s'.dev })
  unfolding idtcm_write
  frequency_written scaled_ppm s t reg k e = ground (
    arith,
    ap (λ (x : Idtcm Dev). (x.channel i).dpll_freq) k,
    reg.fills (le_bytes 6 (frequency_control_word scaled_ppm)) t.dev (length-le_bytes 6 _)
        (le_bytes-AreBytes 6 _),
  )

  -- A frequency that was set is in the register, the channel is in frequency mode whichever mode it
  -- was in, and no other field of the driver changes.
  pub raw_adjfine_lem :
      (scaled_ppm : ℤ) (s : Idtcm Dev) (reg : FrequencyRegister s) {u : Unit {0}} {s' : Idtcm Dev}
      → raw_adjfine regmap i scaled_ppm s ≡ ok u s'
      → (reg.bytes s'.dev ≡ le_bytes 6 (frequency_control_word scaled_ppm))
        × (s' ≡ record (in_mode regmap i write_frequency s) { dev = s'.dev })
  unfolding raw_adjfine
  raw_adjfine_lem scaled_ppm s reg {u} {s'} e =
      elim (Bool-cases (is_write_frequency (s.channel i).mode)) [
        | inl f ↦ frequency_written scaled_ppm s s reg (already s f) (rw f at e)
        | inr f ↦
            let (_, t, configured, written) =
              >>-ok (configure_write_frequency regmap i) (write_frequency_word scaled_ppm)
                (rw f at e) in
            frequency_written scaled_ppm s t reg
              (configure_write_frequency_keeps regmap i s configured) written
      ]

  dropped :
      (scaled_ppm : ℤ) (s : Idtcm Dev)
      → (s.channel i).phase_pull_in ≡ true
      → idtcm_adjfine regmap i scaled_ppm s ≡ ok tt s
  unfolding idtcm_adjfine
  dropped scaled_ppm s f = rw f refl

  adjusted :
      (scaled_ppm : ℤ) (s : Idtcm Dev) (reg : FrequencyRegister s) {u : Unit {0}} {s' : Idtcm Dev}
      → (s.channel i).phase_pull_in ≡ false
      → idtcm_adjfine regmap i scaled_ppm s ≡ ok u s'
      → (reg.bytes s'.dev ≡ le_bytes 6 (frequency_control_word scaled_ppm))
        × ((s'.channel i).current_freq_scaled_ppm ≡ s32 scaled_ppm)
        × ((s'.channel i).mode ≡ write_frequency)
        × (s'.requests ≡ s.requests)
  unfolding idtcm_adjfine
  adjusted scaled_ppm s reg {u} {s'} f e =
      let (_, t, tuned, done) =
        >>-ok (raw_adjfine regmap i scaled_ppm) (remember scaled_ppm) (rw f at e) in
      let (word, kept) = raw_adjfine_lem scaled_ppm s reg tuned in
      ground (arith, word, kept, done, ap (λ (x : Idtcm Dev). x.channel i) kept)
    where
      remember : ℤ → M (Idtcm Dev) (Unit {0})
      remember scaled_ppm idtcm = ok tt (
          set_channel idtcm i
            (record (idtcm.channel i) { current_freq_scaled_ppm = s32 scaled_ppm }))

  -- What setting a frequency leaves: with a pull-in running the call is accepted and nothing changes;
  -- with none running, the frequency is set where the call succeeds.
  abbrev pub Adjusted :
      (scaled_ppm : ℤ) (s : Idtcm Dev)
      → FrequencyRegister s
      → Bool
      → Outcome (Idtcm Dev) (Unit {0})
      → Type 0
  Adjusted scaled_ppm s reg true outcome = outcome ≡ ok tt s
  Adjusted scaled_ppm s reg false (fail e s') = Unit
  Adjusted scaled_ppm s reg false (ok u s') =
      (reg.bytes s'.dev ≡ le_bytes 6 (frequency_control_word scaled_ppm))
      × ((s'.channel i).current_freq_scaled_ppm ≡ s32 scaled_ppm)
      × ((s'.channel i).mode ≡ write_frequency)
      × (s'.requests ≡ s.requests)

  -- A frequency that the kernel sets while a pull-in runs is accepted and dropped: the call succeeds and
  -- nothing changes. While none runs, if the call succeeds, the frequency is in the register, and it is
  -- remembered as the frequency to return to after a pull-in, as a 32-bit number; the channel is in
  -- frequency mode, and nothing is asked of the kernel.
  pub idtcm_adjfine_lem :
      (scaled_ppm : ℤ) (s : Idtcm Dev) (reg : FrequencyRegister s)
      → Adjusted scaled_ppm s reg (s.channel i).phase_pull_in (idtcm_adjfine regmap i scaled_ppm s)
  idtcm_adjfine_lem scaled_ppm s reg = elim (Bool-cases (s.channel i).phase_pull_in) [
    | inl f ↦ rw f (dropped scaled_ppm s f)
    | inr f ↦ rw f (go (idtcm_adjfine regmap i scaled_ppm s) refl f)
  ]
    where
      go :
          (o : Outcome (Idtcm Dev) (Unit {0}))
          → idtcm_adjfine regmap i scaled_ppm s ≡ o
          → (s.channel i).phase_pull_in ≡ false
          → Adjusted scaled_ppm s reg false o
      go (ok u s') e f = adjusted scaled_ppm s reg f e
      go (fail c s') e f = tt
