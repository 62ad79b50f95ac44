-- ===== src/Idt82p33/Frequency/Effect.antt =====
-- What setting a frequency and a double DCO correction do to the chip and to the driver.
use linux_ptp_driver_package.Prelude.{ℕ, ◌%◌, ◌^◌, ◌≡◌, ap, arith, ◌∙◌}
use linux_ptp_driver_package.Bus.Regmap.{Regmap, Block}
use linux_ptp_driver_package.Idt82p33.State.{
  Idt82p33, read_u8, pll_mode_dco, write_u8, idt82p33_write,
}
use linux_ptp_driver_package.Idt82p33.Mode.{dpll_set_mode}
use linux_ptp_driver_package.Bus.{ok, M, >>-ok}
use linux_ptp_driver_package.Prelude.Int.{ℤ}
use linux_ptp_driver_package.Idt82p33.Frequency.{raw_adjfine, frequency_control_word}
use linux_ptp_driver_package.Clockmatrix.Time.{le_bytes}
use linux_ptp_driver_package.Clockmatrix.Time.Bytes.{length-le_bytes, le_bytes-AreBytes}

module _ {Dev : Type 0} (regmap : Regmap Dev) (i : ℕ) where
  abbrev pub FrequencyRegister : Idt82p33 Dev → Type 0
  FrequencyRegister s = Block regmap ((s.channel i).dpll_freq_cnfg % 2 ^ 16) 5

  -- Putting a channel into a mode leaves all of the driver but that field.
  dpll_set_mode_keeps :
      (mode : ℕ) (s : Idt82p33 Dev) {u : Unit {0}} {s' : Idt82p33 Dev}
      → dpll_set_mode regmap i mode s ≡ ok u s'
      → (s'.channel i ≡ record (s.channel i) { pll_mode = mode })
        × (s' ≡ record s { channel = s'.channel; dev = s'.dev })
  unfolding dpll_set_mode read_u8 write_u8
  dpll_set_mode_keeps mode s e = ground arith

  abbrev write_word : ℤ → M (Idt82p33 Dev) (Unit {0})
  write_word scaled_ppm t =
      idt82p33_write regmap (t.channel i).dpll_freq_cnfg
        (le_bytes 5 (frequency_control_word scaled_ppm)) t

  word_written :
      (scaled_ppm : ℤ) (s t : Idt82p33 Dev) (reg : FrequencyRegister s) {u : Unit {0}}
      {s' : Idt82p33 Dev}
      → (t.channel i).dpll_freq_cnfg ≡ (s.channel i).dpll_freq_cnfg
      → write_word scaled_ppm t ≡ ok u s'
      → (reg.bytes s'.dev ≡ le_bytes 5 (frequency_control_word scaled_ppm))
        × (s' ≡ record t { dev = s'.dev })
  unfolding idt82p33_write
  word_written scaled_ppm s t reg k e = ground (
    arith,
    reg.fills (le_bytes 5 (frequency_control_word scaled_ppm)) t.dev (length-le_bytes 5 _)
        (le_bytes-AreBytes 5 _),
  )

  -- A frequency that was set is in the register, the channel is in DCO mode, and no other field of
  -- the channel, and no request, changes. The register is that of a state `r` with the same address.
  pub raw_adjfine_lem :
      (scaled_ppm : ℤ) (r s : Idt82p33 Dev) (reg : FrequencyRegister r) {u : Unit {0}}
      {s' : Idt82p33 Dev}
      → (s.channel i).dpll_freq_cnfg ≡ (r.channel i).dpll_freq_cnfg
      → raw_adjfine regmap i scaled_ppm s ≡ ok u s'
      → (reg.bytes s'.dev ≡ le_bytes 5 (frequency_control_word scaled_ppm))
        × (s'.channel i ≡ record (s.channel i) { pll_mode = pll_mode_dco })
        × (s'.requests ≡ s.requests)
  unfolding raw_adjfine
  raw_adjfine_lem scaled_ppm r s reg same e =
      let (_, t, set, written) =
        >>-ok (dpll_set_mode regmap i pll_mode_dco) (write_word scaled_ppm) e in
      let (mode, kept) = dpll_set_mode_keeps pll_mode_dco s set in
      let (word, rest) =
        word_written scaled_ppm r t reg (ap (λ c. c.dpll_freq_cnfg) mode ∙ same) written in
      ground (arith, mode, kept, word, rest)
