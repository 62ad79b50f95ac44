-- ===== src/Clockmatrix/Pll/Keeps.antt =====
-- What configuring a channel for frequency or phase leaves: the driver's own fields but the mode.
use linux_ptp_driver_package.Clockmatrix.State.{
  Idtcm, PtpPllMode, set_channel, fw_reg, write_frequency, read_u8, Operations, unset, by_pll_mode,
  idtcm_write, by_manual_reference, write_phase,
}
use linux_ptp_driver_package.Prelude.{ℕ, ◌≡◌, arith, ap}
use linux_ptp_driver_package.Bus.Regmap.{Regmap}
use linux_ptp_driver_package.Clockmatrix.Pll.{
  idtcm_set_pll_mode, idtcm_set_manual_reference, configure_write_frequency, set_mode,
  configure_dpll_mode_write_frequency, configure_write_phase,
  configure_manual_reference_write_frequency, configure_dpll_mode_write_phase, null_call,
  pll_mode_write_frequency, configure_manual_reference_write_phase, manu_ref_write_frequency,
  pll_mode_write_phase, manu_ref_write_phase,
}
use linux_ptp_driver_package.Bus.{ok, >>=-ok, >>-ok, M, fail}
use linux_ptp_driver_package.Clockmatrix.Registers.{
  dpll_mode_reg, dpll_mode_v520, dpll_ctrl_dpll_manu_ref_cfg, dpll_wf_timer, dpll_wp_timer,
}
use linux_ptp_driver_package.Clockmatrix.Access.{read_u8_keeps, write_u8_keeps, write_keeps}

module _ {Dev : Type 0} (regmap : Regmap Dev) (i : ℕ) where
  set_pll_mode_keeps :
      (mode : ℕ) (s : Idtcm Dev) {u : Unit {0}} {s' : Idtcm Dev}
      → idtcm_set_pll_mode regmap i mode s ≡ ok u s'
      → s' ≡ record s { dev = s'.dev }
  unfolding idtcm_set_pll_mode
  set_pll_mode_keeps mode s e =
      let n = (s.channel i).dpll_n in
      let a = fw_reg s.fw_ver dpll_mode_reg dpll_mode_v520 in
      let (u1, s1, w1, e1) = >>-ok (idtcm_write regmap n dpll_wf_timer _) _ e in
      let (u2, s2, w2, e2) = >>-ok (idtcm_write regmap n dpll_wp_timer _) _ e1 in
      let (v, s3, r, e3) = >>=-ok (read_u8 regmap n a) _ e2 in
      ground (
        arith,
        write_keeps regmap n dpll_wf_timer _ s w1,
        write_keeps regmap n dpll_wp_timer _ s1 w2,
        read_u8_keeps regmap n a s2 r,
        write_u8_keeps regmap n a _ s3 e3,
      )

  set_manual_reference_keeps :
      (ref : ℕ) (s : Idtcm Dev) {u : Unit {0}} {s' : Idtcm Dev}
      → idtcm_set_manual_reference regmap i ref s ≡ ok u s'
      → s' ≡ record s { dev = s'.dev }
  unfolding idtcm_set_manual_reference
  set_manual_reference_keeps ref s e =
      let n = (s.channel i).dpll_ctrl_n in
      let (v, s1, r, e1) = >>=-ok (read_u8 regmap n dpll_ctrl_dpll_manu_ref_cfg) _ e in
      ground (
        arith,
        read_u8_keeps regmap n dpll_ctrl_dpll_manu_ref_cfg s r,
        write_u8_keeps regmap n dpll_ctrl_dpll_manu_ref_cfg _ s1 e1,
      )

  -- The state with another mode of the channel.
  abbrev pub in_mode : PtpPllMode → Idtcm Dev → Idtcm Dev
  in_mode m s = set_channel s i (record (s.channel i) { mode = m })

  mode_after :
      (m : PtpPllMode) (s t : Idtcm Dev) {u : Unit {0}} {s' : Idtcm Dev}
      → t ≡ record s { dev = t.dev }
      → set_mode regmap i m t ≡ ok u s'
      → s' ≡ record (in_mode m s) { dev = s'.dev }
  unfolding set_mode
  mode_after m s t k e = ground (arith, ap (in_mode m) k)

  by_operations :
      {s s' : Idtcm Dev} {u : Unit {0}} (mode : PtpPllMode)
      (by_pll by_ref : M (Idtcm Dev) (Unit {0})) (o : Operations)
      → (elim o [
        | unset ↦ fail null_call s
        | by_pll_mode ↦ by_pll s
        | by_manual_reference ↦ by_ref s
      ])
        ≡ ok u s'
      → (by_pll s ≡ ok u s' → s' ≡ record (in_mode mode s) { dev = s'.dev })
      → (by_ref s ≡ ok u s' → s' ≡ record (in_mode mode s) { dev = s'.dev })
      → s' ≡ record (in_mode mode s) { dev = s'.dev }
  by_operations mode by_pll by_ref unset e p r = absurd (ground arith)
  by_operations mode by_pll by_ref by_pll_mode e p r = p e
  by_operations mode by_pll by_ref by_manual_reference e p r = r e

  -- A channel whose operations are installed ends in the mode that was asked for, and no other
  -- field of the driver changes.
  pub configure_write_frequency_keeps :
      (s : Idtcm Dev) {u : Unit {0}} {s' : Idtcm Dev}
      → configure_write_frequency regmap i s ≡ ok u s'
      → s' ≡ record (in_mode write_frequency s) { dev = s'.dev }
  unfolding configure_write_frequency configure_dpll_mode_write_frequency
      configure_manual_reference_write_frequency
  configure_write_frequency_keeps s e =
      by_operations write_frequency (configure_dpll_mode_write_frequency regmap i)
        (configure_manual_reference_write_frequency regmap i) (s.channel i).operations e
        (λ h.
          let (_, t, sent, done) =
            >>-ok (idtcm_set_pll_mode regmap i pll_mode_write_frequency)
              (set_mode regmap i write_frequency) h in
          mode_after write_frequency s t (set_pll_mode_keeps _ s sent) done)
        (λ h.
          let (_, t, sent, done) =
            >>-ok (idtcm_set_manual_reference regmap i manu_ref_write_frequency)
              (set_mode regmap i write_frequency) h in
          mode_after write_frequency s t (set_manual_reference_keeps _ s sent) done)

  pub configure_write_phase_keeps :
      (s : Idtcm Dev) {u : Unit {0}} {s' : Idtcm Dev}
      → configure_write_phase regmap i s ≡ ok u s'
      → s' ≡ record (in_mode write_phase s) { dev = s'.dev }
  unfolding configure_write_phase configure_dpll_mode_write_phase
      configure_manual_reference_write_phase
  configure_write_phase_keeps s e =
      by_operations write_phase (configure_dpll_mode_write_phase regmap i)
        (configure_manual_reference_write_phase regmap i) (s.channel i).operations e
        (λ h.
          let (_, t, sent, done) =
            >>-ok (idtcm_set_pll_mode regmap i pll_mode_write_phase) (set_mode regmap i write_phase)
              h in
          mode_after write_phase s t (set_pll_mode_keeps _ s sent) done)
        (λ h.
          let (_, t, sent, done) =
            >>-ok (idtcm_set_manual_reference regmap i manu_ref_write_phase)
              (set_mode regmap i write_phase) h in
          mode_after write_phase s t (set_manual_reference_keeps _ s sent) done)
