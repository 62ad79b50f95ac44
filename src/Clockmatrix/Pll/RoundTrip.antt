-- ===== src/Clockmatrix/Pll/RoundTrip.antt =====
-- What is set in the PLL mode and manual reference registers is what is read from them.
use linux_ptp_driver_package.Clockmatrix.State.{Idtcm, read_u8, idtcm_write, fw_reg}
use linux_ptp_driver_package.Prelude.{
  ◌+◌, ◌/◌, ◌%◌, ◌^◌, ◌<◌, ℕ, bit_and, ◌≡◌, refl, true, ◌&&◌, arith, ◌==◌, ltb, ◌∙◌, subst,
}
use linux_ptp_driver_package.Prelude.Bits.{checked, checked-entry}
use linux_ptp_driver_package.Clockmatrix.Pll.{
  with_pll_mode, with_manual_reference, idtcm_set_pll_mode, idtcm_get_pll_mode,
  idtcm_get_manual_reference, idtcm_set_manual_reference,
}
use linux_ptp_driver_package.Bus.Regmap.{Regmap, Register}
use linux_ptp_driver_package.Bus.{ok, >>-ok, >>=-ok}
use linux_ptp_driver_package.Clockmatrix.Registers.{
  dpll_mode_reg, dpll_mode_v520, dpll_ctrl_dpll_manu_ref_cfg, dpll_wf_timer, dpll_wp_timer,
}
use linux_ptp_driver_package.Clockmatrix.Access.{read_u8_cell, write_u8_cell, write_keeps}

mode_table :
    checked 256 (λ r. checked 8 λ m.
      (bit_and (with_pll_mode r m / 8) 7 == m)
      && (with_pll_mode r m % 8 == r % 8)
      && (with_pll_mode r m / 64 == r / 64)
      && ltb (with_pll_mode r m) 256)
    ≡ true
unfolding checked with_pll_mode
mode_table = refl

-- The mode field takes the new mode, and the bits outside it stay.
with_pll_mode_field :
    (r m : ℕ)
    → r < 256
    → m < 8
    → (bit_and (with_pll_mode r m / 8) 7 ≡ m)
      × (with_pll_mode r m % 8 ≡ r % 8)
      × (with_pll_mode r m / 64 ≡ r / 64)
      × (with_pll_mode r m < 256)
with_pll_mode_field r m hr hm =
    ground (arith, checked-entry _ 8 (checked-entry _ 256 mode_table r hr) m hm)

reference_table :
    checked 256 (λ r. checked 32 λ m.
      (bit_and (with_manual_reference r m) 31 == m)
      && (with_manual_reference r m / 32 == r / 32)
      && ltb (with_manual_reference r m) 256)
    ≡ true
unfolding checked with_manual_reference
reference_table = refl

with_manual_reference_field :
    (r m : ℕ)
    → r < 256
    → m < 32
    → (bit_and (with_manual_reference r m) 31 ≡ m)
      × (with_manual_reference r m / 32 ≡ r / 32)
      × (with_manual_reference r m < 256)
with_manual_reference_field r m hr hm =
    ground (arith, checked-entry _ 32 (checked-entry _ 256 reference_table r hr) m hm)

module _ {Dev : Type 0} (regmap : Regmap Dev) (i : ℕ) where
  abbrev pub mode_address : Idtcm Dev → ℕ
  mode_address s = ((s.channel i).dpll_n + fw_reg s.fw_ver dpll_mode_reg dpll_mode_v520) % 2 ^ 32

  read_mode :
      (s : Idtcm Dev) (reg : Register regmap (mode_address s)) (d : Dev) {m : ℕ} {s' : Idtcm Dev}
      → idtcm_get_pll_mode regmap i (record s { dev = d }) ≡ ok m s'
      → (m ≡ bit_and (reg.cell d / 8) 7) × (s' ≡ record s { dev = s'.dev })
  unfolding idtcm_get_pll_mode read_u8
  read_mode s reg d e = ground (arith, reg.reads d)

  -- Setting the mode leaves the register with that mode and the other bits it had, and the
  -- driver's own fields as they were.
  write_mode :
      (mode : ℕ) (s : Idtcm Dev) (reg : Register regmap (mode_address s)) {u : Unit {0}}
      {s' : Idtcm Dev}
      → mode < 8
      → idtcm_set_pll_mode regmap i mode s ≡ ok u s'
      → (bit_and (reg.cell s'.dev / 8) 7 ≡ mode) × (s' ≡ record s { dev = s'.dev })
  unfolding idtcm_set_pll_mode
  write_mode mode s reg h e =
      let n = (s.channel i).dpll_n in
      let a = fw_reg s.fw_ver dpll_mode_reg dpll_mode_v520 in
      let (u1, s1, w1, e1) = >>-ok (idtcm_write regmap n dpll_wf_timer _) _ e in
      let (u2, s2, w2, e2) = >>-ok (idtcm_write regmap n dpll_wp_timer _) _ e1 in
      let (v, s3, r, e3) = >>=-ok (read_u8 regmap n a) _ e2 in
      let before = read_u8_cell regmap n a reg s2 r in
      let small = with_pll_mode_field v mode (ground (arith, before, reg.is_byte s2.dev)) h in
      let after = write_u8_cell regmap n a (with_pll_mode v mode) reg s3 small.3 e3 in
      let k1 = write_keeps regmap n dpll_wf_timer _ s w1 in
      let k2 = write_keeps regmap n dpll_wp_timer _ s1 w2 in
      ground (arith, before, after, k1, k2, small)

  -- A PLL mode below 8 that was set is the mode that is read next, and neither call changes the
  -- driver's own fields.
  pub get_pll_mode-set_pll_mode :
      (mode : ℕ) (s : Idtcm Dev)
      → Register regmap (mode_address s)
      → mode < 8
      → {u : Unit {0}} {s' : Idtcm Dev} → idtcm_set_pll_mode regmap i mode s ≡ ok u s'
      → {m : ℕ} {s'' : Idtcm Dev} → idtcm_get_pll_mode regmap i s' ≡ ok m s''
      → (m ≡ mode) × (s'' ≡ record s { dev = s''.dev })
  get_pll_mode-set_pll_mode mode s reg h {s'} set {m} {s''} got =
      let w = write_mode mode s reg h set in
      let r =
        read_mode s reg s'.dev (subst (λ t. idtcm_get_pll_mode regmap i t ≡ ok m s'') w.1 got) in
      (r.0 ∙ w.0, r.1)

  abbrev pub reference_address : Idtcm Dev → ℕ
  reference_address s = ((s.channel i).dpll_ctrl_n + dpll_ctrl_dpll_manu_ref_cfg) % 2 ^ 32

  read_reference :
      (s : Idtcm Dev) (reg : Register regmap (reference_address s)) (d : Dev) {m : ℕ}
      {s' : Idtcm Dev}
      → idtcm_get_manual_reference regmap i (record s { dev = d }) ≡ ok m s'
      → (m ≡ bit_and (reg.cell d) 31) × (s' ≡ record s { dev = s'.dev })
  unfolding idtcm_get_manual_reference read_u8
  read_reference s reg d e = ground (arith, reg.reads d)

  write_reference :
      (ref : ℕ) (s : Idtcm Dev) (reg : Register regmap (reference_address s)) {u : Unit {0}}
      {s' : Idtcm Dev}
      → ref < 32
      → idtcm_set_manual_reference regmap i ref s ≡ ok u s'
      → (bit_and (reg.cell s'.dev) 31 ≡ ref)
        × (reg.cell s'.dev / 32 ≡ reg.cell s.dev / 32)
        × (s' ≡ record s { dev = s'.dev })
  unfolding idtcm_set_manual_reference
  write_reference ref s reg h e =
      let n = (s.channel i).dpll_ctrl_n in
      let (v, s1, r, e1) = >>=-ok (read_u8 regmap n dpll_ctrl_dpll_manu_ref_cfg) _ e in
      let before = read_u8_cell regmap n dpll_ctrl_dpll_manu_ref_cfg reg s r in
      let small = with_manual_reference_field v ref (ground (arith, before, reg.is_byte s.dev)) h in
      let after =
        write_u8_cell regmap n dpll_ctrl_dpll_manu_ref_cfg (with_manual_reference v ref) reg s1
          small.2 e1 in
      ground (arith, before, after, small)

  -- A manual reference below 32 that was set is the one that is read next; the three bits above it
  -- in the register stay, and neither call changes the driver's own fields.
  pub get_manual_reference-set_manual_reference :
      (ref : ℕ) (s : Idtcm Dev) (reg : Register regmap (reference_address s))
      → ref < 32
      → {u : Unit {0}} {s' : Idtcm Dev} → idtcm_set_manual_reference regmap i ref s ≡ ok u s'
      → {m : ℕ} {s'' : Idtcm Dev} → idtcm_get_manual_reference regmap i s' ≡ ok m s''
      → (m ≡ ref)
        × (reg.cell s'.dev / 32 ≡ reg.cell s.dev / 32)
        × (s'' ≡ record s { dev = s''.dev })
  get_manual_reference-set_manual_reference ref s reg h {s'} set {m} {s''} got =
      let w = write_reference ref s reg h set in
      let r =
        read_reference s reg s'.dev
          (subst (λ t. idtcm_get_manual_reference regmap i t ≡ ok m s'') w.2 got) in
      (r.0 ∙ w.0, w.1, r.1)
