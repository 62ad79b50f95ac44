-- ===== src/Misc/Cm/Fields.antt =====
-- The fields of registers that the character device reads and changes on a ClockMatrix chip.
use linux_ptp_driver_package.Misc.Cm.{
  ffo_of, with_holdover, rsmu_cm_set_holdover_mode, Rsmu, get_dpll_reg_offset, read_reg, write_reg,
  combo_master_hold, rsmu_cm_set_combomode, dpll_ctrl_combo_master_cfg, get_dpll_ctrl_reg_offset,
  e_combomode_max,
}
use linux_ptp_driver_package.Prelude.{
  ◌+◌, ◌/◌, ◌%◌, ◌^◌, ◌<◌, ℕ, bit_and, ◌≡◌, refl, Bool, true, false, ◌&&◌, arith, if◌then◌else◌,
  ◌==◌, ltb, get_or, not, inl, inr, Bool-cases, ◌-◌, bit_or, leb,
}
use linux_ptp_driver_package.Clockmatrix.Time.{le_bytes}
use linux_ptp_driver_package.Prelude.Int.{◌*ℤ◌, ℤ, abs, low_bits, pos, negsuc}
use linux_ptp_driver_package.Prelude.Bits.{checked, checked-entry}
use linux_ptp_driver_package.Bus.Regmap.{Regmap, Register}
use linux_ptp_driver_package.Clockmatrix.State.{FwVersion, fw_reg}
use linux_ptp_driver_package.Clockmatrix.Setup.{le_number}
use linux_ptp_driver_package.Clockmatrix.Registers.{
  dpll, dpll_v520, dpll_mode_reg, dpll_mode_v520, dpll_ctrl,
}
use linux_ptp_driver_package.Bus.{ok, M, pure, >>=-ok}

le_number-six : (z : ℤ) → le_number (le_bytes 6 z) ≡ low_bits 48 z
unfolding le_bytes
le_number-six (pos n) = omega arith
le_number-six (negsuc n) = omega arith

-- The six bytes of a frequency offset, a signed 48-bit number of 2 ^ -53, are reported as 111 times that
-- number, for every such number but the lowest and with no overflow.
pub ffo_of-le_bytes : (z : ℤ) → abs z < 2 ^ 47 → ffo_of (le_bytes 6 z) ≡ z *ℤ pos 111
unfolding ffo_of ◌*ℤ◌
ffo_of-le_bytes (pos n) h = ground (arith, le_number-six (pos n))
ffo_of-le_bytes (negsuc n) h = ground (arith, le_number-six (negsuc n))

holdover_table :
    checked 256 (λ r.
      (with_holdover true r % 8 == 3)
      && ((with_holdover false r % 8 == 0)
          && ((with_holdover true r / 8 == r / 8)
              && ((with_holdover false r / 8 == r / 8)
                  && (ltb (with_holdover true r) 256
                      && (ltb (with_holdover false r) 256 && (bit_and r 0x7 == r % 8)))))))
    ≡ true
unfolding checked with_holdover
holdover_table = refl

holdover_field :
    (on : Bool) (r : ℕ)
    → r < 256
    → (with_holdover on r % 8 ≡ (if on then 3 else 0))
      × (with_holdover on r / 8 ≡ r / 8)
      × (with_holdover on r < 256)
      × (bit_and r 0x7 ≡ r % 8)
holdover_field true r h = ground (arith, checked-entry _ 256 holdover_table r h)
holdover_field false r h = ground (arith, checked-entry _ 256 holdover_table r h)

combo_table :
    checked 256 (λ r.
      (bit_and r 0xFE / 2 == r / 2)
      && ((bit_and r 0xFE % 2 == 0)
          && ((bit_or r 0x01 / 2 == r / 2)
              && ((bit_or r 0x01 % 2 == 1)
                  && (ltb (bit_and r 0xFE) 256 && ltb (bit_or r 0x01) 256)))))
    ≡ true
unfolding checked
combo_table = refl

module _ {Dev : Type 0} (regmap : Regmap Dev) where
  abbrev pub combo_address : ℕ → ℕ
  combo_address n = get_or dpll_ctrl n 0 + dpll_ctrl_combo_master_cfg

  abbrev pub dpll_mode_address : FwVersion → ℕ → ℕ
  dpll_mode_address fw n =
      get_or (fw_reg fw dpll dpll_v520) n 0 + fw_reg fw dpll_mode_reg dpll_mode_v520

  read_reg_cell :
      (a : ℕ) (reg : Register regmap a) (s : Rsmu Dev) {v : ℕ} {t : Rsmu Dev}
      → read_reg regmap a s ≡ ok v t
      → (v ≡ reg.cell s.dev) × (reg.cell t.dev ≡ reg.cell s.dev) × (t.fw_version ≡ s.fw_version)
  unfolding read_reg
  read_reg_cell a reg s e = ground (arith, reg.reads s.dev)

  write_reg_cell :
      (a v : ℕ) (reg : Register regmap a) (s : Rsmu Dev) {s' : Rsmu Dev}
      → v < 256
      → write_reg regmap a v s ≡ ok tt s'
      → (reg.cell s'.dev ≡ v) × (s'.fw_version ≡ s.fw_version)
  unfolding write_reg
  write_reg_cell a v reg s h e = ground (arith, reg.writes v s.dev h)

  -- What follows the read of the mode register.
  abbrev change : ℕ → Bool → ℕ → M (Rsmu Dev) (Unit {0})
  change a on reg =
      if bit_and reg 0x7 == (if on then 3 else 0)
      then pure tt
      else write_reg regmap a (with_holdover on reg)

  -- Switching holdover of one of the eight DPLLs on or off, if it succeeds, leaves the state mode of
  -- its register forced to holdover (3) or automatic (0), whether or not it had to be written, and
  -- the bits above it as they were; the firmware version that the driver remembers stays.
  pub rsmu_cm_set_holdover_mode_lem :
      (n enable : ℕ) (s : Rsmu Dev) (reg : Register regmap (dpll_mode_address s.fw_version n))
      {u : Unit {0}} {s' : Rsmu Dev}
      → rsmu_cm_set_holdover_mode regmap n enable s ≡ ok u s'
      → (n < 8)
        × (reg.cell s'.dev % 8 ≡ (if enable == 0 then 0 else 3))
        × (reg.cell s'.dev / 8 ≡ reg.cell s.dev / 8)
        × (s'.fw_version ≡ s.fw_version)
  unfolding rsmu_cm_set_holdover_mode get_dpll_reg_offset
  rsmu_cm_set_holdover_mode_lem n enable s reg {u} {s'} e = elim (Bool-cases (ltb n 8)) [
    | inl small ↦
        let a = dpll_mode_address s.fw_version n in
        let on = not (enable == 0) in
        let (v, t, r, rest) = >>=-ok (read_reg regmap a) (change a on) (rw small at e) in
        let before = read_reg_cell a reg s r in
        let field = holdover_field on v (ground (arith, before, reg.is_byte s.dev)) in
        let after = write_reg_cell a (with_holdover on v) reg t {s' = s'} field.2 in
        ground (arith, small, before, field, after, rest)
    | inr large ↦ absurd (ground (arith, large, e))
  ]

  -- The byte that is written for a combo mode.
  abbrev combo_byte : ℕ → ℕ → ℕ
  combo_byte mode reg =
      if mode == 0 then bit_and reg (0xFF - combo_master_hold) else bit_or reg combo_master_hold

  combo_field :
      (mode r : ℕ)
      → r < 256
      → (combo_byte mode r % 2 ≡ (if mode == 0 then 0 else 1))
        × (combo_byte mode r / 2 ≡ r / 2)
        × (combo_byte mode r < 256)
  combo_field mode r h = elim (Bool-cases (mode == 0)) [
    | inl off ↦ ground (arith, off, checked-entry _ 256 combo_table r h)
    | inr on ↦ ground (arith, on, checked-entry _ 256 combo_table r h)
  ]

  -- Setting the combo mode of a DPLL, if it succeeds, was asked of one of the eight DPLLs and of one
  -- of the four modes; the hold bit of its register is then clear for mode 0 and set for the others,
  -- the seven bits above it and the remembered firmware version are as they were.
  pub rsmu_cm_set_combomode_lem :
      (n mode : ℕ) (s : Rsmu Dev) (reg : Register regmap (combo_address n)) {u : Unit {0}}
      {s' : Rsmu Dev}
      → rsmu_cm_set_combomode regmap n mode s ≡ ok u s'
      → (n < 8)
        × (mode < e_combomode_max)
        × (reg.cell s'.dev % 2 ≡ (if mode == 0 then 0 else 1))
        × (reg.cell s'.dev / 2 ≡ reg.cell s.dev / 2)
        × (s'.fw_version ≡ s.fw_version)
  unfolding rsmu_cm_set_combomode get_dpll_ctrl_reg_offset
  rsmu_cm_set_combomode_lem n mode s reg {u} {s'} e = elim (Bool-cases (ltb n 8)) [
    | inl small ↦ elim (Bool-cases (leb e_combomode_max mode)) [
      | inl large ↦ absurd (ground (arith, small, large, e))
      | inr fits ↦
          let a = combo_address n in
          let write = λ (v : ℕ). write_reg regmap a (combo_byte mode v) in
          let (v, t, r, rest) = >>=-ok (read_reg regmap a) write (rw fits at (rw small at e)) in
          let before = read_reg_cell a reg s r in
          let field = combo_field mode v (ground (arith, before, reg.is_byte s.dev)) in
          let after = write_reg_cell a (combo_byte mode v) reg t {s' = s'} field.2 rest in
          ground (arith, small, fits, before, field, after)
    ]
    | inr large ↦ absurd (ground (arith, large, e))
  ]
