-- ===== src/Clockmatrix/Pll.antt =====
-- drivers/ptp/ptp_clockmatrix.c: PLL mode, manual reference, and the operating mode of a channel.
pub mod RoundTrip
pub mod Keeps
use linux_ptp_driver_package.Clockmatrix.State.{
  Idtcm, PtpPllMode, set_channel, write_frequency, write_phase, by_manual_reference, by_pll_mode,
  unsupported, read_u8, fw_reg, write_u8, idtcm_write, unset,
}
use linux_ptp_driver_package.Prelude.{
  ◌-◌, ◌*◌, ◌/◌, ◌%◌, ◌^◌, ℕ, bit_and, bit_or, [], ◌∷◌, if◌then◌else◌, ◌==◌,
}
use linux_ptp_driver_package.Bus.Regmap.{Regmap}
use linux_ptp_driver_package.Bus.{M, ◌>>=◌, ok, ◌>>◌, get, finally, fail, pure}
use linux_ptp_driver_package.Prelude.Int.{ℤ, pos}
use linux_ptp_driver_package.Clockmatrix.Registers.{
  dpll_mode_reg, dpll_ctrl_dpll_manu_ref_cfg, dpll_mode_v520, dpll_wf_timer, dpll_wp_timer,
}
use linux_ptp_driver_package.Bus.Errno.{einval}

-- `enum pll_mode` and `enum manual_reference` are numbers, as they are read from registers.
abbrev pub pll_mode_pll : ℕ
pll_mode_pll = 0

abbrev pub pll_mode_write_phase : ℕ
pll_mode_write_phase = 1

abbrev pub pll_mode_write_frequency : ℕ
pll_mode_write_frequency = 2

abbrev pub pll_mode_shift : ℕ
pll_mode_shift = 3

abbrev pub pll_mode_mask : ℕ
pll_mode_mask = 0x7

abbrev pub manu_ref_write_phase : ℕ
manu_ref_write_phase = 16

abbrev pub manu_ref_write_frequency : ℕ
manu_ref_write_frequency = 17

abbrev pub manual_reference_mask : ℕ
manual_reference_mask = 0x1f

-- `reg &= ~(PLL_MODE_MASK << PLL_MODE_SHIFT); reg |= mode << PLL_MODE_SHIFT;` on a `u8`.
unfoldable pub with_pll_mode : ℕ → ℕ → ℕ
with_pll_mode reg mode =
    bit_or (bit_and reg (0xFF - pll_mode_mask * 2 ^ pll_mode_shift)) (mode * 2 ^ pll_mode_shift)
    % 256

unfoldable pub with_manual_reference : ℕ → ℕ → ℕ
with_manual_reference reg ref = bit_or (bit_and reg (0xFF - manual_reference_mask)) ref % 256

-- A call through a pointer that was not set is a fault, and no code that an operation returns.
abbrev pub null_call : ℤ
null_call = pos 1

module _ {Dev : Type 0} (regmap : Regmap Dev) (i : ℕ) where
  unfoldable pub idtcm_get_pll_mode : M (Idtcm Dev) ℕ
  idtcm_get_pll_mode = do
    idtcm ← get
    dpll_mode ←
        read_u8 regmap (idtcm.channel i).dpll_n (fw_reg idtcm.fw_ver dpll_mode_reg dpll_mode_v520)
    pure (bit_and (dpll_mode / 2 ^ pll_mode_shift) pll_mode_mask)

  unfoldable pub idtcm_set_pll_mode : ℕ → M (Idtcm Dev) (Unit {0})
  idtcm_set_pll_mode mode = do
    idtcm ← get
    let channel = idtcm.channel i
    let mode_reg = fw_reg idtcm.fw_ver dpll_mode_reg dpll_mode_v520
    idtcm_write regmap channel.dpll_n dpll_wf_timer (0 ∷ 0 ∷ [])
    idtcm_write regmap channel.dpll_n dpll_wp_timer
        ((if mode == pll_mode_write_phase then 160 else 0) ∷ 0 ∷ [])
    dpll_mode ← read_u8 regmap channel.dpll_n mode_reg
    write_u8 regmap channel.dpll_n mode_reg (with_pll_mode dpll_mode mode)

  unfoldable pub idtcm_get_manual_reference : M (Idtcm Dev) ℕ
  idtcm_get_manual_reference = do
    idtcm ← get
    dpll_manu_ref_cfg ← read_u8 regmap (idtcm.channel i).dpll_ctrl_n dpll_ctrl_dpll_manu_ref_cfg
    pure (bit_and dpll_manu_ref_cfg manual_reference_mask)

  unfoldable pub idtcm_set_manual_reference : ℕ → M (Idtcm Dev) (Unit {0})
  idtcm_set_manual_reference ref = do
    idtcm ← get
    let channel = idtcm.channel i
    dpll_manu_ref_cfg ← read_u8 regmap channel.dpll_ctrl_n dpll_ctrl_dpll_manu_ref_cfg
    write_u8 regmap channel.dpll_ctrl_n dpll_ctrl_dpll_manu_ref_cfg
        (with_manual_reference dpll_manu_ref_cfg ref)

  -- `channel->mode = mode;`.
  unfoldable pub set_mode : PtpPllMode → M (Idtcm Dev) (Unit {0})
  set_mode m idtcm = ok tt (set_channel idtcm i (record (idtcm.channel i) { mode = m }))

  unfoldable pub configure_dpll_mode_write_frequency : M (Idtcm Dev) (Unit {0})
  unfolding set_mode
  configure_dpll_mode_write_frequency = do
    idtcm_set_pll_mode pll_mode_write_frequency
    set_mode write_frequency

  unfoldable pub configure_dpll_mode_write_phase : M (Idtcm Dev) (Unit {0})
  unfolding set_mode
  configure_dpll_mode_write_phase = do idtcm_set_pll_mode pll_mode_write_phase; set_mode write_phase

  unfoldable pub configure_manual_reference_write_frequency : M (Idtcm Dev) (Unit {0})
  unfolding set_mode
  configure_manual_reference_write_frequency = do
    idtcm_set_manual_reference manu_ref_write_frequency
    set_mode write_frequency

  unfoldable pub configure_manual_reference_write_phase : M (Idtcm Dev) (Unit {0})
  unfolding set_mode
  configure_manual_reference_write_phase = do
    idtcm_set_manual_reference manu_ref_write_phase
    set_mode write_phase

  -- `channel->configure_write_frequency(channel)` and `channel->configure_write_phase(channel)`.
  unfoldable pub configure_write_frequency : M (Idtcm Dev) (Unit {0})
  unfolding configure_dpll_mode_write_frequency configure_manual_reference_write_frequency
  configure_write_frequency idtcm = elim (idtcm.channel i).operations [
    | unset ↦ fail null_call idtcm
    | by_pll_mode ↦ configure_dpll_mode_write_frequency idtcm
    | by_manual_reference ↦ configure_manual_reference_write_frequency idtcm
  ]

  unfoldable pub configure_write_phase : M (Idtcm Dev) (Unit {0})
  unfolding configure_dpll_mode_write_phase configure_manual_reference_write_phase
  configure_write_phase idtcm = elim (idtcm.channel i).operations [
    | unset ↦ fail null_call idtcm
    | by_pll_mode ↦ configure_dpll_mode_write_phase idtcm
    | by_manual_reference ↦ configure_manual_reference_write_phase idtcm
  ]

  unfoldable pub initialize_operating_mode_with_manual_reference : ℕ → M (Idtcm Dev) (Unit {0})
  initialize_operating_mode_with_manual_reference ref idtcm = ok tt (
      set_channel idtcm i (record (idtcm.channel i) {
        operations = by_manual_reference;
        mode =
            if ref == manu_ref_write_phase
            then write_phase
            else if ref == manu_ref_write_frequency
            then write_frequency
            else unsupported;
      }))

  unfoldable pub initialize_operating_mode_with_pll_mode : ℕ → M (Idtcm Dev) (Unit {0})
  initialize_operating_mode_with_pll_mode mode idtcm =
      let install = λ (m : PtpPllMode).
        set_channel idtcm i (record (idtcm.channel i) { operations = by_pll_mode; mode = m }) in
      if mode == pll_mode_write_phase
      then ok tt (install write_phase)
      else if mode == pll_mode_write_frequency
      then ok tt (install write_frequency)
      else fail einval (install unsupported)

  unfoldable pub initialize_from_registers : M (Idtcm Dev) (Unit {0})
  initialize_from_registers = do
    mode ← idtcm_get_pll_mode
    if mode == pll_mode_pll
        then (do
          ref ← idtcm_get_manual_reference
          initialize_operating_mode_with_manual_reference ref)
        else initialize_operating_mode_with_pll_mode mode

  -- On an error the mode is still unsupported, so that the last test does nothing, as after the
  -- early returns. `initialize_from_registers` stands for the part between the two assignments of `err`.
  unfoldable pub initialize_dco_operating_mode : M (Idtcm Dev) (Unit {0})
  initialize_dco_operating_mode = do
    set_mode unsupported
    finally initialize_from_registers (λ idtcm. elim (idtcm.channel i).mode [
      | write_phase ↦ configure_write_frequency idtcm
      | _ ↦ ok tt idtcm
    ])
