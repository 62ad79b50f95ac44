-- ===== src/Clockmatrix/Output.antt =====
-- drivers/ptp/ptp_clockmatrix.c: the outputs, switched on and off and aligned to the time of day.
use linux_ptp_driver_package.Clockmatrix.State.{Idtcm, FwVersion, fw_reg, read_u8, write_u8}
use linux_ptp_driver_package.Prelude.{
  ◌-◌, ◌%◌, ℕ, bit_and, bit_or, Bool, Option, none, some, if◌then◌else◌, ltb, get_or,
}
use linux_ptp_driver_package.Bus.Regmap.{Regmap}
use linux_ptp_driver_package.Clockmatrix.Kernel.{Kernel}
use linux_ptp_driver_package.Bus.{M, ◌>>=◌, ◌>>◌, get, throw}
use linux_ptp_driver_package.Clockmatrix.Tod.{raw_settime, scsr_tod_wr_type_sel_delta_plus}
use linux_ptp_driver_package.Clockmatrix.Registers.{output, output_v520, out_ctrl_1}
use linux_ptp_driver_package.Prelude.Int.{pos}
use linux_ptp_driver_package.Bus.Errno.{einval}

abbrev pub squelch_disable : ℕ
squelch_disable = 0x20

-- The register base of an output, or `none` where the source returns -EINVAL.
unfoldable pub get_output_base_addr : FwVersion → ℕ → Option ℕ
get_output_base_addr ver outn =
    if ltb outn 12 then some (get_or (fw_reg ver output output_v520) outn 0) else none

module _ {Dev : Type 0} (regmap : Regmap Dev) (kernel : Kernel Dev) where
  unfoldable pub idtcm_output_enable : Bool → ℕ → M (Idtcm Dev) (Unit {0})
  idtcm_output_enable enable outn = do
    idtcm ← get
    elim (get_output_base_addr idtcm.fw_ver (outn % 256)) [
      | none ↦ throw einval
      | some base ↦ (do
        val ← read_u8 regmap base out_ctrl_1
        write_u8 regmap base out_ctrl_1
            (if enable then bit_or val squelch_disable else bit_and val (0xFF - squelch_disable)))
    ]

  -- `struct ptp_perout_request`, where only the index is used.
  unfoldable pub idtcm_perout_enable : ℕ → ℕ → Bool → M (Idtcm Dev) (Unit {0})
  idtcm_perout_enable i index enable = do
    idtcm_output_enable enable index
    raw_settime regmap kernel i (record { tv_sec = pos 0; tv_nsec = pos 0 })
        scsr_tod_wr_type_sel_delta_plus
