-- ===== src/Idt82p33/Output.antt =====
-- drivers/ptp/ptp_idt82p33.c: outputs, and the requests of the kernel that switch a function on or
-- off.
use linux_ptp_driver_package.Prelude.{
  ℕ, ◌-◌, ◌*◌, bit_and, bit_or, Bool, true, false, not, if◌then◌else◌,
}
use linux_ptp_driver_package.Idt82p33.State.{reg_addr, Idt82p33, read_u8, write_u8}
use linux_ptp_driver_package.Bus.Regmap.{Regmap}
use linux_ptp_driver_package.Bus.{M, ◌>>=◌, throw, get}
use linux_ptp_driver_package.Clockmatrix.Kernel.{Kernel}
use linux_ptp_driver_package.Bus.Errno.{erange, eopnotsupp}
use linux_ptp_driver_package.Idt82p33.Extts.{idt82p33_extts_enable}
use linux_ptp_driver_package.Clockmatrix.Requests.{
  PeroutRequest, ClockRequest, perout, is_one_pps, extts, other,
}

abbrev pub sync_tod : ℕ
sync_tod = 0x02

abbrev pub squelch_enable : ℕ
squelch_enable = 0x20

abbrev pub out_mux_cnfg : ℕ → ℕ
out_mux_cnfg outn = reg_addr 0x6 (0xC * outn)

-- The register of an output, with the squelch bit cleared for on and set for off.
unfoldable pub with_squelch : ℕ → Bool → ℕ
with_squelch val enable =
    if enable then bit_and val (0xFF - squelch_enable) else bit_or val squelch_enable

unfoldable pub with_sync_tod : ℕ → Bool → ℕ
with_sync_tod sync_cnfg enable =
    let cleared = bit_and sync_cnfg (0xFF - sync_tod) in
    if enable then bit_or cleared sync_tod else cleared

module _ {Dev : Type 0} (regmap : Regmap Dev) where
  unfoldable pub idt82p33_sync_tod : ℕ → Bool → M (Idt82p33 Dev) (Unit {0})
  idt82p33_sync_tod i enable = do
    s ← get
    sync_cnfg ← read_u8 regmap (s.channel i).dpll_sync_cnfg
    write_u8 regmap (s.channel i).dpll_sync_cnfg (with_sync_tod sync_cnfg enable)

  unfoldable pub idt82p33_output_enable : Bool → ℕ → M (Idt82p33 Dev) (Unit {0})
  idt82p33_output_enable enable outn = do
    val ← read_u8 regmap (out_mux_cnfg outn)
    write_u8 regmap (out_mux_cnfg outn) (with_squelch val enable)

  unfoldable pub idt82p33_perout_enable : Bool → PeroutRequest → M (Idt82p33 Dev) (Unit {0})
  idt82p33_perout_enable enable p = idt82p33_output_enable enable p.index

module _ {Dev : Type 0} (regmap : Regmap Dev) (kernel : Kernel Dev) where
  unfoldable pub idt82p33_enable : ℕ → ClockRequest → Bool → M (Idt82p33 Dev) (Unit {0})
  idt82p33_enable i (perout p) on =
      if not on
      then idt82p33_perout_enable regmap false p
      else if is_one_pps p
      then idt82p33_perout_enable regmap true p
      else throw erange
  idt82p33_enable i (extts rq) on = idt82p33_extts_enable regmap kernel i rq on
  idt82p33_enable i other on = throw eopnotsupp
