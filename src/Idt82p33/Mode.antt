-- ===== src/Idt82p33/Mode.antt =====
-- drivers/ptp/ptp_idt82p33.c: the operating mode of a DPLL and the triggers of its time of day.
use linux_ptp_driver_package.Prelude.{
  ℕ, ◌-◌, ◌*◌, ◌%◌, ◌^◌, bit_and, bit_or, Bool, Option, none, some, if◌then◌else◌, ◌==◌, ltb,
}
use linux_ptp_driver_package.Idt82p33.State.{
  pll_mode_mask, Idt82p33, read_u8, write_u8, modify_channel,
}
use linux_ptp_driver_package.Bus.Regmap.{Regmap}
use linux_ptp_driver_package.Bus.{M, ◌>>=◌, get, pure, throw, ◌>>◌}
use linux_ptp_driver_package.Bus.Errno.{einval}

abbrev pub hw_tod_trig_sel_in12 : ℕ
hw_tod_trig_sel_in12 = 2

abbrev pub hw_tod_trig_sel_in13 : ℕ
hw_tod_trig_sel_in13 = 3

abbrev pub hw_tod_trig_sel_in14 : ℕ
hw_tod_trig_sel_in14 = 4

abbrev pub hw_tod_trig_sel_tod_pps : ℕ
hw_tod_trig_sel_tod_pps = 5

abbrev pub hw_tod_wr_trig_sel_msb_tod_cnfg : ℕ
hw_tod_wr_trig_sel_msb_tod_cnfg = 9

abbrev pub hw_tod_rd_trig_sel_lsb_tod_sts : ℕ
hw_tod_rd_trig_sel_lsb_tod_sts = 9

abbrev pub wr_trig_sel_max : ℕ
wr_trig_sel_max = 9

abbrev pub read_trigger_mask : ℕ
read_trigger_mask = 0xF

abbrev pub write_trigger_mask : ℕ
write_trigger_mask = 0xF0

-- The register with the mode field replaced.
unfoldable pub with_pll_mode : ℕ → ℕ → ℕ
with_pll_mode dpll_mode mode = bit_or (bit_and dpll_mode (0xFF - pll_mode_mask)) mode % 256

-- The register with the write or the read trigger replaced.
unfoldable pub with_trigger : ℕ → ℕ → Bool → ℕ
with_trigger cfg trigger write =
    if write
    then bit_or (trigger * 2 ^ 4) (bit_and cfg read_trigger_mask) % 256
    else bit_or trigger (bit_and cfg write_trigger_mask) % 256

-- `map_ref_to_tod_trig_sel`; `none` is the return of -EINVAL.
unfoldable pub map_ref_to_tod_trig_sel : ℕ → Option ℕ
map_ref_to_tod_trig_sel ref =
    if ref == 0
    then some hw_tod_trig_sel_in12
    else if ref == 1
    then some hw_tod_trig_sel_in13
    else if ref == 2
    then some hw_tod_trig_sel_in14
    else none

module _ {Dev : Type 0} (regmap : Regmap Dev) (i : ℕ) where
  unfoldable pub dpll_set_mode : ℕ → M (Idt82p33 Dev) (Unit {0})
  dpll_set_mode mode = do
    s ← get
    let c = s.channel i
    if c.pll_mode == mode then pure tt else (do
      dpll_mode ← read_u8 regmap c.dpll_mode_cnfg
      write_u8 regmap c.dpll_mode_cnfg (with_pll_mode dpll_mode mode)
      modify_channel i (λ c. record c { pll_mode = mode }))

  unfoldable pub set_tod_trigger : ℕ → Bool → M (Idt82p33 Dev) (Unit {0})
  set_tod_trigger trigger write = do
    s ← get
    let c = s.channel i
    if ltb wr_trig_sel_max trigger then throw einval else (do
      cfg ← read_u8 regmap c.dpll_tod_trigger
      write_u8 regmap c.dpll_tod_trigger (with_trigger cfg trigger write))
