-- ===== src/Misc/Fc3.antt =====
-- drivers/misc/rsmu_fc3.c and linux/mfd/idtRC38xxx_reg.h: the operations of the character device on a
-- FemtoClock3 chip.
pub mod Firmware
pub mod Tdc
pub mod References
use linux_ptp_driver_package.Prelude.{
  ℕ, ◌+◌, ◌-◌, ◌*◌, ◌/◌, ◌%◌, ◌^◌, bit_and, bit_or, Bool, true, false, ◌||◌, not, List,
  if◌then◌else◌, ◌==◌, ltb, leb, zero, suc,
}
use linux_ptp_driver_package.Prelude.Int.{ℤ, negsuc, signed, quot, ◌*ℤ◌, pos, ◌+ℤ◌}
use linux_ptp_driver_package.Bus.{M, ok, ◌>>=◌, fail, get, ◌>>◌, put, pure, throw}
use linux_ptp_driver_package.Bus.Regmap.{Regmap, read_byte, write_byte}
use linux_ptp_driver_package.Clockmatrix.Setup.{le_number}
use linux_ptp_driver_package.Bus.Errno.{einval, efault}

-- `enum fw_version` of this family.
pub data DevId : Type 0 where
  v_default : DevId
  vfc3w : DevId
  vfc3a : DevId

-- `IDTFC3_FW_REG(devid, VFC3A, reg)` and its like.
abbrev pub fc3_reg : DevId → ℕ → ℕ → ℕ
fc3_reg v_default other on_vfc3a = other
fc3_reg vfc3w other on_vfc3a = other
fc3_reg vfc3a other on_vfc3a = on_vfc3a

abbrev pub is_vfc3a : DevId → Bool
is_vfc3a v_default = false
is_vfc3a vfc3w = false
is_vfc3a vfc3a = true

-- `struct rsmufc3` with its `struct idtfc3_hw_param`, and the chip.
pub record Fc3 (Dev : Type 0) : Type 0 where
  pub devid : DevId
  pub meas_mode : ℕ
  pub tdc_ref_freq : ℕ
  pub time_clk_freq : ℕ
  pub tdc_apll_freq : ℕ
  pub time_ref_freq : ℕ
  pub dev : Dev

abbrev pub soft_reset_ctrl : ℕ
soft_reset_ctrl = 0x15

abbrev pub misc_ctrl : ℕ
misc_ctrl = 0x14

abbrev pub device_id : ℕ
device_id = 0x2

abbrev pub device_id_mask : ℕ
device_id_mask = 0x1000

abbrev pub tdc_ctrl : ℕ
tdc_ctrl = 0x44a

abbrev pub tdc_enable_ctrl : ℕ
tdc_enable_ctrl = 0x169

abbrev pub tdc_dac_cal_ctrl : ℕ
tdc_dac_cal_ctrl = 0x16a

abbrev pub tdc_fb_div_int_cnfg : ℕ
tdc_fb_div_int_cnfg = 0x442

abbrev pub tdc_ref_div_cnfg : ℕ
tdc_ref_div_cnfg = 0x443

abbrev pub time_clock_count : ℕ
time_clock_count = 0xa00

abbrev pub time_clock_meas_cnfg : ℕ
time_clock_meas_cnfg = 0xB04

abbrev pub time_clock_meas_div_cnfg : ℕ
time_clock_meas_div_cnfg = 0xB08

abbrev pub time_clock_meas_ctrl : ℕ
time_clock_meas_ctrl = 0xB10

abbrev pub tdc_fifo_read_req : ℕ
tdc_fifo_read_req = 0xB2F

abbrev pub tdc_fifo_sts : ℕ
tdc_fifo_sts = 0xB38

abbrev pub continuous : ℕ
continuous = 0

abbrev pub one_shot : ℕ
one_shot = 1

abbrev pub meas_mode_invalid : ℕ
meas_mode_invalid = 2

abbrev pub time_clk_freq_addr : ℕ
time_clk_freq_addr = 0xffa0

abbrev pub tdc_ref_freq_addr : ℕ
tdc_ref_freq_addr = 0xffa1

-- Division by zero as the boards' arm64 processor does it: the quotient is 0, and so the remainder is
-- what was divided.
abbrev pub div64_s64 : ℤ → ℕ → ℤ
div64_s64 z zero = pos 0
div64_s64 z (suc d) = quot z (suc d)

abbrev pub remainder : ℕ → ℕ → ℕ
remainder n zero = n
remainder n (suc d) = n % suc d

-- The frequencies of the firmware interface.
unfoldable pub idtfc3_set_hw_param : {Dev : Type 0} → ℕ → ℕ → M (Fc3 Dev) (Unit {0})
idtfc3_set_hw_param addr val s =
    if addr == tdc_ref_freq_addr
    then if ltb 80000000 val || ltb val 10000000
      then fail einval s
      else ok tt (record s { tdc_ref_freq = val })
    else if addr == time_clk_freq_addr
    then if not (remainder 1000000000 val == 0)
      then fail einval s
      else ok tt (record s { time_clk_freq = val })
    else fail efault s

abbrev pub get_apll_reinit_reg_offset : DevId → ℕ
get_apll_reinit_reg_offset devid = fc3_reg devid soft_reset_ctrl misc_ctrl

abbrev pub apll_reinit : DevId → ℕ
apll_reinit devid = fc3_reg devid 0x2 0x4

-- `tdc_meas2offset`: 40 bits of a measurement, 27 of coarse and 13 of fine steps, in nanoseconds.
unfoldable pub tdc_meas2offset : ℕ → ℕ → ℕ → ℤ
tdc_meas2offset time_ref_freq tdc_apll_freq meas_read =
    let fine = signed 13 (meas_read % 2 ^ 13) in
    let coarse = signed 27 (meas_read / 2 ^ 13 % 2 ^ 27) in
    div64_s64 (coarse *ℤ pos 1000000000) time_ref_freq
    +ℤ div64_s64 (fine *ℤ pos 1000000000) (tdc_apll_freq * 62)

module _ {Dev : Type 0} (regmap : Regmap Dev) where
  abbrev pub on_fc3 : {A : Type 0} → M Dev A → M (Fc3 Dev) A
  on_fc3 m s = elim (m s.dev) [
    | ok a d ↦ ok a (record s { dev = d })
    | fail e d ↦ fail e (record s { dev = d })
  ]

  unfoldable pub read_bytes : ℕ → ℕ → M (Fc3 Dev) (List ℕ)
  read_bytes a count = on_fc3 (regmap.bulk_read a count)

  unfoldable pub read_reg : ℕ → M (Fc3 Dev) ℕ
  read_reg a = on_fc3 (read_byte regmap a)

  unfoldable pub write_reg : ℕ → ℕ → M (Fc3 Dev) (Unit {0})
  write_reg a v = on_fc3 (write_byte regmap a v)

  unfoldable pub read_device_id : M (Fc3 Dev) (Unit {0})
  read_device_id = do
    buf ← read_bytes device_id 2
    s ← get
    put (record s { devid = if bit_and (le_number buf) device_id_mask == 0 then vfc3a else vfc3w })

  unfoldable pub rsmu_get_tdc_apll_freq : M (Fc3 Dev) (Unit {0})
  rsmu_get_tdc_apll_freq = do
    tdc_ref_div ← read_reg tdc_ref_div_cnfg
    tdc_fb_div_int ← read_reg tdc_fb_div_int_cnfg
    s ← get
    put (record s {
      tdc_apll_freq =
          s.tdc_ref_freq * bit_and tdc_fb_div_int 0xFF / 2 ^ bit_and tdc_ref_div 0x7 % 2 ^ 32;
    })

  unfoldable pub rsmu_get_time_ref_freq : M (Fc3 Dev) (Unit {0})
  rsmu_get_time_ref_freq = do
    buf ← read_bytes time_clock_meas_div_cnfg 4
    count ← read_reg time_clock_count
    s ← get
    let time_ref_div = le_number buf / 2 ^ 24 % 2 ^ 6 + 1
    let time_clk_div = bit_and count 0x3F + 1
    put (record s { time_ref_freq = s.time_clk_freq * time_clk_div % 2 ^ 32 / time_ref_div })

  -- The measurement is stopped, the mode changed, and a continuous measurement started again.
  unfoldable pub set_tdc_meas_mode : ℕ → M (Fc3 Dev) (Unit {0})
  set_tdc_meas_mode meas_mode = do
    before ← get
    if leb meas_mode_invalid meas_mode
        then throw einval
        else if before.meas_mode == meas_mode
        then pure tt
        else (do
          write_reg time_clock_meas_ctrl 0
          write_reg time_clock_meas_cnfg meas_mode
          s ← get
          put (record s { meas_mode = meas_mode })
          if meas_mode == one_shot then pure tt else write_reg time_clock_meas_ctrl 0x3)

  unfoldable pub hw_init : M (Fc3 Dev) (Unit {0})
  hw_init = do
    s ← get
    if is_vfc3a s.devid then pure tt else (do
      put (record s { meas_mode = meas_mode_invalid })
      set_tdc_meas_mode one_shot
      rsmu_get_time_ref_freq
      rsmu_get_tdc_apll_freq)

  -- A read whose code is ignored: `val` stays where it fails.
  abbrev pub read_or_keep : ℕ → ℕ → M (Fc3 Dev) ℕ
  read_or_keep a val s = elim (read_reg a s) [ ok v t ↦ ok v t | fail e t ↦ ok val t ]

  -- The bits that ask for a new calibration are toggled; the pauses of 10 ms are left out.
  unfoldable pub recalibrate_dac : DevId → M (Fc3 Dev) ℕ
  recalibrate_dac devid =
      if is_vfc3a devid
      then (do
        write_reg tdc_enable_ctrl 0x1
        write_reg tdc_dac_cal_ctrl 0
        write_reg tdc_dac_cal_ctrl 0x1
        pure 0x1)
      else (do write_reg tdc_ctrl 0x1; write_reg tdc_ctrl 0x3; pure 0x3)

  unfoldable pub hw_calibrate : M (Fc3 Dev) (Unit {0})
  hw_calibrate = do
    s ← get
    let a = get_apll_reinit_reg_offset s.devid
    let mask = apll_reinit s.devid
    last ← recalibrate_dac s.devid
    val ← read_or_keep a last
    let cleared = bit_and val (0xFF - mask)
    write_reg a cleared
    write_reg a (bit_or cleared mask)
    hw_init
