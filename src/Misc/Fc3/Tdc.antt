-- ===== src/Misc/Fc3/Tdc.antt =====
-- drivers/misc/rsmu_fc3.c: measurements of the time-to-digital converter.
pub mod Unconfigured
use linux_ptp_driver_package.Prelude.{ℕ, zero, suc, bit_and, Bool, ◌||◌, if◌then◌else◌, ◌==◌, drop}
use linux_ptp_driver_package.Bus.Regmap.{Regmap}
use linux_ptp_driver_package.Bus.{M, ◌>>=◌, ◌>>◌, get, pure, throw, put}
use linux_ptp_driver_package.Misc.Fc3.{
  Fc3, read_or_keep, read_reg, tdc_fifo_sts, read_bytes, write_reg, tdc_fifo_read_req,
  time_clock_meas_ctrl, is_vfc3a, tdc_meas2offset, meas_mode_invalid, set_tdc_meas_mode, continuous,
  one_shot,
}
use linux_ptp_driver_package.Prelude.Int.{ℤ}
use linux_ptp_driver_package.Bus.Errno.{etimedout, eopnotsupp}
use linux_ptp_driver_package.Clockmatrix.Setup.{le_number}

abbrev pub fifo_empty : ℕ
fifo_empty = 0x1

abbrev pub fifo_full : ℕ
fifo_full = 0x2

module _ {Dev : Type 0} (regmap : Regmap Dev) where
  -- `read_poll_timeout_atomic` on the FIFO's status: how many reads fit into the five seconds before
  -- the last one is the first argument. The code of a read is dropped, and what it leaves in `val`,
  -- the byte before where it fails, is tested.
  unfoldable pub poll_fifo : ℕ → ℕ → M (Fc3 Dev) (Unit {0})
  poll_fifo zero val = do
    now ← read_or_keep regmap tdc_fifo_sts val
    if bit_and now fifo_empty == 0 then pure tt else throw etimedout
  poll_fifo (suc polls) val =
      let rest = λ (now : ℕ). poll_fifo polls now in
      (do
        now ← read_or_keep regmap tdc_fifo_sts val
        if bit_and now fifo_empty == 0 then pure tt else rest now)

  -- `stale` is the byte that `val` holds before the first read.
  unfoldable pub get_tdc_meas : ℕ → ℕ → M (Fc3 Dev) ℤ
  get_tdc_meas polls stale = do
    poll_fifo polls stale
    buf ← read_bytes regmap tdc_fifo_read_req 9
    s ← get
    pure (tdc_meas2offset s.time_ref_freq s.tdc_apll_freq (le_number (drop 1 buf)))

  unfoldable pub check_tdc_fifo_overrun : M (Fc3 Dev) (Unit {0})
  check_tdc_fifo_overrun = do
    val ← read_reg regmap tdc_fifo_sts
    if bit_and val fifo_full == 0 then pure tt else (do
      s ← get
      put (record s { meas_mode = meas_mode_invalid })
      set_tdc_meas_mode regmap continuous)

  unfoldable pub get_tdc_meas_one_shot : ℕ → ℕ → M (Fc3 Dev) ℤ
  get_tdc_meas_one_shot polls stale = do
    write_reg regmap time_clock_meas_ctrl 0x3
    get_tdc_meas polls stale

  unfoldable pub get_tdc_meas_continuous : ℕ → ℕ → M (Fc3 Dev) ℤ
  get_tdc_meas_continuous polls stale = do check_tdc_fifo_overrun; get_tdc_meas polls stale

  unfoldable pub rsmu_fc3_get_tdc_meas : ℕ → ℕ → Bool → M (Fc3 Dev) ℤ
  rsmu_fc3_get_tdc_meas polls stale is_continuous = do
    s ← get
    if is_vfc3a s.devid
        then throw eopnotsupp
        else if is_continuous
        then (do set_tdc_meas_mode regmap continuous; get_tdc_meas_continuous polls stale)
        else (do set_tdc_meas_mode regmap one_shot; get_tdc_meas_one_shot polls stale)
