-- ===== src/Clockmatrix/Adjtime.antt =====
-- drivers/ptp/ptp_clockmatrix.c: shifting and setting the clock of a channel, as the kernel calls it.
use linux_ptp_driver_package.Clockmatrix.State.{Idtcm, idtcm_write}
use linux_ptp_driver_package.Prelude.{ℕ, if◌then◌else◌, replicate}
use linux_ptp_driver_package.Prelude.Int.{ℤ, s64, pos, abs, ltb_ℤ, neg, ◌+ℤ◌, ◌-ℤ◌}
use linux_ptp_driver_package.Bus.Regmap.{Regmap}
use linux_ptp_driver_package.Clockmatrix.Kernel.{Kernel}
use linux_ptp_driver_package.Bus.{M, ◌>>=◌, ◌>>◌, get, ignore, throw, put, pure}
use linux_ptp_driver_package.Clockmatrix.Time.{Timespec, tod_byte_count}
use linux_ptp_driver_package.Clockmatrix.Tod.{
  raw_gettime_immediate, raw_settime, set_dpll_hw_tod, scsr_tod_wr_type_sel_absolute, now,
  hw_tod_wr_trig_sel_msb, scsr_tod_wr_type_sel_delta_minus, scsr_tod_wr_type_sel_delta_plus,
}
use linux_ptp_driver_package.Clockmatrix.Sync.{idtcm_sync_pps_output}
use linux_ptp_driver_package.Clockmatrix.Registers.{hw_dpll_tod_ovr_0}
use linux_ptp_driver_package.Clockmatrix.PullIn.{do_phase_pull_in}
use linux_ptp_driver_package.Bus.Errno.{ebusy}

abbrev pub phase_pull_in_threshold_ns_deprecated : ℕ
phase_pull_in_threshold_ns_deprecated = 150000

abbrev pub phase_pull_in_threshold_ns : ℕ
phase_pull_in_threshold_ns = 15000

-- `abs(delta)` and `-delta` of an `s64`.
abbrev pub abs_s64 : ℤ → ℤ
abs_s64 delta = s64 (pos (abs delta))

module _ {Dev : Type 0} (regmap : Regmap Dev) (kernel : Kernel Dev) (i : ℕ) where
  -- How long one write of the time of day takes: `t` is the lowest of the durations so far.
  unfoldable pub time_one_write : M (Idtcm Dev) ℤ
  time_one_write = do
    idtcm ← get
    start ← now regmap kernel
    idtcm_write regmap (idtcm.channel i).hw_dpll_n hw_dpll_tod_ovr_0 (replicate tod_byte_count 0)
    stop ← now regmap kernel
    pure (stop -ℤ start)

  -- The loop of two rounds, written out: TOD_WRITE_OVERHEAD_COUNT_MAX is 2.
  unfoldable pub set_tod_write_overhead : M (Idtcm Dev) (Unit {0})
  set_tod_write_overhead = do
    before ← get
    ignore (
        idtcm_write regmap (before.channel i).hw_dpll_n hw_dpll_tod_ovr_0
          (replicate tod_byte_count 0))
    first ← time_one_write
    second ← time_one_write
    idtcm ← get
    put (record idtcm { tod_write_overhead_ns = if ltb_ℤ second first then second else first })

  unfoldable pub raw_settime_deprecated : Timespec → M (Idtcm Dev) (Unit {0})
  raw_settime_deprecated ts = do
    set_dpll_hw_tod regmap kernel i ts hw_tod_wr_trig_sel_msb
    idtcm_sync_pps_output regmap i

  unfoldable pub raw_adjtime_deprecated : ℤ → M (Idtcm Dev) (Unit {0})
  raw_adjtime_deprecated delta = do
    before ← get
    if ltb_ℤ (abs_s64 delta) (pos phase_pull_in_threshold_ns_deprecated)
        then do_phase_pull_in regmap i delta (before.channel i).max_adj
        else (do
          put (record before { calculate_overhead_flag = 1 })
          set_tod_write_overhead
          ts ← raw_gettime_immediate regmap kernel i
          raw_settime_deprecated
              (kernel.ns_to_timespec64 (s64 (kernel.timespec64_to_ns ts +ℤ delta))))

  unfoldable pub idtcm_gettime : M (Idtcm Dev) Timespec
  idtcm_gettime = raw_gettime_immediate regmap kernel i

  unfoldable pub idtcm_settime : Timespec → M (Idtcm Dev) (Unit {0})
  idtcm_settime ts = raw_settime regmap kernel i ts scsr_tod_wr_type_sel_absolute

  unfoldable pub idtcm_settime_deprecated : Timespec → M (Idtcm Dev) (Unit {0})
  idtcm_settime_deprecated ts = raw_settime_deprecated ts

  unfoldable pub idtcm_adjtime_deprecated : ℤ → M (Idtcm Dev) (Unit {0})
  idtcm_adjtime_deprecated delta = raw_adjtime_deprecated delta

  unfoldable pub idtcm_adjtime : ℤ → M (Idtcm Dev) (Unit {0})
  idtcm_adjtime delta = do
    before ← get
    if (before.channel i).phase_pull_in
        then throw ebusy
        else if ltb_ℤ (abs_s64 delta) (pos phase_pull_in_threshold_ns)
        then do_phase_pull_in regmap i delta (before.channel i).max_adj
        else if ltb_ℤ delta (pos 0)
        then raw_settime regmap kernel i (kernel.ns_to_timespec64 (s64 (neg delta)))
            scsr_tod_wr_type_sel_delta_minus
        else raw_settime regmap kernel i (kernel.ns_to_timespec64 delta)
            scsr_tod_wr_type_sel_delta_plus
