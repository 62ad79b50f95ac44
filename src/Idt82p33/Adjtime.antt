-- ===== src/Idt82p33/Adjtime.antt =====
-- drivers/ptp/ptp_idt82p33.c: shifting the clock of a channel.
use linux_ptp_driver_package.Prelude.{ℕ, ◌-◌, ◌*◌, ◌%◌, true, if◌then◌else◌, ◌==◌}
use linux_ptp_driver_package.Clockmatrix.Time.{Timespec}
use linux_ptp_driver_package.Bus.Regmap.{Regmap}
use linux_ptp_driver_package.Prelude.Int.{ℤ, ltb_ℤ, pos, s64, ◌+ℤ◌, ◌*ℤ◌, abs, s32}
use linux_ptp_driver_package.Clockmatrix.Kernel.{Kernel}
use linux_ptp_driver_package.Bus.{M, ◌>>=◌, ignore, get, fail, ◌>>◌, put, pure, ok}
use linux_ptp_driver_package.Idt82p33.State.{Idt82p33, idt82p33_write, request, schedule_adjtime}
use linux_ptp_driver_package.Idt82p33.Tod.{raw_gettime, raw_settime}
use linux_ptp_driver_package.Bus.Errno.{ebusy}
use linux_ptp_driver_package.Idt82p33.Time.{timespec_to_byte_array}
use linux_ptp_driver_package.Idt82p33.Frequency.{idt82p33_start_ddco}
use linux_ptp_driver_package.Idt82p33.Mode.{set_tod_trigger, hw_tod_trig_sel_tod_pps}

abbrev pub immediate_snap_threshold_ns : ℕ
immediate_snap_threshold_ns = 50000

abbrev pub nsec_per_sec : ℕ
nsec_per_sec = 1000000000

-- The nanoseconds of the pulse that will load the time: the one after next if the next is less than
-- 5 ms away.
abbrev pub next_pulse : Timespec → ℤ → ℤ
next_pulse ts delta_ns =
    let late = ltb_ℤ (pos (nsec_per_sec - 5 * 1000000)) ts.tv_nsec in
    s64 ((((ts.tv_sec +ℤ pos (if late then 2 else 1)) *ℤ pos nsec_per_sec) +ℤ delta_ns) +ℤ pos 32)

module _ {Dev : Type 0} (regmap : Regmap Dev) (kernel : Kernel Dev) (i : ℕ) where
  unfoldable pub raw_adjtime_immediate : ℤ → M (Idt82p33 Dev) (Unit {0})
  raw_adjtime_immediate delta_ns = do
    before ← get
    put (record before { calculate_overhead_flag = 1 })
    ts ← raw_gettime regmap kernel i
    s ← get
    raw_settime regmap kernel i (
        kernel.ns_to_timespec64
          (s64 (kernel.timespec64_to_ns ts +ℤ s64 (delta_ns +ℤ s.tod_write_overhead_ns))))

  -- The time of the next pulse is written ahead of it, and loaded by it. A second later the work
  -- that aligns the outputs follows, unless the shift is by whole seconds. The 6 ms of sleep are left
  -- out.
  unfoldable pub raw_adjtime_internal_triggered : ℤ → M (Idt82p33 Dev) (Unit {0})
  raw_adjtime_internal_triggered delta_ns = do
    ts ← raw_gettime regmap kernel i
    s ← get
    idt82p33_write regmap (s.channel i).dpll_tod_cnfg
        (timespec_to_byte_array (kernel.ns_to_timespec64 (next_pulse ts delta_ns)))
    if abs delta_ns % nsec_per_sec == 0 then pure tt else request (schedule_adjtime i)
    set_tod_trigger regmap i hw_tod_trig_sel_tod_pps true

  -- The delayed work.
  unfoldable pub adjtime_workaround : M (Idt82p33 Dev) (Unit {0})
  adjtime_workaround = ignore (raw_adjtime_internal_triggered (pos 0))

  -- `phase_snap_threshold` is the module's parameter. `idt82p33_start_ddco` takes an `s32`.
  unfoldable pub idt82p33_adjtime : ℕ → ℤ → M (Idt82p33 Dev) (Unit {0})
  idt82p33_adjtime phase_snap_threshold delta_ns s =
      if (s.channel i).ddco
      then fail ebusy s
      else if ltb_ℤ (s64 (pos (abs delta_ns))) (pos phase_snap_threshold)
      then idt82p33_start_ddco regmap i (s32 delta_ns) s
      else elim (raw_adjtime_internal_triggered delta_ns s) [
        | ok u t ↦ ok u t
        | fail e t ↦
            if ltb_ℤ (pos immediate_snap_threshold_ns) delta_ns
            then raw_adjtime_immediate delta_ns t
            else fail e t
      ]
