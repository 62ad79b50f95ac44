-- ===== src/Idt82p33/Overhead.antt =====
-- drivers/ptp/ptp_idt82p33.c: how long it takes to write the time of day.
use linux_ptp_driver_package.Prelude.{ℕ, ◌+◌, ◌-◌, zero, suc}
use linux_ptp_driver_package.Bus.Regmap.{Regmap}
use linux_ptp_driver_package.Clockmatrix.Kernel.{Kernel}
use linux_ptp_driver_package.Bus.{M, ok, pure, ◌>>=◌, get, ◌>>◌, fail, put}
use linux_ptp_driver_package.Prelude.Int.{ℤ, ◌+ℤ◌, pos, ◌-ℤ◌, quot, ◌*ℤ◌}
use linux_ptp_driver_package.Idt82p33.State.{Idt82p33, write_u8, read_u8, tod_byte_count}
use linux_ptp_driver_package.Clockmatrix.Time.{Timespec}
use linux_ptp_driver_package.Idt82p33.Tod.{now, raw_settime, raw_gettime}

abbrev pub max_measurment_count : ℕ
max_measurment_count = 5

module _ {Dev : Type 0} (regmap : Regmap Dev) (kernel : Kernel Dev) (i : ℕ) where
  -- One round of a measurement: what the access took is added to the sum. The clock is read again
  -- before the code of the access is tested.
  unfoldable pub timed : M (Idt82p33 Dev) (Unit {0}) → ℤ → M (Idt82p33 Dev) ℤ
  timed access total_ns s0 =
      let (start, d0) = kernel.ktime_get_raw s0.dev in
      elim (access (record s0 { dev = d0 })) [
        | ok u s1 ↦
            let (stop, d1) = kernel.ktime_get_raw s1.dev in
            ok (total_ns +ℤ (stop -ℤ start)) (record s1 { dev = d1 })
        | fail e s1 ↦
            let (stop, d1) = kernel.ktime_get_raw s1.dev in fail e (record s1 { dev = d1 })
      ]

  -- The sum of `left` rounds, the access of round `n` being `access n`.
  unfoldable pub sum_rounds : (ℕ → M (Idt82p33 Dev) (Unit {0})) → ℕ → ℕ → ℤ → M (Idt82p33 Dev) ℤ
  sum_rounds access n zero total_ns = pure total_ns
  sum_rounds access n (suc left) total_ns =
      let rest = λ (sum : ℤ). sum_rounds access (n + 1) left sum in
      timed (access n) total_ns >>= rest

  unfoldable pub measure_one_byte_write_overhead : M (Idt82p33 Dev) ℤ
  measure_one_byte_write_overhead = do
    s ← get
    total_ns ←
        sum_rounds (λ n. write_u8 regmap (s.channel i).dpll_tod_trigger 0) 0 max_measurment_count
          (pos 0)
    pure (quot total_ns max_measurment_count)

  unfoldable pub measure_one_byte_read_overhead : M (Idt82p33 Dev) ℤ
  measure_one_byte_read_overhead = do
    s ← get
    total_ns ←
        sum_rounds (λ n. read_u8 regmap (s.channel i).dpll_tod_trigger >>= λ trigger. pure tt) 0
          max_measurment_count (pos 0)
    pure (quot total_ns max_measurment_count)

  -- The inner loop: byte `n`, the round of the outer loop, is written `left` times.
  unfoldable pub write_same : ℕ → ℕ → ℕ → M (Idt82p33 Dev) (Unit {0})
  write_same a b zero = pure tt
  write_same a b (suc left) = let rest = write_same a b left in (write_u8 regmap a b >> rest)

  -- The array that is written is not initialised: `stale n` stands for its byte `n`. A failure of the
  -- inner loop returns with no look at the clock.
  unfoldable pub nine_byte_rounds : (ℕ → ℕ) → ℕ → ℕ → ℤ → M (Idt82p33 Dev) ℤ
  nine_byte_rounds stale n zero total_ns = pure total_ns
  nine_byte_rounds stale n (suc left) total_ns =
      let rest = λ (sum : ℤ). nine_byte_rounds stale (n + 1) left sum in
      (do
        s ← get
        start ← now regmap kernel
        write_same ((s.channel i).dpll_tod_cnfg + n) (stale n) (tod_byte_count - 1)
        stop ← now regmap kernel
        rest (total_ns +ℤ (stop -ℤ start)))

  unfoldable pub measure_tod_write_9_byte_overhead : (ℕ → ℕ) → M (Idt82p33 Dev) (Unit {0})
  measure_tod_write_9_byte_overhead stale = do
    before ← get
    put (record before { tod_write_overhead_ns = pos 0 })
    total_ns ← nine_byte_rounds stale 0 max_measurment_count (pos 0)
    s ← get
    put (record s { tod_write_overhead_ns = quot total_ns max_measurment_count })

  unfoldable pub measure_settime_gettime_gap_overhead : M (Idt82p33 Dev) ℤ
  measure_settime_gettime_gap_overhead = do
    let ts1 : Timespec = record { tv_sec = pos 0; tv_nsec = pos 0 }
    raw_settime regmap kernel i ts1
    ts2 ← raw_gettime regmap kernel i
    pure (kernel.timespec64_to_ns ts2 -ℤ kernel.timespec64_to_ns ts1)

  unfoldable pub measure_tod_write_overhead : (ℕ → ℕ) → M (Idt82p33 Dev) (Unit {0})
  measure_tod_write_overhead stale = do
    before ← get
    put (record before { tod_write_overhead_ns = pos 0 })
    gap_ns ← measure_settime_gettime_gap_overhead
    one_byte_write_ns ← measure_one_byte_write_overhead
    one_byte_read_ns ← measure_one_byte_read_overhead
    measure_tod_write_9_byte_overhead stale
    s ← get
    let trailing_overhead_ns = (gap_ns -ℤ (pos 2 *ℤ one_byte_write_ns)) -ℤ one_byte_read_ns
    put (record s { tod_write_overhead_ns = s.tod_write_overhead_ns -ℤ trailing_overhead_ns })
