-- ===== src/Clockmatrix/Kernel.antt =====
-- What the ClockMatrix driver calls of the kernel's time and pin functions, an interface.
use linux_ptp_driver_package.Clockmatrix.Time.{Timespec}
use linux_ptp_driver_package.Prelude.Int.{ℤ, pos}
use linux_ptp_driver_package.Prelude.{ℕ, ◌/◌, ◌%◌, ◌<◌, ◌≡◌}

-- `ktime_get_raw()` is read from the world behind the chip, which goes on meanwhile; a `ktime_t` is
-- its nanoseconds. `find_pin` is `ptp_find_pin` on the clock of a
-- channel, for external time stamps and a ToD.
pub record Kernel (Dev : Type 0) : Type 0 where
  pub ktime_get_raw : Dev → ℤ × Dev
  pub timespec64_to_ns : Timespec → ℤ
  pub ns_to_timespec64 : ℤ → Timespec
  pub timespec64_add_ns : Timespec → ℤ → Timespec
  pub find_pin : ℕ → ℕ → ℤ

-- What the kernel documents of them: a time of nanoseconds is whole seconds and a rest below one,
-- and adding nothing to such a time leaves it.
pub record IsTime {Dev : Type 0} (kernel : Kernel Dev) : Type 0 where
  pub split : (n : ℕ) → (kernel.ns_to_timespec64 (pos n)).tv_sec ≡ pos (n / 1000000000)
  pub rest : (n : ℕ) → (kernel.ns_to_timespec64 (pos n)).tv_nsec ≡ pos (n % 1000000000)
  pub add_zero :
      (ts : Timespec) (n : ℕ)
      → ts.tv_nsec ≡ pos n
      → n < 1000000000
      → kernel.timespec64_add_ns ts (pos 0) ≡ ts
