-- ===== src/Idt82p33/Time/RoundTrip.antt =====
-- The two conversions of the ten-byte time-of-day register are inverse to each other.
use mathlib.Core.Path.{ap₂}
use linux_ptp_driver_package.Prelude.{ℕ, ◌≡◌, refl, sym, ap, ◌∙◌, arith, length, ◌++◌}
use linux_ptp_driver_package.Idt82p33.Time.{byte_array_to_timespec, timespec_to_byte_array}
use linux_ptp_driver_package.Clockmatrix.Time.{le_bytes, Timespec}
use linux_ptp_driver_package.Clockmatrix.Time.RoundTrip.{FitsRegister, sec_bytes, nsec_bytes}
use linux_ptp_driver_package.Idt82p33.State.{tod_byte_count}
use linux_ptp_driver_package.Prelude.Int.{s32, pos, s32_of_fits}

-- What is written to the register reads back: a time with non-negative seconds below 2 ^ 48 and
-- non-negative nanoseconds below 2 ^ 31 has ten bytes, and comes back from them.
pub byte_array_to_timespec-timespec_to_byte_array :
    (ts : Timespec) {sec nsec : ℕ}
    → FitsRegister ts sec nsec
    → (length (timespec_to_byte_array ts) ≡ tod_byte_count)
      × (byte_array_to_timespec (timespec_to_byte_array ts) ≡ ts)
unfolding byte_array_to_timespec timespec_to_byte_array le_bytes
byte_array_to_timespec-timespec_to_byte_array ts {sec} {nsec} f = (
  refl,
  ap₂ (λ n s. byte_array_to_timespec (le_bytes 4 n ++ le_bytes 6 s)) as_s32 f.is_sec
      ∙ ap₂ (λ s n. record { tv_sec = s; tv_nsec = n })
          (ap pos (sec_bytes sec f.sec_small) ∙ sym f.is_sec)
          (ap (λ n. s32 (pos n)) (nsec_bytes nsec (omega (arith, f.nsec_small)))
            ∙ s32_of_fits (pos nsec) f.nsec_small
            ∙ sym f.is_nsec),
)
  where
    as_s32 : s32 ts.tv_nsec ≡ pos nsec
    as_s32 = rw f.is_nsec (s32_of_fits (pos nsec) f.nsec_small)
