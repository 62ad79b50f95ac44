-- ===== src/Idt82p33/Time.antt =====
-- drivers/ptp/ptp_idt82p33.c: the time-of-day register, 10 bytes, and `struct timespec64`.
pub mod RoundTrip
use linux_ptp_driver_package.Prelude.{ℕ, List, [], ◌∷◌, ◌++◌, get_or}
use linux_ptp_driver_package.Clockmatrix.Time.{Timespec, le_bytes, shift_in}
use linux_ptp_driver_package.Prelude.Int.{pos, s32}

-- `nsec` is an `s32`; the seconds stay below 2 ^ 48.
unfoldable pub byte_array_to_timespec : List ℕ → Timespec
byte_array_to_timespec buf =
    let b = λ (i : ℕ). get_or buf i 0 in
    record {
      tv_sec = pos (shift_in (b 9) (b 8 ∷ b 7 ∷ b 6 ∷ b 5 ∷ b 4 ∷ []));
      tv_nsec = s32 (pos (shift_in (b 3) (b 2 ∷ b 1 ∷ b 0 ∷ [])));
    }

-- `nsec` is an `s32`, `sec` an `s64`.
unfoldable pub timespec_to_byte_array : Timespec → List ℕ
timespec_to_byte_array ts = le_bytes 4 (s32 ts.tv_nsec) ++ le_bytes 6 ts.tv_sec
