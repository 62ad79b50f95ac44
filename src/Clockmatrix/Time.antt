-- ===== src/Clockmatrix/Time.antt =====
-- drivers/ptp/ptp_clockmatrix.c: the time-of-day register, 11 bytes, and `struct timespec64`.
pub mod RoundTrip
pub mod Bytes
use linux_ptp_driver_package.Prelude.{
  ℕ, ◌*◌, zero, suc, bit_or, Option, none, some, List, [], ◌∷◌, ◌++◌, get_or, if◌then◌else◌, ltb,
}
use linux_ptp_driver_package.Prelude.Int.{ℤ, low_bits, pos, asr, s32}

abbrev pub tod_byte_count : ℕ
tod_byte_count = 11

-- `struct timespec64`.
pub record Timespec : Type 0 where
  pub tv_sec : ℤ
  pub tv_nsec : ℤ

-- `acc <<= 8; acc |= buf[..];` for each byte of the list, the first one first.
abbrev pub shift_in : ℕ → List ℕ → ℕ
shift_in acc [] = acc
shift_in acc (b ∷ bs) = shift_in (bit_or (acc * 256) b) bs

-- `none` is the return of 1. The sums stay below 2 ^ 32 and 2 ^ 48, so no cast cuts anything off.
unfoldable pub char_array_to_timespec : List ℕ → ℕ → Option Timespec
char_array_to_timespec buf count =
    let b = λ (i : ℕ). get_or buf i 0 in
    if ltb count tod_byte_count
    then none
    else some (record {
      tv_sec = pos (shift_in (b 10) (b 9 ∷ b 8 ∷ b 7 ∷ b 6 ∷ b 5 ∷ []));
      tv_nsec = pos (shift_in (b 4) (b 3 ∷ b 2 ∷ b 1 ∷ []));
    })

-- `for (i = 0; i < n; i++) { buf[i] = v & 0xff; v >>= 8; }`.
unfoldable pub le_bytes : ℕ → ℤ → List ℕ
le_bytes zero v = []
le_bytes (suc n) v = low_bits 8 v ∷ le_bytes n (asr v 8)

-- `none` is the return of 1. `nsec` is an `s32`, `sec` an `s64`.
unfoldable pub timespec_to_char_array : Timespec → ℕ → Option (List ℕ)
timespec_to_char_array ts count =
    if ltb count tod_byte_count
    then none
    else some (0 ∷ le_bytes 4 (s32 ts.tv_nsec) ++ le_bytes 6 ts.tv_sec)
