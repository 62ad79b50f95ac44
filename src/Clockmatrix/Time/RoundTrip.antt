-- ===== src/Clockmatrix/Time/RoundTrip.antt =====
-- The two conversions of the time-of-day register are inverse to each other.
use mathlib.Core.Path.{ap₂}
use native.Mathlib.Nat.{mod-eq_of_lt}
use linux_ptp_driver_package.Clockmatrix.Time.{
  Timespec, shift_in, char_array_to_timespec, timespec_to_char_array, le_bytes, tod_byte_count,
}
use linux_ptp_driver_package.Prelude.{
  ◌+◌, ◌*◌, ◌^◌, ◌<◌, ℕ, ◌≡◌, ap, List, ◌∷◌, ◌/◌, ◌%◌, refl, some, [], ◌++◌, arith, length, suc,
  sym, ◌∙◌,
}
use linux_ptp_driver_package.Prelude.Int.{pos, s32, s32_of_fits}
use linux_ptp_driver_package.Prelude.Bits.{or_field}

abbrev pub Bytes : List ℕ → Type 0
Bytes [] = Unit
Bytes (b ∷ bs) = (b < 256) × Bytes bs

abbrev sum_in : ℕ → List ℕ → ℕ
sum_in acc [] = acc
sum_in acc (b ∷ bs) = sum_in (acc * 256 + b) bs

-- `|=` of a byte below a shifted number adds it.
shift_in_sum : (acc : ℕ) (bs : List ℕ) → Bytes bs → shift_in acc bs ≡ sum_in acc bs
shift_in_sum acc [] h = refl
shift_in_sum acc (b ∷ bs) h = rw (or_field 8 acc b h.0) (shift_in_sum (acc * 256 + b) bs h.1)

-- A time that the register can hold: 48 bits of seconds, and nanoseconds of an `s32`.
pub record FitsRegister (ts : Timespec) (sec nsec : ℕ) : Type 0 where
  pub is_sec : ts.tv_sec ≡ pos sec
  pub is_nsec : ts.tv_nsec ≡ pos nsec
  pub sec_small : sec < 2 ^ 48
  pub nsec_small : nsec < 2 ^ 31

pub sec_bytes :
    (n : ℕ)
    → n < 2 ^ 48
    → shift_in (n / 256 / 256 / 256 / 256 / 256 % 256) (
        n / 256 / 256 / 256 / 256 % 256
        ∷ n / 256 / 256 / 256 % 256
        ∷ n / 256 / 256 % 256
        ∷ n / 256 % 256
        ∷ n % 256
        ∷ [])
      ≡ n
sec_bytes n h = omega (
  arith,
  shift_in_sum (n / 256 / 256 / 256 / 256 / 256 % 256)
      (n / 256 / 256 / 256 / 256 % 256
        ∷ n / 256 / 256 / 256 % 256
        ∷ n / 256 / 256 % 256
        ∷ n / 256 % 256
        ∷ n % 256
        ∷ [])
      (omega arith),
)

pub nsec_bytes :
    (n : ℕ)
    → n < 2 ^ 32
    → shift_in (n / 256 / 256 / 256 % 256) (n / 256 / 256 % 256 ∷ n / 256 % 256 ∷ n % 256 ∷ []) ≡ n
nsec_bytes n h = omega (
  arith,
  shift_in_sum (n / 256 / 256 / 256 % 256) (n / 256 / 256 % 256 ∷ n / 256 % 256 ∷ n % 256 ∷ [])
      (omega arith),
)

-- What is written to the register reads back: a time with non-negative seconds below 2 ^ 48 and
-- non-negative nanoseconds below 2 ^ 31 comes back from its 11 bytes.
pub char_array_to_timespec-timespec_to_char_array :
    (ts : Timespec) {sec nsec : ℕ}
    → FitsRegister ts sec nsec
    → (buf : List ℕ) × (timespec_to_char_array ts tod_byte_count ≡ some buf)
      × (length buf ≡ tod_byte_count)
      × (char_array_to_timespec buf tod_byte_count ≡ some ts)
unfolding char_array_to_timespec timespec_to_char_array le_bytes
char_array_to_timespec-timespec_to_char_array ts {sec} {nsec} f = (
  0 ∷ le_bytes 4 (pos nsec) ++ le_bytes 6 (pos sec),
  ap₂ (λ n s. some (0 ∷ le_bytes 4 n ++ le_bytes 6 s)) as_s32 f.is_sec,
  refl,
  ap₂ (λ s n. some (record { tv_sec = s; tv_nsec = n }))
      (ap pos (sec_bytes sec f.sec_small) ∙ sym f.is_sec)
      (ap pos (nsec_bytes nsec (omega (arith, f.nsec_small))) ∙ sym f.is_nsec),
)
  where
    as_s32 : s32 ts.tv_nsec ≡ pos nsec
    as_s32 = rw f.is_nsec (s32_of_fits (pos nsec) f.nsec_small)

-- The low bytes of a cast to `s32` are those of the number.
le_bytes_of_s32 : (n : ℕ) → n < 2 ^ 32 → le_bytes 4 (s32 (pos n)) ≡ le_bytes 4 (pos n)
unfolding le_bytes
le_bytes_of_s32 n h = ground arith

le_bytes_of_digit :
    (k x b : ℕ) → b < 256 → le_bytes (suc k) (pos (x * 256 + b)) ≡ b ∷ le_bytes k (pos x)
unfolding le_bytes
le_bytes_of_digit k x b h = rw (low x b h, rest x b h)
  where
    low : (x b : ℕ) → b < 256 → (x * 256 + b) % 2 ^ 8 ≡ b
    low x b h = omega arith

    rest : (x b : ℕ) → b < 256 → (x * 256 + b) / 2 ^ 8 ≡ x
    rest x b h = omega arith

le_byte : (b : ℕ) → b < 256 → le_bytes 1 (pos b) ≡ b ∷ []
unfolding le_bytes
le_byte b h = rw (mod-eq_of_lt h)

nsec_of_Bytes :
    (b4 b3 b2 b1 : ℕ)
    → Bytes (b4 ∷ b3 ∷ b2 ∷ b1 ∷ [])
    → le_bytes 4 (pos (shift_in b4 (b3 ∷ b2 ∷ b1 ∷ []))) ≡ b1 ∷ b2 ∷ b3 ∷ b4 ∷ []
nsec_of_Bytes b4 b3 b2 b1 h = rw (
  shift_in_sum b4 (b3 ∷ b2 ∷ b1 ∷ []) h.1,
  le_bytes_of_digit 3 ((b4 * 256 + b3) * 256 + b2) b1 h.1.1.1.0,
  le_bytes_of_digit 2 (b4 * 256 + b3) b2 h.1.1.0,
  le_bytes_of_digit 1 b4 b3 h.1.0,
  le_byte b4 h.0,
)

sec_of_Bytes :
    (b10 b9 b8 b7 b6 b5 : ℕ)
    → Bytes (b10 ∷ b9 ∷ b8 ∷ b7 ∷ b6 ∷ b5 ∷ [])
    → le_bytes 6 (pos (shift_in b10 (b9 ∷ b8 ∷ b7 ∷ b6 ∷ b5 ∷ [])))
      ≡ b5 ∷ b6 ∷ b7 ∷ b8 ∷ b9 ∷ b10 ∷ []
sec_of_Bytes b10 b9 b8 b7 b6 b5 h = rw (
  shift_in_sum b10 (b9 ∷ b8 ∷ b7 ∷ b6 ∷ b5 ∷ []) h.1,
  le_bytes_of_digit 5 ((((b10 * 256 + b9) * 256 + b8) * 256 + b7) * 256 + b6) b5 h.1.1.1.1.1.0,
  le_bytes_of_digit 4 (((b10 * 256 + b9) * 256 + b8) * 256 + b7) b6 h.1.1.1.1.0,
  le_bytes_of_digit 3 ((b10 * 256 + b9) * 256 + b8) b7 h.1.1.1.0,
  le_bytes_of_digit 2 (b10 * 256 + b9) b8 h.1.1.0,
  le_bytes_of_digit 1 b10 b9 h.1.0,
  le_byte b10 h.0,
)

-- What is read from the register can be written back: 11 bytes come back from their time, but for
-- the sub-nanoseconds in the first byte, which become 0.
pub timespec_to_char_array-char_array_to_timespec :
    (b0 b1 b2 b3 b4 b5 b6 b7 b8 b9 b10 : ℕ)
    → Bytes (b1 ∷ b2 ∷ b3 ∷ b4 ∷ b5 ∷ b6 ∷ b7 ∷ b8 ∷ b9 ∷ b10 ∷ [])
    → let buf = λ (b : ℕ). b ∷ b1 ∷ b2 ∷ b3 ∷ b4 ∷ b5 ∷ b6 ∷ b7 ∷ b8 ∷ b9 ∷ b10 ∷ [] in
      (ts : Timespec) × (char_array_to_timespec (buf b0) tod_byte_count ≡ some ts)
      × (timespec_to_char_array ts tod_byte_count ≡ some (buf 0))
unfolding char_array_to_timespec timespec_to_char_array
timespec_to_char_array-char_array_to_timespec b0 b1 b2 b3 b4 b5 b6 b7 b8 b9 b10 h = (
  record {
    tv_sec = pos (shift_in b10 (b9 ∷ b8 ∷ b7 ∷ b6 ∷ b5 ∷ []));
    tv_nsec = pos (shift_in b4 (b3 ∷ b2 ∷ b1 ∷ []));
  },
  refl,
  ap₂ (λ n s. some (0 ∷ n ++ s)) nsec sec,
)
  where
    nsec : le_bytes 4 (s32 (pos (shift_in b4 (b3 ∷ b2 ∷ b1 ∷ [])))) ≡ b1 ∷ b2 ∷ b3 ∷ b4 ∷ []
    nsec =
        le_bytes_of_s32 (shift_in b4 (b3 ∷ b2 ∷ b1 ∷ []))
          (omega (arith, shift_in_sum b4 (b3 ∷ b2 ∷ b1 ∷ []) (omega arith)))
        ∙ nsec_of_Bytes b4 b3 b2 b1 (omega arith)

    sec :
        le_bytes 6 (pos (shift_in b10 (b9 ∷ b8 ∷ b7 ∷ b6 ∷ b5 ∷ [])))
        ≡ b5 ∷ b6 ∷ b7 ∷ b8 ∷ b9 ∷ b10 ∷ []
    sec = sec_of_Bytes b10 b9 b8 b7 b6 b5 (omega arith)
