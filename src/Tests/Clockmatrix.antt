-- ===== src/Tests/Clockmatrix.antt =====
-- The theorems of the ClockMatrix driver at concrete values.
use text.Mathlib.Text.{◌==◌ as str_eq}
use linux_ptp_driver_package.Prelude.{
  ℕ, ◌/◌, ◌≡◌, refl, ◌↔◌, none, some, List, [], ◌∷◌, arith, if◌then◌else◌, length,
}
use linux_ptp_driver_package.Clockmatrix.Time.{
  Timespec, timespec_to_char_array, tod_byte_count, char_array_to_timespec,
}
use linux_ptp_driver_package.Clockmatrix.Version.{
  Scan, idtcm_fw_version, AtLeast, idtcm_fw_version_lem,
}
use linux_ptp_driver_package.Clockmatrix.State.{
  Idtcm, v_default, v520, read_u8, write_u8, idtcm_write,
}
use linux_ptp_driver_package.Clockmatrix.Pll.{
  idtcm_set_pll_mode, idtcm_set_manual_reference, idtcm_get_pll_mode, idtcm_get_manual_reference,
  with_pll_mode, with_manual_reference,
}
use linux_ptp_driver_package.Prelude.Int.{pos}
use linux_ptp_driver_package.Tests.States.{left_by, blank}
use linux_ptp_driver_package.Clockmatrix.Time.RoundTrip.{
  timespec_to_char_array-char_array_to_timespec, char_array_to_timespec-timespec_to_char_array,
  FitsRegister,
}
use linux_ptp_driver_package.Tests.Chips.{memory, cells_from, store_from, memory_register}
use linux_ptp_driver_package.Clockmatrix.Pll.RoundTrip.{
  get_pll_mode-set_pll_mode, reference_address, get_manual_reference-set_manual_reference,
}

abbrev some_time : Timespec
some_time = record { tv_sec = pos 1700000000; tv_nsec = pos 999999999 }

some_time_fits : FitsRegister some_time 1700000000 999999999
some_time_fits = record {
  is_sec = refl;
  is_nsec = refl;
  sec_small = omega arith;
  nsec_small = omega arith;
}

char_array_to_timespec-timespec_to_char_array_example :
    (buf : List ℕ) × (timespec_to_char_array some_time tod_byte_count ≡ some buf)
    × (length buf ≡ tod_byte_count)
    × (char_array_to_timespec buf tod_byte_count ≡ some some_time)
char_array_to_timespec-timespec_to_char_array_example =
    char_array_to_timespec-timespec_to_char_array some_time some_time_fits

timespec_to_char_array-char_array_to_timespec_example :
    let buf = λ (b : ℕ). b ∷ 1 ∷ 2 ∷ 3 ∷ 4 ∷ 5 ∷ 6 ∷ 7 ∷ 8 ∷ 9 ∷ 255 ∷ [] in
    (ts : Timespec) × (char_array_to_timespec (buf 77) tod_byte_count ≡ some ts)
    × (timespec_to_char_array ts tod_byte_count ≡ some (buf 0))
timespec_to_char_array-char_array_to_timespec_example =
    timespec_to_char_array-char_array_to_timespec 77 1 2 3 4 5 6 7 8 9 255 (omega arith)

-- Reads the three numbers of the strings used here.
abbrev scan : Scan
scan version =
    if str_eq version "4.8.7"
    then some (4, 8, 7)
    else if str_eq version "5.2.0"
    then some (5, 2, 0)
    else if str_eq version "5.1.9"
    then some (5, 1, 9)
    else none

idtcm_fw_version_example :
    ((scan "5.1.9" ≡ none) → idtcm_fw_version scan "5.1.9" ≡ v_default)
    × ((a1 a2 a3 : ℕ)
        → scan "5.1.9" ≡ some (a1, a2, a3)
        → ((idtcm_fw_version scan "5.1.9" ≡ v520) ↔ AtLeast (a1, a2, a3) (5, 2, 0))
          × ((idtcm_fw_version scan "5.1.9" ≡ v_default) ↔ ¬ (AtLeast (a1, a2, a3) (4, 8, 7))))
idtcm_fw_version_example = idtcm_fw_version_lem scan refl refl "5.1.9"

abbrev mode_set : Idtcm (ℕ → ℕ)
mode_set = left_by (idtcm_set_pll_mode memory 0 2 blank)

get_pll_mode-set_pll_mode_example :
    let s = left_by (idtcm_get_pll_mode memory 0 mode_set) in
    (◌≡◌ {A = ℕ} 2 2) × (s ≡ record blank { dev = s.dev })
unfolding idtcm_set_pll_mode idtcm_get_pll_mode read_u8 write_u8 idtcm_write cells_from store_from
    with_pll_mode
get_pll_mode-set_pll_mode_example =
    get_pll_mode-set_pll_mode memory 0 2 blank (memory_register _) (omega arith) refl refl

abbrev reference_set : Idtcm (ℕ → ℕ)
reference_set = left_by (idtcm_set_manual_reference memory 0 18 blank)

get_manual_reference-set_manual_reference_example :
    let s = left_by (idtcm_get_manual_reference memory 0 reference_set) in
    (◌≡◌ {A = ℕ} 18 18)
    × ((memory_register (reference_address memory 0 blank)).cell s.dev / 32
        ≡ (memory_register (reference_address memory 0 blank)).cell blank.dev / 32)
    × (s ≡ record blank { dev = s.dev })
unfolding idtcm_set_manual_reference idtcm_get_manual_reference read_u8 write_u8 cells_from
    store_from with_manual_reference
get_manual_reference-set_manual_reference_example =
    get_manual_reference-set_manual_reference memory 0 18 blank (memory_register _) (omega arith)
      refl refl
