-- ===== src/Tests/Firmware.antt =====
-- The theorems of the firmware loader at concrete values.
use linux_ptp_driver_package.Bus.{After}
use linux_ptp_driver_package.Tests.States.{blank}
use linux_ptp_driver_package.Prelude.{
  ◌+◌, ◌%◌, ◌^◌, ◌≤◌, ◌<◌, ℕ, ◌≡◌, refl, ◌↔◌, true, List, [], ◌∷◌, arith,
}
use linux_ptp_driver_package.Clockmatrix.Firmware.{
  Fwrc, contains_full_configuration, check_and_set_masks, load_records,
}
use linux_ptp_driver_package.Clockmatrix.Firmware.Masks.{HasMasks, check_and_set_masks-HasMasks}
use linux_ptp_driver_package.Tests.Chips.{store_from, memory}
use linux_ptp_driver_package.Clockmatrix.State.{v520}
use linux_ptp_driver_package.Clockmatrix.Firmware.Frame.{
  IsProgrammable, IsKept, AfterWrite, load_records-IsKept,
}
use linux_ptp_driver_package.Clockmatrix.Firmware.Count.{
  programmable_below, programmable_records, contains_full_configuration_lem,
}
use linux_ptp_driver_package.Clockmatrix.Registers.{scsr_base}

abbrev image : List Fwrc
image =
    record { hiaddr = 0xc0; loaddr = 0x24; value = 7; reserved = 0 }
    ∷ record { hiaddr = 0xff; loaddr = 0xa8; value = 9; reserved = 0 }
    ∷ []

contains_full_configuration_example :
    (contains_full_configuration v520 image ≡ true)
    ↔ (programmable_below v520 (2 ^ 16) ≤ programmable_records v520 image)
contains_full_configuration_example = contains_full_configuration_lem v520 image

blank-HasMasks : HasMasks blank
blank-HasMasks = record {
  some_tod = ground arith;
  four_tods = ground arith;
  pll_in = λ i h. ground arith;
  mask_in = λ i h. ground arith;
}

check_and_set_masks-HasMasks_example : After HasMasks (check_and_set_masks 0xFFB1 0x80 blank)
check_and_set_masks-HasMasks_example =
    check_and_set_masks-HasMasks 0xFFB1 0x80 blank (omega arith) blank-HasMasks

-- What stands below the GPIO user control stays.
abbrev SystemKept : (ℕ → ℕ) → Type 0
SystemKept d = d 0x2010c000 ≡ 3

kept :
    (a v : ℕ) (d : ℕ → ℕ)
    → IsProgrammable v520 a
    → v < 256
    → SystemKept d
    → AfterWrite SystemKept (memory.bulk_write ((scsr_base + a) % 2 ^ 32) (v ∷ []) d)
unfolding store_from
kept a v d p h k = ground arith

load_records-IsKept_example :
    After (IsKept memory v520 SystemKept kept) (load_records memory v520 image blank)
load_records-IsKept_example =
    load_records-IsKept memory v520 SystemKept kept image blank (omega arith) (blank-HasMasks, refl)
