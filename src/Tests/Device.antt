-- ===== src/Tests/Device.antt =====
-- The theorems of the character device at concrete values.
use linux_ptp_driver_package.Tests.Chips.{memory, memory_register, cells_from, store_from}
use linux_ptp_driver_package.Tests.States.{left_by}
use linux_ptp_driver_package.Prelude.{
  ◌/◌, ◌%◌, ◌≤◌, ◌<◌, ℕ, ◌≡◌, refl, none, [], ◌∷◌, arith, ◌+◌, length, get_or, if◌then◌else◌, ltb,
}
use linux_ptp_driver_package.Misc.Cm.{
  ffo_of, Rsmu, rsmu_cm_set_holdover_mode, PriorityEntry, group_of, get_dpll_reg_offset, read_reg,
  write_reg, with_holdover, rsmu_cm_set_combomode, get_dpll_ctrl_reg_offset, e_combomode_max,
  rsmu_cm_set_clock_priorities, dpll_ref_priority_0, set_entries, clear_entries, max_ref_priorities,
}
use linux_ptp_driver_package.Clockmatrix.Time.{le_bytes}
use linux_ptp_driver_package.Clockmatrix.State.{v520}
use linux_ptp_driver_package.Prelude.Int.{negsuc, ◌*ℤ◌, pos}
use linux_ptp_driver_package.Misc.Cm.Fields.{
  ffo_of-le_bytes, dpll_mode_address, rsmu_cm_set_holdover_mode_lem, combo_address,
  rsmu_cm_set_combomode_lem,
}
use linux_ptp_driver_package.Misc.Cm.PriorityCells.{PriorityRegisters, bytes_from, AreValid}
use linux_ptp_driver_package.Misc.Cm.PriorityRegisters.{rsmu_cm_set_clock_priorities_lem}

ffo_of-le_bytes_example : ffo_of (le_bytes 6 (negsuc 8999)) ≡ negsuc 8999 *ℤ pos 111
ffo_of-le_bytes_example = ffo_of-le_bytes (negsuc 8999) (omega arith)

abbrev device : Rsmu (ℕ → ℕ)
device = record { fw_version = v520; dev = λ a. 0x2c }

abbrev held : Rsmu (ℕ → ℕ)
held = left_by (rsmu_cm_set_holdover_mode memory 2 1 device)

rsmu_cm_set_holdover_mode_example :
    (2 < 8)
    × ((memory_register (dpll_mode_address memory v520 2)).cell held.dev % 8 ≡ 3)
    × ((memory_register (dpll_mode_address memory v520 2)).cell held.dev / 8
        ≡ (memory_register (dpll_mode_address memory v520 2)).cell device.dev / 8)
    × (held.fw_version ≡ v520)
unfolding rsmu_cm_set_holdover_mode get_dpll_reg_offset read_reg write_reg with_holdover cells_from
    store_from
rsmu_cm_set_holdover_mode_example =
    rsmu_cm_set_holdover_mode_lem memory 2 1 device
      (memory_register (dpll_mode_address memory v520 2)) refl

abbrev combined : Rsmu (ℕ → ℕ)
combined = left_by (rsmu_cm_set_combomode memory 3 2 device)

rsmu_cm_set_combomode_example :
    (3 < 8)
    × (2 < e_combomode_max)
    × ((memory_register (combo_address memory 3)).cell combined.dev % 2 ≡ 1)
    × ((memory_register (combo_address memory 3)).cell combined.dev / 2
        ≡ (memory_register (combo_address memory 3)).cell device.dev / 2)
    × (combined.fw_version ≡ v520)
unfolding rsmu_cm_set_combomode get_dpll_ctrl_reg_offset read_reg write_reg cells_from store_from
rsmu_cm_set_combomode_example =
    rsmu_cm_set_combomode_lem memory 3 2 device (memory_register (combo_address memory 3)) refl

abbrev first : PriorityEntry
first = record { clock_index = 5; priority = 1 }

abbrev second : PriorityEntry
second = record { clock_index = 7; priority = 1 }

-- The priority registers of DPLL 2 in the memory.
cells_apart : PriorityRegisters memory 0x2010c43c 0x2010c477
unfolding cells_from store_from
cells_apart = record {
  cell =
      λ i d. if ltb i max_ref_priorities then d (0x2010c43c + dpll_ref_priority_0 + i) % 256 else 0;
  writes = λ i v d small byte. (ground arith, λ j other. ground arith);
  mode_reads = λ d j. refl;
  mode_writes = λ v d j. ground arith;
}

abbrev ordered : Rsmu (ℕ → ℕ)
ordered = left_by (rsmu_cm_set_clock_priorities memory 2 (first ∷ second ∷ []) device)

rsmu_cm_set_clock_priorities_example :
    (2 < 8)
    × (length (first ∷ second ∷ []) ≤ max_ref_priorities)
    × AreValid (first ∷ second ∷ [])
    × ((j : ℕ)
        → j < max_ref_priorities
        → cells_apart.cell j ordered.dev ≡ get_or (bytes_from none 0 (first ∷ second ∷ [])) j 0)
unfolding rsmu_cm_set_clock_priorities get_dpll_reg_offset read_reg write_reg set_entries
    clear_entries group_of cells_from store_from
rsmu_cm_set_clock_priorities_example =
    rsmu_cm_set_clock_priorities_lem memory 2 (first ∷ second ∷ []) device cells_apart refl

-- Two entries of one priority are in group 1.
first_bytes : bytes_from none 0 (first ∷ second ∷ []) ≡ 0x4b ∷ 0x4f ∷ []
unfolding bytes_from group_of
first_bytes = refl
