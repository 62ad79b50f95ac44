-- ===== src/Tests/Families.antt =====
-- The theorems of the Sabre and FemtoClock3 operations, at a memory behind the register map.
use linux_ptp_driver_package.Tests.Chips.{
  memory, memory_bytes, memory_register, store_from, cells_from,
}
use linux_ptp_driver_package.Prelude.{
  ◌+◌, ◌-◌, ◌*◌, ◌/◌, ◌%◌, ◌^◌, ◌≤◌, ◌<◌, ℕ, ◌≡◌, refl, ◌⊎◌, inl, false, none, List, [], ◌∷◌, arith,
  length,
}
use linux_ptp_driver_package.Misc.Sabre.{
  read_reg, write_reg, reg_rmw, Sabre, rsmu_sabre_set_holdover_mode,
  reg_dpll_operating_mode_cnfg_offset, reg_dpll_holdover_mode_cnfg_msb_offset,
  set_manual_holdover_mode, rmw_reg_dpll_holdover_mode_cnfg_msb, set_dpll_oper_mode,
  rmw_reg_dpll_operating_mode_cnfg, restore_mode, rsmu_get_bitfield,
}
use linux_ptp_driver_package.Misc.Sabre.Holdover.{
  HoldoverRegisters, mode_cell, rsmu_sabre_set_holdover_mode_lem,
  rsmu_sabre_set_holdover_mode-twice,
}
use linux_ptp_driver_package.Misc.Fc3.{
  Fc3, vfc3w, read_device_id, read_bytes, set_tdc_meas_mode, tdc_meas2offset,
}
use linux_ptp_driver_package.Misc.Fc3.References.Asked.{RefSelOf, rsmu_fc3_set_clock_priorities_lem}
use linux_ptp_driver_package.Misc.Cm.{PriorityEntry}
use linux_ptp_driver_package.Misc.Fc3.References.{
  rsmu_fc3_set_clock_priorities, max_dpll_index, ref_sel_cnfg, max_num_ref_priority, priority_word,
  clock_index_to_ref_index, read_ref_sel, with_priority, find_ref,
}
use linux_ptp_driver_package.Misc.Fc3.Firmware.{rsmu_fc3_init, zeroed, load_firmware}
use linux_ptp_driver_package.Tests.States.{left_by}
use linux_ptp_driver_package.Bus.{fail, ok, Outcome}
use linux_ptp_driver_package.Misc.Fc3.Tdc.{
  rsmu_fc3_get_tdc_meas, get_tdc_meas_one_shot, get_tdc_meas, poll_fifo,
}
use linux_ptp_driver_package.Bus.Errno.{einval}
use linux_ptp_driver_package.Clockmatrix.Setup.{le_number}
use linux_ptp_driver_package.Prelude.Int.{negsuc, pos, ℤ, ◌+ℤ◌}
use linux_ptp_driver_package.Misc.Fc3.References.Word.{priority_of, asked_priority}
use linux_ptp_driver_package.Misc.Fc3.Tdc.Unconfigured.{unconfigured_tdc_zero}

-- The second DPLL is in write phase mode, with other bits set in its register.
abbrev sabre : Sabre (ℕ → ℕ)
sabre = record { operating_mode_prev = λ i. 0; dev = λ a. 0xF2 }

holdover_registers : HoldoverRegisters memory 0x1A0 0x1AA
unfolding store_from memory_register
holdover_registers = record {
  mode = memory_register 0x1A0;
  reads_apart = λ d. refl;
  writes_apart = λ v d. refl;
}

abbrev held : Sabre (ℕ → ℕ)
held = left_by (rsmu_sabre_set_holdover_mode memory 1 1 0 sabre)

abbrev resumed : Sabre (ℕ → ℕ)
resumed = left_by (rsmu_sabre_set_holdover_mode memory 1 0 0 held)

rsmu_sabre_set_holdover_mode_example :
    (mode_cell memory holdover_registers held
      ≡ mode_cell memory holdover_registers sabre / 32 * 32 + 2)
    × ((mode_cell memory holdover_registers sabre % 32 ≡ 10)
        ⊎ ((mode_cell memory holdover_registers sabre % 32 ≡ 18)
            ⊎ (mode_cell memory holdover_registers sabre % 32 ≡ 0)))
    × (mode_cell memory holdover_registers resumed ≡ mode_cell memory holdover_registers sabre)
unfolding rsmu_sabre_set_holdover_mode reg_dpll_operating_mode_cnfg_offset
    reg_dpll_holdover_mode_cnfg_msb_offset set_manual_holdover_mode
    rmw_reg_dpll_holdover_mode_cnfg_msb reg_rmw read_reg write_reg set_dpll_oper_mode
    rmw_reg_dpll_operating_mode_cnfg restore_mode rsmu_get_bitfield cells_from store_from
rsmu_sabre_set_holdover_mode_example =
    rsmu_sabre_set_holdover_mode_lem memory holdover_registers 1 1 0 0 sabre (omega arith) refl refl
      (omega arith) (omega arith) refl refl

abbrev held_twice : Sabre (ℕ → ℕ)
held_twice = left_by (rsmu_sabre_set_holdover_mode memory 1 1 1 held)

rsmu_sabre_set_holdover_mode-twice_example :
    (rsmu_sabre_set_holdover_mode memory 1 0 0 held_twice ≡ fail einval held_twice)
    × (mode_cell memory holdover_registers held_twice % 32 ≡ 2)
unfolding rsmu_sabre_set_holdover_mode reg_dpll_operating_mode_cnfg_offset
    reg_dpll_holdover_mode_cnfg_msb_offset set_manual_holdover_mode
    rmw_reg_dpll_holdover_mode_cnfg_msb reg_rmw read_reg write_reg set_dpll_oper_mode
    rmw_reg_dpll_operating_mode_cnfg restore_mode rsmu_get_bitfield cells_from store_from
rsmu_sabre_set_holdover_mode-twice_example =
    rsmu_sabre_set_holdover_mode-twice memory holdover_registers 1 1 1 0 1 0 sabre (omega arith)
      (omega arith) refl refl (omega arith) (omega arith) (omega arith) refl refl

-- A chip whose references 0 to 3 select the inputs 0, 3, 6 and 3.
abbrev mux : ℕ
mux = 0 + 3 * 2 ^ 3 + 6 * 2 ^ 6 + 3 * 2 ^ 9

abbrev fc3 : Fc3 (ℕ → ℕ)
fc3 = record (zeroed (λ a. mux / 256 ^ (a - ref_sel_cnfg) % 256)) { devid = vfc3w }

fc3_sel : RefSelOf memory vfc3w
fc3_sel = record {
  value = λ d. le_number (cells_from 4 ref_sel_cnfg (λ x. d x % 256));
  reads = λ d. (refl, refl);
}

abbrev entries : List PriorityEntry
entries = record { clock_index = 6; priority = 3 } ∷ record { clock_index = 3; priority = 1 } ∷ []

abbrev chosen : Fc3 (ℕ → ℕ)
chosen = left_by (rsmu_fc3_set_clock_priorities memory 1 entries fc3)

rsmu_fc3_set_clock_priorities_example :
    (1 ≤ max_dpll_index vfc3w)
    × (length entries ≤ max_num_ref_priority)
    × (w : ℕ) × ((memory_bytes 0x602 2).bytes chosen.dev ≡ w % 256 ∷ w / 256 ∷ [])
    × ((k : ℕ) → k < 4 → priority_of w k ≡ asked_priority (fc3_sel.value fc3.dev) none entries k)
unfolding rsmu_fc3_set_clock_priorities priority_word clock_index_to_ref_index read_ref_sel
    read_bytes with_priority find_ref cells_from
rsmu_fc3_set_clock_priorities_example =
    rsmu_fc3_set_clock_priorities_lem memory vfc3w 1 entries fc3_sel (memory_bytes 0x602 2) fc3 refl
      refl

abbrev unconfigured : Fc3 (ℕ → ℕ)
unconfigured = left_by (rsmu_fc3_init memory (inl (negsuc 1)) (zeroed (λ a. 0x10)))

-- Its registers are all 0x10, those of the measurement included.
abbrev measured : Fc3 (ℕ → ℕ)
measured = left_by (rsmu_fc3_get_tdc_meas memory 1000 0 false unconfigured)

abbrev offset_of : Outcome (Fc3 (ℕ → ℕ)) ℤ → ℤ
offset_of (ok v t) = v
offset_of (fail e t) = e

unconfigured_tdc_zero_example :
    offset_of (rsmu_fc3_get_tdc_meas memory 1000 0 false unconfigured) ≡ pos 0
unfolding rsmu_fc3_init read_device_id read_bytes load_firmware rsmu_fc3_get_tdc_meas
    get_tdc_meas_one_shot get_tdc_meas poll_fifo set_tdc_meas_mode
    linux_ptp_driver_package.Misc.Fc3.write_reg linux_ptp_driver_package.Misc.Fc3.read_reg
    tdc_meas2offset ◌+ℤ◌ cells_from store_from
unconfigured_tdc_zero_example =
    unconfigured_tdc_zero memory (negsuc 1) 1000 0 false (λ a. 0x10) {t = measured} refl refl
