-- ===== src/Misc/Cdev/Guards.antt =====
-- Which calls of the device are turned down before anything is done, and what a caller can rely on
-- in the others.
use linux_ptp_driver_package.Prelude.{
  ℕ, ◌≡◌, Bool, true, false, Option, none, some, List, [], arith, if◌then◌else◌, refl,
}
use linux_ptp_driver_package.Prelude.Int.{ℤ}
use linux_ptp_driver_package.Misc.Cdev.{
  RsmuOps, Ioctl, UserAccess, rsmu_set_combomode_cmd, rsmu_get_state_cmd, Stale, rsmu_get_ffo_cmd,
  rsmu_ioctl, rsmu_set_holdover_mode_cmd, rsmu_set_combomode, rsmu_set_output_tdc_go_cmd,
  rsmu_get_dpll_state, rsmu_get_current_clock_index_cmd, rsmu_get_dpll_ffo,
  rsmu_set_clock_priorities_cmd, rsmu_set_holdover_mode, rsmu_get_reference_monitor_status_cmd,
  rsmu_set_output_tdc_go, rsmu_get_tdc_meas_cmd, rsmu_get_clock_index, rsmu_reg_read_cmd,
  rsmu_set_clock_priorities, rsmu_reg_write_cmd, rsmu_get_reference_monitor_status, undefined_cmd,
  rsmu_get_tdc_meas, rsmu_reg_read, rsmu_reg_write,
}
use linux_ptp_driver_package.Misc.Cm.{PriorityEntry}
use linux_ptp_driver_package.Bus.Regmap.{Regmap}
use linux_ptp_driver_package.Bus.Errno.{eopnotsupp, efault, einval}

abbrev pub is_some : {A : Type 0} → Option A → Bool
is_some none = false
is_some (some a) = true

-- The code for a call whose operation is there or not.
abbrev pub turned_down : Bool → Bool → Option ℤ
turned_down readable supported =
    if readable then if supported then none else some eopnotsupp else some efault

-- The calls that are turned down, with their codes: an argument that cannot be read, an operation that
-- the family does not have, and a command that the device does not know. A measurement that the family
-- does not have is turned down as such even where the argument cannot be read.
abbrev pub refused : {S : Type 0} → RsmuOps S → UserAccess → Ioctl → Option ℤ
refused ops user (rsmu_set_combomode_cmd a) = turned_down user.readable (is_some ops.set_combomode)
refused ops user (rsmu_get_state_cmd a) = turned_down user.readable (is_some ops.get_dpll_state)
refused ops user (rsmu_get_ffo_cmd a) = turned_down user.readable (is_some ops.get_dpll_ffo)
refused ops user (rsmu_set_holdover_mode_cmd a) =
    turned_down user.readable (is_some ops.set_holdover_mode)
refused ops user (rsmu_set_output_tdc_go_cmd a) =
    turned_down user.readable (is_some ops.set_output_tdc_go)
refused ops user (rsmu_get_current_clock_index_cmd a) =
    turned_down user.readable (is_some ops.get_clock_index)
refused ops user (rsmu_set_clock_priorities_cmd a) =
    turned_down user.readable (is_some ops.set_clock_priorities)
refused ops user (rsmu_get_reference_monitor_status_cmd a) =
    turned_down user.readable (is_some ops.get_reference_monitor_status)
refused ops user (rsmu_get_tdc_meas_cmd a) =
    if is_some ops.get_tdc_meas then turned_down user.readable true else some eopnotsupp
refused ops user (rsmu_reg_read_cmd a) = turned_down user.readable true
refused ops user (rsmu_reg_write_cmd a) = turned_down user.readable true
refused ops user (undefined_cmd n) = some einval

-- What the caller asked about, which no call changes; all of the argument of a call that only sets.
abbrev pub Asked : Type 0
Asked = ℕ × ℕ × ℕ × List PriorityEntry

abbrev pub asked : Ioctl → Asked
asked (rsmu_set_combomode_cmd a) = (a.dpll, a.mode, 0, [])
asked (rsmu_get_state_cmd a) = (a.dpll, 0, 0, [])
asked (rsmu_get_ffo_cmd a) = (a.dpll, 0, 0, [])
asked (rsmu_set_holdover_mode_cmd a) = (a.dpll, a.enable, a.mode, [])
asked (rsmu_set_output_tdc_go_cmd a) = (a.tdc, a.enable, 0, [])
asked (rsmu_get_current_clock_index_cmd a) = (a.dpll, 0, 0, [])
asked (rsmu_set_clock_priorities_cmd a) = (a.dpll, a.num_entries, 0, a.priority_entry)
asked (rsmu_get_reference_monitor_status_cmd a) = (a.clock_index, 0, 0, [])
asked (rsmu_get_tdc_meas_cmd a) = (if a.continuous then 1 else 0, 0, 0, [])
asked (rsmu_reg_read_cmd a) = (a.offset, a.byte_count, 0, [])
asked (rsmu_reg_write_cmd a) = (a.offset, a.byte_count, 0, [])
asked (undefined_cmd n) = (n, 0, 0, [])

module _ {S : Type 0} (ops : RsmuOps S) (regmap : Regmap S) (user : UserAccess)
    (stale : Stale) where
  -- A call that is turned down, for one of the reasons that `refused` lists, returns its code, and
  -- leaves the argument, the chip and the driver as they were.
  pub rsmu_ioctl-refused :
      (call : Ioctl) (s : S) {e : ℤ}
      → refused ops user call ≡ some e
      → rsmu_ioctl ops regmap user stale call s ≡ (e, call, s)
  unfolding rsmu_ioctl rsmu_set_combomode rsmu_get_dpll_state rsmu_get_dpll_ffo
      rsmu_set_holdover_mode rsmu_set_output_tdc_go rsmu_get_clock_index rsmu_set_clock_priorities
      rsmu_get_reference_monitor_status rsmu_get_tdc_meas rsmu_reg_read rsmu_reg_write
  rsmu_ioctl-refused (rsmu_set_combomode_cmd a) s h = ground arith
  rsmu_ioctl-refused (rsmu_get_state_cmd a) s h = ground arith
  rsmu_ioctl-refused (rsmu_get_ffo_cmd a) s h = ground arith
  rsmu_ioctl-refused (rsmu_set_holdover_mode_cmd a) s h = ground arith
  rsmu_ioctl-refused (rsmu_set_output_tdc_go_cmd a) s h = ground arith
  rsmu_ioctl-refused (rsmu_get_current_clock_index_cmd a) s h = ground arith
  rsmu_ioctl-refused (rsmu_set_clock_priorities_cmd a) s h = ground arith
  rsmu_ioctl-refused (rsmu_get_reference_monitor_status_cmd a) s h = ground arith
  rsmu_ioctl-refused (rsmu_get_tdc_meas_cmd a) s h = ground arith
  rsmu_ioctl-refused (rsmu_reg_read_cmd a) s h = ground arith
  rsmu_ioctl-refused (rsmu_reg_write_cmd a) s h = ground arith
  rsmu_ioctl-refused (undefined_cmd n) s h = ground arith

  -- Whatever a call does and returns, what the caller asked about comes back as it was.
  pub asked-rsmu_ioctl :
      (call : Ioctl) (s : S) → asked (rsmu_ioctl ops regmap user stale call s).1 ≡ asked call
  unfolding rsmu_ioctl rsmu_set_combomode rsmu_get_dpll_state rsmu_get_dpll_ffo
      rsmu_set_holdover_mode rsmu_set_output_tdc_go rsmu_get_clock_index rsmu_set_clock_priorities
      rsmu_get_reference_monitor_status rsmu_get_tdc_meas rsmu_reg_read rsmu_reg_write
  asked-rsmu_ioctl (rsmu_set_combomode_cmd a) s = ground arith
  asked-rsmu_ioctl (rsmu_get_state_cmd a) s = ground arith
  asked-rsmu_ioctl (rsmu_get_ffo_cmd a) s = ground arith
  asked-rsmu_ioctl (rsmu_set_holdover_mode_cmd a) s = ground arith
  asked-rsmu_ioctl (rsmu_set_output_tdc_go_cmd a) s = ground arith
  asked-rsmu_ioctl (rsmu_get_current_clock_index_cmd a) s = ground arith
  asked-rsmu_ioctl (rsmu_set_clock_priorities_cmd a) s = ground arith
  asked-rsmu_ioctl (rsmu_get_reference_monitor_status_cmd a) s = ground arith
  asked-rsmu_ioctl (rsmu_get_tdc_meas_cmd a) s = ground arith
  asked-rsmu_ioctl (rsmu_reg_read_cmd a) s = ground arith
  asked-rsmu_ioctl (rsmu_reg_write_cmd a) s = ground arith
  asked-rsmu_ioctl (undefined_cmd n) s = refl
