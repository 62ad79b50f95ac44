-- ===== src/Misc/Cdev.antt =====
-- drivers/misc/rsmu_cdev.c: the character device, with what is copied from and to the caller.
pub mod Families
pub mod Guards
pub mod Probe
pub mod Table
use linux_ptp_driver_package.Prelude.{
  ℕ, Bool, Option, none, some, List, ◌++◌, if◌then◌else◌, take, drop,
}
use linux_ptp_driver_package.Bus.{M, Outcome, Filler, ok, fail}
use linux_ptp_driver_package.Prelude.Int.{ℤ, pos}
use linux_ptp_driver_package.Misc.Cm.{PriorityEntry}
use linux_ptp_driver_package.Bus.Errno.{eopnotsupp, efault, einval}
use linux_ptp_driver_package.Bus.Regmap.{Regmap}

-- `struct rsmu_ops`, over the state of a family's driver. `none` is a NULL pointer.
pub record RsmuOps (S : Type 0) : Type 0 where
  pub set_combomode : Option (ℕ → ℕ → M S (Unit {0}))
  pub get_dpll_state : Option (ℕ → Filler S ℕ)
  pub get_dpll_ffo : Option (ℕ → Filler S ℤ)
  pub set_holdover_mode : Option (ℕ → ℕ → ℕ → M S (Unit {0}))
  pub set_output_tdc_go : Option (ℕ → ℕ → M S (Unit {0}))
  pub get_clock_index : Option (ℕ → Filler S ℤ)
  pub set_clock_priorities : Option (ℕ → List PriorityEntry → M S (Unit {0}))
  pub get_reference_monitor_status : Option (ℕ → Filler S (ℕ × ℕ × ℕ))
  pub get_tdc_meas : Option (Bool → Filler S ℤ)

-- The structures of uapi/linux/rsmu.h.
pub record Combomode : Type 0 where
  pub dpll : ℕ
  pub mode : ℕ

pub record GetState : Type 0 where
  pub dpll : ℕ
  pub state : ℕ

pub record GetFfo : Type 0 where
  pub dpll : ℕ
  pub ffo : ℤ

pub record HoldoverMode : Type 0 where
  pub dpll : ℕ
  pub enable : ℕ
  pub mode : ℕ

pub record SetOutputTdcGo : Type 0 where
  pub tdc : ℕ
  pub enable : ℕ

pub record RegRw : Type 0 where
  pub offset : ℕ
  pub byte_count : ℕ
  pub bytes : List ℕ

pub record CurrentClockIndex : Type 0 where
  pub dpll : ℕ
  pub clock_index : ℤ

pub record ClockPriorities : Type 0 where
  pub dpll : ℕ
  pub num_entries : ℕ
  pub priority_entry : List PriorityEntry

pub record ReferenceMonitorStatus : Type 0 where
  pub clock_index : ℕ
  pub alarms : ℕ × ℕ × ℕ

pub record GetTdcMeas : Type 0 where
  pub continuous : Bool
  pub offset : ℤ

-- A call of the device: the command with the structure that its argument points to.
pub data Ioctl : Type 0 where
  rsmu_set_combomode_cmd : Combomode → Ioctl
  rsmu_get_state_cmd : GetState → Ioctl
  rsmu_get_ffo_cmd : GetFfo → Ioctl
  rsmu_set_holdover_mode_cmd : HoldoverMode → Ioctl
  rsmu_set_output_tdc_go_cmd : SetOutputTdcGo → Ioctl
  rsmu_get_current_clock_index_cmd : CurrentClockIndex → Ioctl
  rsmu_set_clock_priorities_cmd : ClockPriorities → Ioctl
  rsmu_get_reference_monitor_status_cmd : ReferenceMonitorStatus → Ioctl
  rsmu_get_tdc_meas_cmd : GetTdcMeas → Ioctl
  rsmu_reg_read_cmd : RegRw → Ioctl
  rsmu_reg_write_cmd : RegRw → Ioctl
  undefined_cmd : ℕ → Ioctl

-- Whether the argument can be read and written. A copy that faults is taken to leave it alone.
pub record UserAccess : Type 0 where
  pub readable : Bool
  pub writable : Bool

-- What a handler returns: its code, the argument as it is then, and the state.
abbrev pub Result : Type 0 → Type 0 → Type 0
Result S A = ℤ × A × S

abbrev pub finished : {S A : Type 0} → A → Outcome S (Unit {0}) → Result S A
finished arg (ok u t) = (pos 0, arg, t)
finished arg (fail e t) = (e, arg, t)

module _ {S : Type 0} (user : UserAccess) where
  -- `copy_to_user`, then the code of the operation.
  abbrev pub copy_back : {A : Type 0} → A → A → ℤ → S → Result S A
  copy_back old new err s = if user.writable then (err, new, s) else (efault, old, s)

  -- What every handler but one does first: the argument is copied, then the operation is looked for.
  abbrev pub with_op : {A F : Type 0} → Option F → (F → A → S → Result S A) → A → S → Result S A
  with_op none run arg s = if user.readable then (eopnotsupp, arg, s) else (efault, arg, s)
  with_op (some f) run arg s = if user.readable then run f arg s else (efault, arg, s)

module _ {S : Type 0} (ops : RsmuOps S) (user : UserAccess) where
  unfoldable pub rsmu_set_combomode : Combomode → S → Result S Combomode
  rsmu_set_combomode =
      with_op user ops.set_combomode λ f mode s. finished mode (f mode.dpll mode.mode s)

  -- `state` is not initialised: `stale` stands for it, here and below.
  unfoldable pub rsmu_get_dpll_state : ℕ → GetState → S → Result S GetState
  rsmu_get_dpll_state stale = with_op user ops.get_dpll_state λ f request s.
      let (err, state, t) = f request.dpll stale s in
      copy_back user request (record request { state = state }) err t

  -- The operation is given the structure itself.
  unfoldable pub rsmu_get_dpll_ffo : GetFfo → S → Result S GetFfo
  rsmu_get_dpll_ffo = with_op user ops.get_dpll_ffo λ f request s.
      let (err, ffo, t) = f request.dpll request.ffo s in
      copy_back user request (record request { ffo = ffo }) err t

  unfoldable pub rsmu_set_holdover_mode : HoldoverMode → S → Result S HoldoverMode
  rsmu_set_holdover_mode =
      with_op user ops.set_holdover_mode
        λ f request s. finished request (f request.dpll request.enable request.mode s)

  unfoldable pub rsmu_set_output_tdc_go : SetOutputTdcGo → S → Result S SetOutputTdcGo
  rsmu_set_output_tdc_go =
      with_op user ops.set_output_tdc_go
        λ f request s. finished request (f request.tdc request.enable s)

  unfoldable pub rsmu_get_clock_index : ℤ → CurrentClockIndex → S → Result S CurrentClockIndex
  rsmu_get_clock_index stale = with_op user ops.get_clock_index λ f request s.
      let (err, clock_index, t) = f request.dpll stale s in
      copy_back user request (record request { clock_index = clock_index }) err t

  -- The operation is given the entries up to the number that the caller gives; the array has 32.
  unfoldable pub rsmu_set_clock_priorities : ClockPriorities → S → Result S ClockPriorities
  rsmu_set_clock_priorities = with_op user ops.set_clock_priorities λ f request s.
      finished request (f request.dpll (take request.num_entries request.priority_entry) s)

  unfoldable pub rsmu_get_reference_monitor_status :
      ℕ × ℕ × ℕ → ReferenceMonitorStatus → S → Result S ReferenceMonitorStatus
  rsmu_get_reference_monitor_status stale =
      with_op user ops.get_reference_monitor_status λ f request s.
        let (err, alarms, t) = f request.clock_index stale s in
        copy_back user request (record request { alarms = alarms }) err t

  -- The operation is looked for first.
  unfoldable pub rsmu_get_tdc_meas : GetTdcMeas → S → Result S GetTdcMeas
  rsmu_get_tdc_meas meas s = elim ops.get_tdc_meas [
    | none ↦ (eopnotsupp, meas, s)
    | some f ↦
        if user.readable
        then (let (err, offset, t) = f meas.continuous meas.offset s in
            copy_back user meas (record meas { offset = offset }) err t)
        else (efault, meas, s)
  ]

module _ {S : Type 0} (regmap : Regmap S) (user : UserAccess) where
  -- The bytes past the ones that are read stay, and all of them where the read fails.
  unfoldable pub rsmu_reg_read : RegRw → S → Result S RegRw
  rsmu_reg_read data' s =
      if user.readable
      then elim (regmap.bulk_read data'.offset data'.byte_count s) [
        | ok bs t ↦
            copy_back user data' (record data' { bytes = bs ++ drop data'.byte_count data'.bytes })
              (pos 0) t
        | fail e t ↦ copy_back user data' data' e t
      ]
      else (efault, data', s)

  unfoldable pub rsmu_reg_write : RegRw → S → Result S RegRw
  rsmu_reg_write data' s =
      if user.readable
      then finished data' (regmap.bulk_write data'.offset (take data'.byte_count data'.bytes) s)
      else (efault, data', s)

-- The structure that a handler gives back, as the argument of its command.
abbrev pub as_ioctl : {S A : Type 0} → (A → Ioctl) → Result S A → Result S Ioctl
as_ioctl cmd (err, arg, s) = (err, cmd arg, s)

-- What the handlers' variables hold before they are set.
pub record Stale : Type 0 where
  pub state : ℕ
  pub clock_index : ℤ
  pub alarms : ℕ × ℕ × ℕ

module _ {S : Type 0} (ops : RsmuOps S) (regmap : Regmap S) (user : UserAccess)
    (stale : Stale) where
  unfoldable pub rsmu_ioctl : Ioctl → S → Result S Ioctl
  rsmu_ioctl (rsmu_set_combomode_cmd a) s =
      as_ioctl rsmu_set_combomode_cmd (rsmu_set_combomode ops user a s)
  rsmu_ioctl (rsmu_get_state_cmd a) s =
      as_ioctl rsmu_get_state_cmd (rsmu_get_dpll_state ops user stale.state a s)
  rsmu_ioctl (rsmu_get_ffo_cmd a) s = as_ioctl rsmu_get_ffo_cmd (rsmu_get_dpll_ffo ops user a s)
  rsmu_ioctl (rsmu_set_holdover_mode_cmd a) s =
      as_ioctl rsmu_set_holdover_mode_cmd (rsmu_set_holdover_mode ops user a s)
  rsmu_ioctl (rsmu_set_output_tdc_go_cmd a) s =
      as_ioctl rsmu_set_output_tdc_go_cmd (rsmu_set_output_tdc_go ops user a s)
  rsmu_ioctl (rsmu_get_current_clock_index_cmd a) s =
      as_ioctl rsmu_get_current_clock_index_cmd
        (rsmu_get_clock_index ops user stale.clock_index a s)
  rsmu_ioctl (rsmu_set_clock_priorities_cmd a) s =
      as_ioctl rsmu_set_clock_priorities_cmd (rsmu_set_clock_priorities ops user a s)
  rsmu_ioctl (rsmu_get_reference_monitor_status_cmd a) s =
      as_ioctl rsmu_get_reference_monitor_status_cmd
        (rsmu_get_reference_monitor_status ops user stale.alarms a s)
  rsmu_ioctl (rsmu_get_tdc_meas_cmd a) s =
      as_ioctl rsmu_get_tdc_meas_cmd (rsmu_get_tdc_meas ops user a s)
  rsmu_ioctl (rsmu_reg_read_cmd a) s = as_ioctl rsmu_reg_read_cmd (rsmu_reg_read regmap user a s)
  rsmu_ioctl (rsmu_reg_write_cmd a) s = as_ioctl rsmu_reg_write_cmd (rsmu_reg_write regmap user a s)
  rsmu_ioctl (undefined_cmd n) s = (einval, undefined_cmd n, s)
