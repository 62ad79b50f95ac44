-- ===== src/Misc/Cm.antt =====
-- drivers/misc/rsmu_cm.c: the operations of the character device on a ClockMatrix chip.
pub mod Fields
pub mod Priorities
pub mod PriorityCells
pub mod PriorityRegisters
pub mod Setup
use linux_ptp_driver_package.Clockmatrix.State.{FwVersion, v520, v487, v_default, fw_reg}
use linux_ptp_driver_package.Prelude.{
  ◌+◌, ◌-◌, ◌*◌, ◌/◌, ◌%◌, ◌^◌, ℕ, zero, suc, bit_and, bit_or, Bool, false, ◌&&◌, ◌||◌, not, Option,
  none, some, List, [], ◌∷◌, if◌then◌else◌, ◌==◌, ltb, leb, get_or, length,
}
use linux_ptp_driver_package.Prelude.Int.{ℤ, s64, signed, ◌*ℤ◌, pos, negsuc}
use linux_ptp_driver_package.Bus.Regmap.{Regmap, read_byte, write_byte}
use linux_ptp_driver_package.Bus.{M, ok, throw, ◌>>=◌, fail, pure, get, ◌>>◌, put}
use linux_ptp_driver_package.Clockmatrix.Registers.{
  dpll, dpll_ctrl, general_status, dpll_v520, maj_rel, dpll_mode_reg, status, min_rel,
  dpll_mode_v520, hotfix_rel,
}
use linux_ptp_driver_package.Clockmatrix.Setup.{le_number}
use linux_ptp_driver_package.Bus.Errno.{einval}

-- The part of `struct rsmu_cdev` and `struct rsmucm` that the operations use, with the chip.
pub record Rsmu (Dev : Type 0) : Type 0 where
  pub fw_version : FwVersion
  pub dev : Dev

-- The offsets of registers from the bases of their blocks.
abbrev pub dpll_ctrl_combo_master_cfg : ℕ
dpll_ctrl_combo_master_cfg = 0x003a

abbrev pub combo_master_hold : ℕ
combo_master_hold = 0x01

abbrev pub e_combomode_max : ℕ
e_combomode_max = 4

abbrev pub output_tdc : List ℕ
output_tdc = 0x2010cd00 ∷ 0x2010cd08 ∷ 0x2010cd10 ∷ 0x2010cd18 ∷ []

abbrev pub output_tdc_ctrl_4 : ℕ
output_tdc_ctrl_4 = 0x0006

abbrev pub output_tdc_ctrl_4_v520 : ℕ
output_tdc_ctrl_4_v520 = 0x0007

abbrev pub dpll0_status : ℕ
dpll0_status = 0x0018

abbrev pub dpll0_ref_status : ℕ
dpll0_ref_status = 0x0022

abbrev pub dpll0_filter_status : ℕ
dpll0_filter_status = 0x0044

abbrev pub in0_mon_status : ℕ
in0_mon_status = 0x0008

abbrev pub dpll_ref_priority_0 : ℕ
dpll_ref_priority_0 = 0x000f

abbrev pub dpll_ref_status_mask : ℕ
dpll_ref_status_mask = 0x1f

abbrev pub max_electrical_references : ℕ
max_electrical_references = 16

abbrev pub max_ref_priorities : ℕ
max_ref_priorities = 19

abbrev pub max_priority_group : ℕ
max_priority_group = 3

-- `get_dpll_reg_offset` and `get_dpll_ctrl_reg_offset`; `none` is the return of -EINVAL.
unfoldable pub get_dpll_reg_offset : FwVersion → ℕ → Option ℕ
get_dpll_reg_offset fw n = if ltb n 8 then some (get_or (fw_reg fw dpll dpll_v520) n 0) else none

unfoldable pub get_dpll_ctrl_reg_offset : ℕ → Option ℕ
get_dpll_ctrl_reg_offset n = if ltb n 8 then some (get_or dpll_ctrl n 0) else none

-- The version that three numbers mean here.
unfoldable pub version_of : ℕ → ℕ → FwVersion
version_of major minor =
    if leb 5 major && leb 2 minor
    then v520
    else if (major == 4) && leb 8 minor
    then v487
    else v_default

-- `enum rsmu_class_state`, of the state of a DPLL.
unfoldable pub class_state : ℕ → ℕ
class_state state =
    if state == 0
    then 1
    else if (state == 1) || (state == 2)
    then 2
    else if state == 3
    then 4
    else if state == 4
    then 5
    else 9

-- `reg` with the state mode forced to holdover, or automatic.
unfoldable pub with_holdover : Bool → ℕ → ℕ
with_holdover enable reg = if enable then bit_or (bit_and reg 0xF8) 3 else bit_and reg 0xF8

-- `sign_extend64(get_unaligned_le64(buf), 47) * 111` of six bytes.
unfoldable pub ffo_of : List ℕ → ℤ
ffo_of buf = s64 (signed 48 (le_number buf % 2 ^ 48) *ℤ pos 111)

-- `struct rsmu_priority_entry`.
pub record PriorityEntry : Type 0 where
  pub clock_index : ℕ
  pub priority : ℕ

-- The priority of the entry after this one, if there is one.
abbrev pub next_priority : List PriorityEntry → Option ℕ
next_priority [] = none
next_priority (e ∷ es) = some e.priority

abbrev pub is_some_of : Option ℕ → ℕ → Bool
is_some_of none n = false
is_some_of (some m) n = m == n

-- The group of an entry, and the group number that is carried on: the same as before for the
-- priority of the entry before, a new one for the priority of the entry after, else none (0).
unfoldable pub group_of : Option ℕ → ℕ → ℕ → List PriorityEntry → ℕ × ℕ
group_of prev_priority prev_group priority rest =
    if is_some_of prev_priority priority
    then (prev_group, prev_group)
    else if is_some_of (next_priority rest) priority
    then if ltb prev_group max_priority_group
      then (prev_group + 1, prev_group + 1)
      else (0, prev_group)
    else (0, prev_group)

-- The byte of a priority register: enabled, with its reference and group.
abbrev pub priority_byte : ℕ → ℕ → ℕ
priority_byte clock_index group = bit_or (bit_or 1 (clock_index * 2)) (group * 2 ^ 6) % 256

module _ {Dev : Type 0} (regmap : Regmap Dev) where
  abbrev pub on_rsmu : {A : Type 0} → M Dev A → M (Rsmu Dev) A
  on_rsmu m s = elim (m s.dev) [
    | ok a d ↦ ok a (record s { dev = d })
    | fail e d ↦ fail e (record s { dev = d })
  ]

  unfoldable pub read_reg : ℕ → M (Rsmu Dev) ℕ
  read_reg a = on_rsmu (read_byte regmap a)

  unfoldable pub write_reg : ℕ → ℕ → M (Rsmu Dev) (Unit {0})
  write_reg a v = on_rsmu (write_byte regmap a v)

  abbrev pub or_einval : {A : Type 0} → Option A → M (Rsmu Dev) A
  or_einval none = throw einval
  or_einval (some a) = pure a

  unfoldable pub get_fw_version : M (Rsmu Dev) (Unit {0})
  get_fw_version = do
    major ← read_reg (general_status + maj_rel)
    minor ← read_reg (general_status + min_rel)
    hotfix ← read_reg (general_status + hotfix_rel)
    s ← get
    put (record s { fw_version = version_of (major / 2) minor })

  unfoldable pub rsmu_cm_set_combomode : ℕ → ℕ → M (Rsmu Dev) (Unit {0})
  rsmu_cm_set_combomode n mode = do
    base ← or_einval (get_dpll_ctrl_reg_offset n)
    if leb e_combomode_max mode then throw einval else (do
      reg ← read_reg (base + dpll_ctrl_combo_master_cfg)
      write_reg (base + dpll_ctrl_combo_master_cfg) (
          if mode == 0
          then bit_and reg (0xFF - combo_master_hold)
          else bit_or reg combo_master_hold))

  unfoldable pub rsmu_cm_set_holdover_mode : ℕ → ℕ → M (Rsmu Dev) (Unit {0})
  rsmu_cm_set_holdover_mode n enable = do
    s ← get
    base ← or_einval (get_dpll_reg_offset s.fw_version n)
    let a = base + fw_reg s.fw_version dpll_mode_reg dpll_mode_v520
    reg ← read_reg a
    let on = not (enable == 0)
    if bit_and reg 0x7 == (if on then 3 else 0) then pure tt else write_reg a (with_holdover on reg)

  -- The byte that a failed read leaves in `reg` is unknown: `stale` stands for it.
  unfoldable pub rsmu_cm_set_output_tdc_go : ℕ → ℕ → ℕ → M (Rsmu Dev) (Unit {0})
  rsmu_cm_set_output_tdc_go stale tdc enable s =
      if leb 4 tdc
      then fail einval s
      else (let a =
            get_or output_tdc tdc 0
            + fw_reg s.fw_version output_tdc_ctrl_4 output_tdc_ctrl_4_v520 in
          let go =
            λ (reg : ℕ). write_reg a (if enable == 0 then bit_and reg 0xFE else bit_or reg 0x01) in
          elim (read_reg a s) [ ok reg t ↦ go reg t | fail e t ↦ go stale t ])

  unfoldable pub rsmu_cm_get_dpll_state : ℕ → M (Rsmu Dev) ℕ
  rsmu_cm_get_dpll_state n =
      if ltb 8 n
      then throw einval
      else (do reg ← read_reg (status + dpll0_status + n); pure (class_state (bit_and reg 0xf)))

  unfoldable pub rsmu_cm_get_dpll_ffo : ℕ → M (Rsmu Dev) ℤ
  rsmu_cm_get_dpll_ffo n = if ltb 8 n then throw einval else (do
    buf ← on_rsmu (regmap.bulk_read (status + (dpll0_filter_status + n * 8)) 6)
    pure (ffo_of buf))

  -- -1 where no electrical reference is selected.
  unfoldable pub rsmu_cm_get_clock_index : ℕ → M (Rsmu Dev) ℤ
  rsmu_cm_get_clock_index n = if ltb 8 n then throw einval else (do
    reg ← read_reg (status + dpll0_ref_status + n)
    let ref = bit_and reg dpll_ref_status_mask
    pure (if ltb (max_electrical_references - 1) ref then negsuc 0 else pos ref))

  -- The first loop, from entry `index` on: the registers of the entries that are given.
  unfoldable pub set_entries : ℕ → ℕ → Option ℕ → ℕ → List PriorityEntry → M (Rsmu Dev) (Unit {0})
  set_entries base index prev_priority prev_group [] = pure tt
  set_entries base index prev_priority prev_group (e ∷ es) =
      let (group, carried) = group_of prev_priority prev_group e.priority es in
      let rest = set_entries base (index + 1) (some e.priority) carried es in
      if leb max_electrical_references e.clock_index || leb max_ref_priorities e.priority
      then throw einval
      else (write_reg (base + dpll_ref_priority_0 + index) (priority_byte e.clock_index group)
          >> rest)

  -- The second loop: the registers of the other `left` priorities are disabled.
  unfoldable pub clear_entries : ℕ → ℕ → ℕ → M (Rsmu Dev) (Unit {0})
  clear_entries base index zero = pure tt
  clear_entries base index (suc left) =
      let rest = clear_entries base (index + 1) left in
      write_reg (base + dpll_ref_priority_0 + index) 0 >> rest

  -- Writing the mode register back makes the priorities take effect.
  unfoldable pub rsmu_cm_set_clock_priorities : ℕ → List PriorityEntry → M (Rsmu Dev) (Unit {0})
  rsmu_cm_set_clock_priorities n entries = do
    s ← get
    base ← or_einval (get_dpll_reg_offset s.fw_version n)
    if ltb max_ref_priorities (length entries) then throw einval else (do
      let a = base + fw_reg s.fw_version dpll_mode_reg dpll_mode_v520
      set_entries base 0 none 0 entries
      clear_entries base (length entries) (max_ref_priorities - length entries)
      reg ← read_reg a
      write_reg a reg)

  -- The alarms for loss of signal, no activity and frequency offset.
  unfoldable pub rsmu_cm_get_reference_monitor_status : ℕ → M (Rsmu Dev) (ℕ × ℕ × ℕ)
  rsmu_cm_get_reference_monitor_status clock_index =
      if leb max_electrical_references clock_index then throw einval else (do
        reg ← read_reg (status + in0_mon_status + clock_index)
        pure (bit_and reg 1, bit_and (reg / 2) 1, bit_and (reg / 4) 1))
