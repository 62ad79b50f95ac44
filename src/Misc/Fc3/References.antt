-- ===== src/Misc/Fc3/References.antt =====
-- drivers/misc/rsmu_fc3.c: the state of a DPLL, its references, their priorities and monitors.
pub mod Word
pub mod Asked
use linux_ptp_driver_package.Prelude.{
  ℕ, ◌+◌, ◌-◌, ◌*◌, ◌/◌, ◌%◌, ◌^◌, bit_and, bit_or, ◌||◌, Option, none, some, List, [], ◌∷◌,
  if◌then◌else◌, ◌==◌, leb, ltb, length,
}
use linux_ptp_driver_package.Misc.Fc3.{DevId, fc3_reg, Fc3, read_bytes, read_reg, on_fc3}
use linux_ptp_driver_package.Bus.Regmap.{Regmap}
use linux_ptp_driver_package.Bus.{M, Filler, throw, ◌>>=◌, ok, pure, get, fail, filling}
use linux_ptp_driver_package.Misc.Cm.{PriorityEntry}
use linux_ptp_driver_package.Prelude.Int.{ℤ, pos, low_bits, negsuc}
use linux_ptp_driver_package.Bus.Errno.{einval}
use linux_ptp_driver_package.Clockmatrix.Setup.{le_number}

abbrev pub max_input_clock_index : ℕ
max_input_clock_index = 7

abbrev pub max_num_ref_priority : ℕ
max_num_ref_priority = 4

abbrev pub max_ref_index : ℕ
max_ref_index = 3

abbrev pub ref_sel_cnfg : ℕ
ref_sel_cnfg = 0x410

abbrev pub ref_sel_cnfg_vfc3a : ℕ
ref_sel_cnfg_vfc3a = 0x80

abbrev pub dpll_sts : ℕ
dpll_sts = 0x580

abbrev pub dpll_sts_vfc3a : ℕ
dpll_sts_vfc3a = 0x571

abbrev pub dpll_ref_priority_cnfg : ℕ
dpll_ref_priority_cnfg = 0x502

abbrev pub dpll_refx_priority_disable_mask : ℕ
dpll_refx_priority_disable_mask = 0xf

abbrev pub max_dpll_index : DevId → ℕ
max_dpll_index devid = fc3_reg devid 2 0

-- The input that the multiplexer of reference `ref_index` selects.
abbrev pub mux_sel : ℕ → ℕ → ℕ
mux_sel ref_sel_cnfg_reg ref_index = ref_sel_cnfg_reg / 2 ^ (3 * ref_index) % 8

-- The loop of `clock_index_to_ref_index`: the first of the four references with that input, else 4.
unfoldable pub find_ref : ℕ → ℕ → ℕ
find_ref ref_sel_cnfg_reg clock_index =
    if clock_index == mux_sel ref_sel_cnfg_reg 0
    then 0
    else if clock_index == mux_sel ref_sel_cnfg_reg 1
    then 1
    else if clock_index == mux_sel ref_sel_cnfg_reg 2
    then 2
    else if clock_index == mux_sel ref_sel_cnfg_reg 3
    then 3
    else 4

-- The status registers of a reference; `none` is the return of -EINVAL.
unfoldable pub get_losmon_sts_reg_offset : DevId → ℕ → Option ℕ
get_losmon_sts_reg_offset devid ref_index =
    if leb ref_index max_ref_index
    then some (fc3_reg devid (0x81e + ref_index * 0x10) (0x18e + ref_index * 0x10))
    else none

unfoldable pub get_freqmon_sts_reg_offset : DevId → ℕ → Option ℕ
get_freqmon_sts_reg_offset devid ref_index =
    if leb ref_index max_ref_index
    then some (fc3_reg devid (0x874 + ref_index * 0x20) (0x1d4 + ref_index * 0x20))
    else none

-- The class of a DPLL's state.
unfoldable pub class_state : ℕ → ℕ
class_state state =
    if (state == 0) || (state == 3)
    then 1
    else if (state == 4) || (state == 5)
    then 2
    else if state == 1
    then 4
    else if state == 2
    then 5
    else 9

-- The priority word with reference `ref_index` enabled at a priority; `none` is the return of
-- -EINVAL.
unfoldable pub with_priority : ℕ → ℕ → ℕ → Option ℕ
with_priority reg ref_index priority =
    if ref_index == 0
    then some (bit_or (bit_and reg (0xFFFF - 0x31)) (priority * 2 ^ 4))
    else if ref_index == 1
    then some (bit_or (bit_and reg (0xFFFF - 0xc2)) (priority * 2 ^ 6))
    else if ref_index == 2
    then some (bit_or (bit_and reg (0xFFFF - 0x304)) (priority * 2 ^ 8))
    else if ref_index == 3
    then some (bit_or (bit_and reg (0xFFFF - 0xc08)) (priority * 2 ^ 10))
    else none

module _ {Dev : Type 0} (regmap : Regmap Dev) where
  abbrev pub or_einval : {A : Type 0} → Option A → M (Fc3 Dev) A
  or_einval none = throw einval
  or_einval (some a) = pure a

  -- A `u32` that is read is little-endian, as on the hosts that the driver runs on.
  unfoldable pub read_ref_sel : M (Fc3 Dev) ℕ
  read_ref_sel = do
    s ← get
    buf ← read_bytes regmap (fc3_reg s.devid ref_sel_cnfg ref_sel_cnfg_vfc3a) 4
    pure (le_number buf)

  -- The result is a `u8`: where the read fails, the low byte of its code.
  unfoldable pub clock_index_to_ref_index : ℕ → M (Fc3 Dev) ℕ
  clock_index_to_ref_index clock_index s = elim (read_ref_sel s) [
    | ok v t ↦ ok (find_ref v clock_index) t
    | fail e t ↦ ok (low_bits 8 e) t
  ]

  unfoldable pub read_dpll_sts : ℕ → M (Fc3 Dev) ℕ
  read_dpll_sts dpll = do
    s ← get
    if ltb (max_dpll_index s.devid) dpll
        then throw einval
        else read_reg regmap (fc3_reg s.devid (dpll_sts + dpll * 0x100) dpll_sts_vfc3a)

  unfoldable pub rsmu_fc3_get_dpll_state : ℕ → M (Fc3 Dev) ℕ
  rsmu_fc3_get_dpll_state dpll = do
    reg ← read_dpll_sts dpll
    pure (class_state (bit_and reg 0x70 / 2 ^ 4))

  -- -1 where no reference is in use. The variable is set to that first, also where a read fails.
  unfoldable pub current_clock_index : ℕ → M (Fc3 Dev) ℤ
  current_clock_index dpll = do
    reg ← read_dpll_sts dpll
    let state = bit_and reg 0x70 / 2 ^ 4
    if (state == 1) || ((state == 4) || (state == 5))
        then (do ref_sel ← read_ref_sel; pure (pos (mux_sel ref_sel (bit_and reg 0x6 / 2))))
        else pure (negsuc 0)

  unfoldable pub rsmu_fc3_get_clock_index : ℕ → Filler (Fc3 Dev) ℤ
  rsmu_fc3_get_clock_index dpll clock_index = filling (current_clock_index dpll) (negsuc 0)

  -- The loop over the entries: the word that they ask for.
  unfoldable pub priority_word : ℕ → List PriorityEntry → M (Fc3 Dev) ℕ
  priority_word reg [] = pure reg
  priority_word reg (e ∷ es) =
      let rest = λ (reg' : ℕ). priority_word reg' es in
      if ltb max_input_clock_index e.clock_index || leb max_num_ref_priority e.priority
      then throw einval
      else (do
        ref_index ← clock_index_to_ref_index e.clock_index
        reg' ← or_einval (with_priority reg ref_index e.priority)
        rest reg')

  unfoldable pub rsmu_fc3_set_clock_priorities : ℕ → List PriorityEntry → M (Fc3 Dev) (Unit {0})
  rsmu_fc3_set_clock_priorities dpll entries = do
    s ← get
    if ltb (max_dpll_index s.devid) dpll || ltb max_num_ref_priority (length entries)
        then throw einval
        else (do
          reg ← priority_word dpll_refx_priority_disable_mask entries
          on_fc3 regmap (
              regmap.bulk_write
                (fc3_reg s.devid (dpll_ref_priority_cnfg + dpll * 0x100) dpll_ref_priority_cnfg)
                (reg % 256 ∷ reg / 256 % 256 ∷ [])))

  -- What was stored of the alarms stays where the second read fails.
  unfoldable pub rsmu_fc3_get_reference_monitor_status : ℕ → Filler (Fc3 Dev) (ℕ × ℕ × ℕ)
  rsmu_fc3_get_reference_monitor_status clock_index alarms s =
      let find : M (Fc3 Dev) ℕ =
        (if ltb max_input_clock_index clock_index
          then throw einval
          else clock_index_to_ref_index clock_index) in
      let los : M (Fc3 Dev) (ℕ × ℕ) = (do
        ref_index ← find
        los_addr ← or_einval (get_losmon_sts_reg_offset s.devid ref_index)
        freq_addr ← or_einval (get_freqmon_sts_reg_offset s.devid ref_index)
        los_reg ← read_reg regmap los_addr
        pure (bit_and los_reg 1, freq_addr)) in
      elim (los s) [
        | fail e t ↦ (e, alarms, t)
        | ok (los_bit, freq_addr) t ↦ elim (read_bytes regmap freq_addr 4 t) [
          | ok buf t' ↦ (pos 0, (los_bit, 0, le_number buf / 2 ^ 31 % 2), t')
          | fail e t' ↦ (e, (los_bit, 0, alarms.2), t')
        ]
      ]
