-- ===== src/Misc/Sabre.antt =====
-- drivers/misc/rsmu_sabre.c: the operations of the character device on a Sabre chip.
pub mod Holdover
use linux_ptp_driver_package.Prelude.{
  ℕ, ◌-◌, ◌*◌, ◌/◌, ◌%◌, ◌^◌, bit_and, bit_or, Bool, true, false, ◌||◌, not, Option, none, some,
  List, [], ◌∷◌, if◌then◌else◌, ◌==◌, ltb, leb,
}
use linux_ptp_driver_package.Prelude.Int.{ℤ, quot, s64, signed, ◌*ℤ◌, pos}
use linux_ptp_driver_package.Bus.Regmap.{Regmap, read_byte, write_byte}
use linux_ptp_driver_package.Bus.{M, ok, throw, pure, ◌>>=◌, ignore, fail, ◌>>◌, get}
use linux_ptp_driver_package.Idt82p33.Firmware.{Fwrc, Image, missing, found}
use linux_ptp_driver_package.Idt82p33.State.{
  pll_mode_dco, reg_addr, pll_mode_wph, pll_mode_force_holdover, pll_mode_automatic,
}
use linux_ptp_driver_package.Bus.Errno.{einval}
use linux_ptp_driver_package.Clockmatrix.Setup.{le_number}
use linux_ptp_driver_package.Misc.Cm.{e_combomode_max}

-- The part of `struct rsmu_cdev` that the operations use, with the chip and the file's own array
-- `dpll_operating_mode_cnfg_prev` of two bytes.
pub record Sabre (Dev : Type 0) : Type 0 where
  pub operating_mode_prev : ℕ → ℕ
  pub dev : Dev

abbrev pub dpll1_operating_mode_cnfg : ℕ
dpll1_operating_mode_cnfg = 0x120

abbrev pub dpll2_operating_mode_cnfg : ℕ
dpll2_operating_mode_cnfg = 0x1A0

abbrev pub dpll1_holdover_mode_cnfg_msb : ℕ
dpll1_holdover_mode_cnfg_msb = 0x12B

abbrev pub dpll2_holdover_mode_cnfg_msb : ℕ
dpll2_holdover_mode_cnfg_msb = 0x1AA

abbrev pub dpll1_holdover_freq_cnfg : ℕ
dpll1_holdover_freq_cnfg = 0x12C

abbrev pub dpll2_holdover_freq_cnfg : ℕ
dpll2_holdover_freq_cnfg = 0x1AC

abbrev pub dpll1_operating_sts : ℕ
dpll1_operating_sts = 0x102

abbrev pub dpll2_operating_sts : ℕ
dpll2_operating_sts = 0x182

abbrev pub combo_mode_shift : ℕ
combo_mode_shift = 6

abbrev pub combo_mode_mask : ℕ
combo_mode_mask = 0x3

abbrev pub operating_sts_mask : ℕ
operating_sts_mask = 0x7

abbrev pub holdover_mode_manual : ℕ
holdover_mode_manual = 1

abbrev pub holdover_mode_max : ℕ
holdover_mode_max = 1

-- `rsmu_set_bitfield` and `rsmu_get_bitfield` of a byte.
unfoldable pub rsmu_set_bitfield : ℕ → ℕ → ℕ → ℕ → ℕ
rsmu_set_bitfield reg mask lsb field =
    bit_or (bit_and reg (0xFF - mask)) (bit_and (field * 2 ^ lsb) mask)

unfoldable pub rsmu_get_bitfield : ℕ → ℕ → ℕ → ℕ
rsmu_get_bitfield reg mask lsb = bit_and reg mask / 2 ^ lsb

-- The addresses of the two DPLLs; `none` is the return of -EINVAL.
unfoldable pub reg_dpll_operating_mode_cnfg_offset : ℕ → Option ℕ
reg_dpll_operating_mode_cnfg_offset dpll =
    if dpll == 0
    then some dpll1_operating_mode_cnfg
    else if dpll == 1
    then some dpll2_operating_mode_cnfg
    else none

unfoldable pub reg_dpll_holdover_mode_cnfg_msb_offset : ℕ → Option ℕ
reg_dpll_holdover_mode_cnfg_msb_offset dpll =
    if dpll == 0
    then some dpll1_holdover_mode_cnfg_msb
    else if dpll == 1
    then some dpll2_holdover_mode_cnfg_msb
    else none

-- The address of one of two registers, as a `switch` over the DPLL gives it.
abbrev pub one_of_two : ℕ → ℕ → ℕ → Option ℕ
one_of_two dpll first second =
    if dpll == 0 then some first else if dpll == 1 then some second else none

-- The class of an operating status.
unfoldable pub class_state : ℕ → ℕ
class_state sts =
    if sts == 1
    then 1
    else if (sts == 5) || (sts == 6)
    then 2
    else if sts == 4
    then 4
    else if sts == 2
    then 5
    else 9

-- `sign_extend64(get_unaligned_le64(buf), 39)` of five bytes, in units of ppqt.
unfoldable pub ffo_of : List ℕ → ℤ
ffo_of buf = quot (s64 (signed 40 (le_number buf % 2 ^ 40) *ℤ pos 2107689)) 12500

unfoldable pub with_combo_mode : ℕ → ℕ → ℕ
with_combo_mode cfg mode =
    bit_or (bit_and cfg (0xFF - combo_mode_mask * 2 ^ combo_mode_shift))
      (mode * 2 ^ combo_mode_shift)
    % 256

module _ {Dev : Type 0} (regmap : Regmap Dev) where
  abbrev pub on_sabre : {A : Type 0} → M Dev A → M (Sabre Dev) A
  on_sabre m s = elim (m s.dev) [
    | ok a d ↦ ok a (record s { dev = d })
    | fail e d ↦ fail e (record s { dev = d })
  ]

  -- `reg_readwrite`.
  unfoldable pub read_reg : ℕ → M (Sabre Dev) ℕ
  read_reg a = on_sabre (read_byte regmap a)

  unfoldable pub write_reg : ℕ → ℕ → M (Sabre Dev) (Unit {0})
  write_reg a v = on_sabre (write_byte regmap a v)

  abbrev pub or_einval : {A : Type 0} → Option A → M (Sabre Dev) A
  or_einval none = throw einval
  or_einval (some a) = pure a

  -- `prev8` is where the byte that was read is kept, if it is.
  abbrev pub keep_prev : Option ℕ → ℕ → M (Sabre Dev) (Unit {0})
  keep_prev none v s = ok tt s
  keep_prev (some n) v s =
      ok tt (record s { operating_mode_prev = λ j. if j == n then v else s.operating_mode_prev j })

  unfoldable pub reg_rmw : ℕ → ℕ → ℕ → ℕ → Option ℕ → M (Sabre Dev) (Unit {0})
  reg_rmw offset mask lsb val8 prev8 = do
    tmp_val8 ← read_reg offset
    keep_prev prev8 tmp_val8
    write_reg offset (rsmu_set_bitfield tmp_val8 mask lsb val8)

  unfoldable pub rmw_reg_dpll_operating_mode_cnfg :
      ℕ → ℕ → ℕ → ℕ → Option ℕ → M (Sabre Dev) (Unit {0})
  rmw_reg_dpll_operating_mode_cnfg dpll mask lsb val8 prev8 = do
    offset ← or_einval (reg_dpll_operating_mode_cnfg_offset dpll)
    reg_rmw offset mask lsb val8 prev8

  unfoldable pub rmw_reg_dpll_holdover_mode_cnfg_msb :
      ℕ → ℕ → ℕ → ℕ → Option ℕ → M (Sabre Dev) (Unit {0})
  rmw_reg_dpll_holdover_mode_cnfg_msb dpll mask lsb val8 prev8 = do
    offset ← or_einval (reg_dpll_holdover_mode_cnfg_msb_offset dpll)
    reg_rmw offset mask lsb val8 prev8

  unfoldable pub set_dpll_oper_mode : ℕ → ℕ → Bool → M (Sabre Dev) (Unit {0})
  set_dpll_oper_mode dpll mode save_prev =
      rmw_reg_dpll_operating_mode_cnfg dpll 0x1f 0 mode (if save_prev then some dpll else none)

  unfoldable pub set_manual_holdover_mode : ℕ → ℕ → M (Sabre Dev) (Unit {0})
  set_manual_holdover_mode dpll mode = rmw_reg_dpll_holdover_mode_cnfg_msb dpll 0x80 7 mode none

  unfoldable pub rsmu_sabre_set_combomode : ℕ → ℕ → M (Sabre Dev) (Unit {0})
  rsmu_sabre_set_combomode dpll mode = do
    a ← or_einval (one_of_two dpll dpll1_operating_mode_cnfg dpll2_operating_mode_cnfg)
    if leb e_combomode_max mode
        then throw einval
        else (do cfg ← read_reg a; write_reg a (with_combo_mode cfg mode))

  unfoldable pub rsmu_sabre_get_dpll_state : ℕ → M (Sabre Dev) ℕ
  rsmu_sabre_get_dpll_state dpll = do
    a ← or_einval (one_of_two dpll dpll1_operating_sts dpll2_operating_sts)
    cfg ← read_reg a
    pure (class_state (bit_and cfg operating_sts_mask))

  unfoldable pub rsmu_sabre_get_dpll_ffo : ℕ → M (Sabre Dev) ℤ
  rsmu_sabre_get_dpll_ffo dpll = do
    a ← or_einval (one_of_two dpll dpll1_holdover_freq_cnfg dpll2_holdover_freq_cnfg)
    buf ← on_sabre (regmap.bulk_read a 5)
    pure (ffo_of buf)

  -- Switching holdover off: back to the mode that was in force, as far as it is one of three.
  unfoldable pub restore_mode : ℕ → ℕ → M (Sabre Dev) (Unit {0})
  restore_mode dpll prev_mode =
      if prev_mode == pll_mode_dco
      then (do
        set_dpll_oper_mode dpll pll_mode_dco false
        set_manual_holdover_mode dpll holdover_mode_manual)
      else if prev_mode == pll_mode_wph
      then set_dpll_oper_mode dpll pll_mode_wph false
      else if prev_mode == pll_mode_automatic
      then set_dpll_oper_mode dpll pll_mode_automatic false
      else throw einval

  -- The array is read at the DPLL's number before it is checked: `operating_mode_prev` says what is
  -- there, past its two bytes too.
  unfoldable pub rsmu_sabre_set_holdover_mode : ℕ → ℕ → ℕ → M (Sabre Dev) (Unit {0})
  rsmu_sabre_set_holdover_mode dpll enable mode = do
    s ← get
    if ltb holdover_mode_max mode
        then throw einval
        else if not (enable == 0)
        then (do
          set_manual_holdover_mode dpll mode
          set_dpll_oper_mode dpll pll_mode_force_holdover true)
        else restore_mode dpll (rsmu_get_bitfield (s.operating_mode_prev dpll) 0x1f 0)

  -- `check_and_set_masks` of this file always returns 0, so every whole record is written but for the
  -- last four bytes of a page.
  unfoldable pub load_record : Fwrc → M (Sabre Dev) (Unit {0})
  load_record rec =
      if rec.reserved == 0
      then if ltb 0x7b rec.loaddr
        then pure tt
        else write_reg (reg_addr rec.hiaddr rec.loaddr) rec.value
      else throw einval

  unfoldable pub load_records : List Fwrc → M (Sabre Dev) (Unit {0})
  load_records [] = pure tt
  load_records (rec ∷ recs) = let rest = load_records recs in (load_record rec >> rest)

  unfoldable pub load_firmware : Image → M (Sabre Dev) (Unit {0})
  load_firmware (missing e) = throw e
  load_firmware (found recs) = load_records recs

  -- A failure of the firmware is only logged.
  unfoldable pub rsmu_sabre_init : Image → M (Sabre Dev) (Unit {0})
  rsmu_sabre_init image = ignore (load_firmware image)
