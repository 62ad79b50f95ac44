-- ===== src/Clockmatrix/Firmware.antt =====
-- drivers/ptp/ptp_clockmatrix.c: the firmware image, its records, and the masks that it sets.
pub mod Masks
pub mod Count
pub mod Frame
use linux_ptp_driver_package.Clockmatrix.State.{
  Idtcm, FwVersion, fw_reg, set_channel, max_tod, write_u8, max_pll,
}
use linux_ptp_driver_package.Prelude.{
  ◌+◌, ◌-◌, ◌*◌, ◌/◌, ◌%◌, ◌^◌, ℕ, bit_and, bit_or, Bool, ◌&&◌, ◌||◌, not, List, [], ◌∷◌, ltb,
  if◌then◌else◌, leb, ◌==◌,
}
use linux_ptp_driver_package.Clockmatrix.Registers.{
  gpio_user_control, scratch, scratch_v520, scsr_base,
}
use linux_ptp_driver_package.Bus.{M, ok, ◌>>◌, fail}
use linux_ptp_driver_package.Bus.Regmap.{Regmap}
use linux_ptp_driver_package.Bus.Errno.{efault, einval}
use linux_ptp_driver_package.Prelude.Int.{eqb_ℤ}

-- `struct idtcm_fwrc`, four bytes.
pub record Fwrc : Type 0 where
  pub hiaddr : ℕ
  pub loaddr : ℕ
  pub value : ℕ
  pub reserved : ℕ

-- `SCSR_ADDR(x)`.
abbrev pub scsr_addr : ℕ → ℕ
scsr_addr x = x % 2 ^ 16

abbrev pub regaddr : Fwrc → ℕ
regaddr rec = bit_or (rec.hiaddr * 2 ^ 8) rec.loaddr

abbrev pub gpio_control : ℕ
gpio_control = scsr_addr gpio_user_control

abbrev pub scratch_addr : FwVersion → ℕ
scratch_addr fw = scsr_addr (fw_reg fw scratch scratch_v520)

-- "Top (status registers) and bottom are read-only", or "last 4 bytes of page skipped".
abbrev pub skipped : FwVersion → ℕ → ℕ → Bool
skipped fw addr loaddr =
    (ltb addr gpio_control || leb (scratch_addr fw) addr)
    || ((ltb 0x7b loaddr && leb loaddr 0x7f) || ltb 0xfb loaddr)

-- The loop of `contains_full_configuration`.
unfoldable pub count_records : FwVersion → List Fwrc → ℕ → ℕ
count_records fw [] count = count
count_records fw (rec ∷ recs) count =
    count_records fw recs (if skipped fw (regaddr rec) rec.loaddr then count else count + 1)

abbrev pub full_count : FwVersion → ℕ
full_count fw =
    (scratch_addr fw - gpio_control) - (scratch_addr fw / 2 ^ 7 - gpio_control / 2 ^ 7) * 4

unfoldable pub contains_full_configuration : FwVersion → List Fwrc → Bool
unfolding count_records
contains_full_configuration fw recs = leb (full_count fw) (count_records fw recs 0)

-- `SET_U16_LSB` and `SET_U16_MSB`.
abbrev pub set_u16_lsb : ℕ → ℕ → ℕ
set_u16_lsb orig val8 = bit_or (bit_and orig 0xff00) val8

abbrev pub set_u16_msb : ℕ → ℕ → ℕ
set_u16_msb orig val8 = bit_or (bit_and orig 0x00ff) (val8 * 2 ^ 8)

abbrev pub tod_mask_addr : ℕ
tod_mask_addr = 0xFFA5

abbrev pub tod0_ptp_pll_addr : ℕ
tod0_ptp_pll_addr = 0xFFA8

abbrev pub tod0_out_align_mask_addr : ℕ
tod0_out_align_mask_addr = 0xFFB0

module _ {Dev : Type 0} where
  abbrev pub update_output_mask : ℕ → (ℕ → ℕ) → M (Idtcm Dev) (Unit {0})
  update_output_mask i f s =
      let c = s.channel i in ok tt (set_channel s i (record c { output_mask = f c.output_mask }))

  unfoldable pub set_pll_output_mask : ℕ → ℕ → M (Idtcm Dev) (Unit {0})
  set_pll_output_mask addr val s =
      let lsb = λ (o : ℕ). set_u16_lsb o val in
      let msb = λ (o : ℕ). set_u16_msb o val % 2 ^ 16 in
      if addr == tod0_out_align_mask_addr
      then update_output_mask 0 lsb s
      else if addr == tod0_out_align_mask_addr + 1
      then update_output_mask 0 msb s
      else if addr == tod0_out_align_mask_addr + 2
      then update_output_mask 1 lsb s
      else if addr == tod0_out_align_mask_addr + 3
      then update_output_mask 1 msb s
      else if addr == tod0_out_align_mask_addr + 4
      then update_output_mask 2 lsb s
      else if addr == tod0_out_align_mask_addr + 5
      then update_output_mask 2 msb s
      else if addr == tod0_out_align_mask_addr + 6
      then update_output_mask 3 lsb s
      else if addr == tod0_out_align_mask_addr + 7
      then update_output_mask 3 msb s
      else fail efault s

  unfoldable pub set_tod_ptp_pll : ℕ → ℕ → M (Idtcm Dev) (Unit {0})
  set_tod_ptp_pll index pll s =
      if leb max_tod index
      then fail einval s
      else if leb max_pll pll
      then fail einval s
      else ok tt (set_channel s index (record (s.channel index) { pll = pll }))

  unfoldable pub check_and_set_masks : ℕ → ℕ → M (Idtcm Dev) (Unit {0})
  unfolding set_pll_output_mask set_tod_ptp_pll
  check_and_set_masks addr val s =
      if addr == tod_mask_addr
      then if not (bit_and val 0xf0 == 0) || (bit_and val 0x0f == 0)
        then fail einval s
        else ok tt (record s { tod_mask = val })
      else if addr == tod0_ptp_pll_addr
      then set_tod_ptp_pll 0 val s
      else if addr == tod0_ptp_pll_addr + 1
      then set_tod_ptp_pll 1 val s
      else if addr == tod0_ptp_pll_addr + 2
      then set_tod_ptp_pll 2 val s
      else if addr == tod0_ptp_pll_addr + 3
      then set_tod_ptp_pll 3 val s
      else set_pll_output_mask addr val s

module _ {Dev : Type 0} (regmap : Regmap Dev) where
  -- The rest of a round of the loop, once the record was taken with a code other than -EINVAL.
  unfoldable pub program_record : FwVersion → Fwrc → M (Idtcm Dev) (Unit {0})
  program_record fw rec s =
      if skipped fw (regaddr rec) rec.loaddr
      then ok tt s
      else write_u8 regmap scsr_base (regaddr rec) rec.value s

  unfoldable pub load_record : FwVersion → Fwrc → M (Idtcm Dev) (Unit {0})
  unfolding check_and_set_masks program_record
  load_record fw rec s =
      if rec.reserved == 0
      then elim (check_and_set_masks (regaddr rec) rec.value s) [
        | ok u t ↦ program_record fw rec t
        | fail e t ↦ if eqb_ℤ e einval then fail einval t else program_record fw rec t
      ]
      else fail einval s

  unfoldable pub load_records : FwVersion → List Fwrc → M (Idtcm Dev) (Unit {0})
  load_records fw [] s = ok tt s
  load_records fw (rec ∷ recs) s = let rest = load_records fw recs in (load_record fw rec >> rest) s
