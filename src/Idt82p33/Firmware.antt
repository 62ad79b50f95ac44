-- ===== src/Idt82p33/Firmware.antt =====
-- drivers/ptp/ptp_idt82p33.c: the firmware image, its records, and the masks that it sets.
pub mod Masks
use linux_ptp_driver_package.Prelude.{
  ℕ, bit_and, ◌&&◌, ◌||◌, not, List, [], ◌∷◌, if◌then◌else◌, ◌==◌, ltb,
}
use linux_ptp_driver_package.Prelude.Int.{ℤ}
use linux_ptp_driver_package.Bus.{M, pure, throw, ◌>>◌, fail, ok}
use linux_ptp_driver_package.Bus.Regmap.{Regmap}
use linux_ptp_driver_package.Idt82p33.State.{Idt82p33, write_u8, reg_addr, modify_channel}
use linux_ptp_driver_package.Bus.Errno.{einval}

-- `struct idt82p33_fwrc`, four bytes.
pub record Fwrc : Type 0 where
  pub hiaddr : ℕ
  pub loaddr : ℕ
  pub value : ℕ
  pub reserved : ℕ

-- What `request_firmware` gives: a code, or an image as the list of its whole records.
pub data Image : Type 0 where
  missing : ℤ → Image
  found : List Fwrc → Image

module _ {Dev : Type 0} where
  unfoldable pub check_and_set_masks : ℕ → ℕ → ℕ → M (Idt82p33 Dev) (Unit {0})
  check_and_set_masks page offset val s =
      if (page == 0xFF) && (offset == 0xA5)
      then if not (bit_and val 0xfc == 0) || (bit_and val 0x3 == 0)
        then fail einval s
        else ok tt (record s { pll_mask = val })
      else if (page == 0xFF) && (offset == 0xB0)
      then modify_channel 0 (λ c. record c { output_mask = val }) s
      else if (page == 0xFF) && (offset == 0xB2)
      then modify_channel 1 (λ c. record c { output_mask = val }) s
      else ok tt s

module _ {Dev : Type 0} (regmap : Regmap Dev) where
  -- A page has 128 bytes, of which the last four are skipped.
  unfoldable pub load_record : Fwrc → M (Idt82p33 Dev) (Unit {0})
  load_record rec =
      if rec.reserved == 0
      then (do
        check_and_set_masks rec.hiaddr rec.loaddr rec.value
        if ltb 0x7b rec.loaddr
            then pure tt
            else write_u8 regmap (reg_addr rec.hiaddr rec.loaddr) rec.value)
      else throw einval

  unfoldable pub load_records : List Fwrc → M (Idt82p33 Dev) (Unit {0})
  load_records [] = pure tt
  load_records (rec ∷ recs) = let rest = load_records recs in (load_record rec >> rest)

  unfoldable pub idt82p33_load_firmware : Image → M (Idt82p33 Dev) (Unit {0})
  idt82p33_load_firmware (missing e) = throw e
  idt82p33_load_firmware (found recs) = load_records recs
