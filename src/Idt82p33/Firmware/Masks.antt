-- ===== src/Idt82p33/Firmware/Masks.antt =====
-- The PLL mask that a firmware image may set.
use linux_ptp_driver_package.Prelude.{
  ℕ, ◌<◌, bit_and, ◌≡◌, refl, inl, inr, true, ◌&&◌, ◌||◌, not, List, [], ◌∷◌, arith, ◌==◌, ltb,
  if◌then◌else◌, Bool-cases,
}
use linux_ptp_driver_package.Idt82p33.State.{Idt82p33, write_u8, reg_addr}
use linux_ptp_driver_package.Idt82p33.Firmware.{
  Fwrc, Image, check_and_set_masks, missing, load_record, load_records, idt82p33_load_firmware,
  found,
}
use linux_ptp_driver_package.Prelude.Bits.{checked, checked-entry}
use linux_ptp_driver_package.Bus.Regmap.{Regmap}
use linux_ptp_driver_package.Bus.{After, After->>, pure, After-if}

-- At least one of the two PLLs is flagged, and no other.
abbrev pub HasPlls : {Dev : Type 0} → Idt82p33 Dev → Type 0
HasPlls s = (0 < s.pll_mask) × (s.pll_mask < 4)

abbrev pub AreRecords : List Fwrc → Type 0
AreRecords [] = Unit
AreRecords (rec ∷ recs) = (rec.value < 256) × AreRecords recs

abbrev pub IsImage : Image → Type 0
IsImage (missing e) = Unit
IsImage (found recs) = AreRecords recs

mask_table :
    checked 256 (λ v.
      not (not (bit_and v 0xfc == 0) || (bit_and v 0x3 == 0)) && (ltb 0 v && ltb v 4)
      || (not (bit_and v 0xfc == 0) || (bit_and v 0x3 == 0)))
    ≡ true
unfolding checked
mask_table = refl

module _ {Dev : Type 0} where
  check_and_set_masks-HasPlls :
      (page offset val : ℕ) (s : Idt82p33 Dev)
      → val < 256
      → HasPlls s
      → After HasPlls (check_and_set_masks page offset val s)
  unfolding check_and_set_masks
  check_and_set_masks-HasPlls page offset val s h k =
      ground (arith, checked-entry _ 256 mask_table val h)

module _ {Dev : Type 0} (regmap : Regmap Dev) where
  write_u8-HasPlls :
      (a v : ℕ) (s : Idt82p33 Dev) → HasPlls s → After HasPlls (write_u8 regmap a v s)
  unfolding write_u8
  write_u8-HasPlls a v s k = ground arith

  load_record-HasPlls :
      (rec : Fwrc) (s : Idt82p33 Dev)
      → rec.value < 256
      → HasPlls s
      → After HasPlls (load_record regmap rec s)
  unfolding load_record
  load_record-HasPlls rec s h k = elim (Bool-cases (rec.reserved == 0)) [
    | inl e ↦ rw e (
        After->> (check_and_set_masks rec.hiaddr rec.loaddr rec.value) _ HasPlls s
          (check_and_set_masks-HasPlls rec.hiaddr rec.loaddr rec.value s h k) programmed)
    | inr e ↦ rw e k
  ]
    where
      programmed :
          (t : Idt82p33 Dev)
          → HasPlls t
          → After HasPlls (
              (if ltb 0x7b rec.loaddr
                  then pure tt
                  else write_u8 regmap (reg_addr rec.hiaddr rec.loaddr) rec.value)
                t)
      programmed t p =
          After-if HasPlls (ltb 0x7b rec.loaddr) (pure tt)
            (write_u8 regmap (reg_addr rec.hiaddr rec.loaddr) rec.value) t p
            (write_u8-HasPlls (reg_addr rec.hiaddr rec.loaddr) rec.value t p)

  load_records-HasPlls :
      (recs : List Fwrc) (s : Idt82p33 Dev)
      → AreRecords recs
      → HasPlls s
      → After HasPlls (load_records regmap recs s)
  unfolding load_records
  load_records-HasPlls [] s h k = k
  load_records-HasPlls (rec ∷ recs) s h k =
      After->> (load_record regmap rec) (load_records regmap recs) HasPlls s
        (load_record-HasPlls rec s h.0 k) (λ t p. load_records-HasPlls recs t h.1 p)

  -- Loading a firmware image of byte values keeps at least one of the two PLLs, and no other, flagged
  -- as a clock, whether the image is missing, loaded to its end or refused on the way.
  pub idt82p33_load_firmware-HasPlls :
      (image : Image) (s : Idt82p33 Dev)
      → IsImage image
      → HasPlls s
      → After HasPlls (idt82p33_load_firmware regmap image s)
  unfolding idt82p33_load_firmware
  idt82p33_load_firmware-HasPlls (missing e) s h k = k
  idt82p33_load_firmware-HasPlls (found recs) s h k = load_records-HasPlls recs s h k
