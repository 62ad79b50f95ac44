-- ===== src/Misc/Fc3/Firmware.antt =====
-- drivers/misc/rsmu_fc3.c: the firmware image, and setting up a FemtoClock3 chip.
use linux_ptp_driver_package.Prelude.{
  ℕ, ◌+◌, ◌*◌, ◌^◌, zero, suc, bit_or, ◌⊎◌, inl, inr, if◌then◌else◌, ltb, ◌==◌,
}
use linux_ptp_driver_package.Misc.Fc3.{
  Fc3, v_default, hw_calibrate, read_device_id, write_reg, idtfc3_set_hw_param,
}
use linux_ptp_driver_package.Bus.Regmap.{Regmap}
use linux_ptp_driver_package.Bus.{M, ok, pure, throw, ◌>>◌, fail, ◌>>=◌, ignore}
use linux_ptp_driver_package.Prelude.Int.{ℤ, eqb_ℤ}
use linux_ptp_driver_package.Bus.Errno.{efault, einval}

-- `struct idtfc3_fwrc`, four bytes.
pub record Fwrc : Type 0 where
  pub hiaddr : ℕ
  pub loaddr : ℕ
  pub value : ℕ
  pub reserved : ℕ

-- `get_unaligned_be32` of a record.
abbrev pub be32 : Fwrc → ℕ
be32 rec = rec.hiaddr * 2 ^ 24 + rec.loaddr * 2 ^ 16 + rec.value * 2 ^ 8 + rec.reserved

abbrev pub max_register : ℕ
max_register = 0xE88

-- The state that `rsmu_fc3_init` starts from: zeroed.
abbrev pub zeroed : {Dev : Type 0} → Dev → Fc3 Dev
zeroed d = record {
  devid = v_default;
  meas_mode = 0;
  tdc_ref_freq = 0;
  time_clk_freq = 0;
  tdc_apll_freq = 0;
  time_ref_freq = 0;
  dev = d;
}

module _ {Dev : Type 0} (regmap : Regmap Dev) where
  -- What becomes of a record with register address `addr`, after the code of `idtfc3_set_hw_param`:
  -- the next round is at record `next`.
  unfoldable pub program_record : ℕ → ℕ → ℕ → M (Fc3 Dev) ℕ
  program_record addr val next =
      if ltb max_register addr then pure next else (do write_reg regmap addr val; pure next)

  -- One round of the loop at record `at`, and the record that the next round is at: a frequency takes
  -- a second record, which holds its value. `mem` is the memory from the image on, in records.
  unfoldable pub load_record : (ℕ → Fwrc) → ℕ → M (Fc3 Dev) ℕ
  load_record mem at s =
      let rec = mem at in
      let addr = bit_or (rec.hiaddr * 2 ^ 8) rec.loaddr in
      if rec.reserved == 0
      then elim (idtfc3_set_hw_param addr (be32 (mem (at + 1))) s) [
        | ok u t ↦ program_record addr rec.value (at + 2) t
        | fail e t ↦ if eqb_ℤ e efault then program_record addr rec.value (at + 1) t else fail e t
      ]
      else fail einval s

  -- The rounds are as many as the image has records, also where a round takes two of them.
  unfoldable pub load_records : (ℕ → Fwrc) → ℕ → ℕ → M (Fc3 Dev) (Unit {0})
  load_records mem zero at = pure tt
  load_records mem (suc rounds) at =
      let rest = load_records mem rounds in (load_record mem at >>= rest)

  -- `request_firmware` gives a code, or the memory of an image and its number of whole records.
  unfoldable pub load_firmware : ℤ ⊎ ((ℕ → Fwrc) × ℕ) → M (Fc3 Dev) (Unit {0})
  load_firmware (inl e) = throw e
  load_firmware (inr (mem, count)) = do load_records mem count 0; hw_calibrate regmap

  -- A failure of the firmware is only logged.
  unfoldable pub rsmu_fc3_init : ℤ ⊎ ((ℕ → Fwrc) × ℕ) → M (Fc3 Dev) (Unit {0})
  rsmu_fc3_init fw = do read_device_id regmap; ignore (load_firmware fw)
