-- ===== src/Misc/Cm/Setup.antt =====
-- drivers/misc/rsmu_cm.c: the firmware image, and setting up a ClockMatrix chip.
use linux_ptp_driver_package.Prelude.{◌+◌, inl, inr, ◌⊎◌, List, [], ◌∷◌, if◌then◌else◌, ◌==◌}
use linux_ptp_driver_package.Bus.Regmap.{Regmap}
use linux_ptp_driver_package.Misc.Cm.{Rsmu, get_fw_version, write_reg}
use linux_ptp_driver_package.Clockmatrix.State.{FwVersion, v_default}
use linux_ptp_driver_package.Prelude.Int.{ℤ}
use linux_ptp_driver_package.Bus.{M, pure, throw, ◌>>◌, ◌>>=◌, ignore, get}
use linux_ptp_driver_package.Clockmatrix.Firmware.{skipped, regaddr, Fwrc}
use linux_ptp_driver_package.Clockmatrix.Registers.{scsr_base}
use linux_ptp_driver_package.Bus.Errno.{einval}

module _ {Dev : Type 0} (regmap : Regmap Dev) where
  -- `check_and_set_masks` of this file always returns 0, so every record is written but for those at
  -- read-only addresses and at the last four bytes of a page.
  unfoldable pub load_record : FwVersion → Fwrc → M (Rsmu Dev) (Unit {0})
  load_record fw rec =
      if rec.reserved == 0
      then if skipped fw (regaddr rec) rec.loaddr
        then pure tt
        else write_reg regmap (scsr_base + regaddr rec) rec.value
      else throw einval

  unfoldable pub load_records : FwVersion → List Fwrc → M (Rsmu Dev) (Unit {0})
  load_records fw [] = pure tt
  load_records fw (rec ∷ recs) = let rest = load_records fw recs in (load_record fw rec >> rest)

  -- `request_firmware` gives an error or the records of the image. The limit of the addresses is that
  -- of the version known so far.
  unfoldable pub load_firmware : ℤ ⊎ List Fwrc → M (Rsmu Dev) (Unit {0})
  load_firmware (inl e) = throw e
  load_firmware (inr recs) = do s ← get; load_records s.fw_version recs

  -- The state is the zeroed one: the version is read after the firmware, whose failure is only logged.
  unfoldable pub rsmu_cm_init : ℤ ⊎ List Fwrc → M (Rsmu Dev) (Unit {0})
  rsmu_cm_init image = do ignore (load_firmware image); get_fw_version regmap

-- The state that `rsmu_cm_init` starts from.
abbrev pub zeroed : {Dev : Type 0} → Dev → Rsmu Dev
zeroed d = record { fw_version = v_default; dev = d }
