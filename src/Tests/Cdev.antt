-- ===== src/Tests/Cdev.antt =====
-- The theorems of the character device, on the operations of a Sabre chip behind a memory.
use linux_ptp_driver_package.Tests.Chips.{memory}
use linux_ptp_driver_package.Prelude.{ℕ, ◌≡◌, refl, true, false, none, some, []}
use linux_ptp_driver_package.Misc.Sabre.{Sabre, on_sabre}
use linux_ptp_driver_package.Bus.Regmap.{Regmap}
use linux_ptp_driver_package.Misc.Cdev.{Ioctl, UserAccess, Stale, rsmu_ioctl, rsmu_get_tdc_meas_cmd}
use linux_ptp_driver_package.Misc.Cdev.Probe.{OutcomeHolds, rsmu_probe, rsmu_probe-OutcomeHolds}
use linux_ptp_driver_package.Prelude.Int.{pos}
use linux_ptp_driver_package.Misc.Cdev.Families.{sabre_ops}
use linux_ptp_driver_package.Bus.Errno.{eopnotsupp, enodev}
use linux_ptp_driver_package.Misc.Cdev.Guards.{rsmu_ioctl-refused}
use linux_ptp_driver_package.Bus.{fail}
use linux_ptp_driver_package.Mfd.Ddata.{RsmuType}
use linux_ptp_driver_package.Mfd.Core.{Attached, rsmu_i2c_probe, rsmu_spi_probe}
use linux_ptp_driver_package.Misc.Cdev.Table.{Attempted, bus_probe-Attempted}

abbrev sabre : Sabre (ℕ → ℕ)
sabre = record { operating_mode_prev = λ i. 0; dev = λ a. 10 }

-- A register map over the state of the family's driver.
abbrev sabre_regmap : Regmap (Sabre (ℕ → ℕ))
sabre_regmap = record {
  bulk_read = λ a count. on_sabre memory (memory.bulk_read a count);
  bulk_write = λ a buf. on_sabre memory (memory.bulk_write a buf);
}

-- A measurement, which the family does not have, with an argument that cannot be read.
abbrev call : Ioctl
call = rsmu_get_tdc_meas_cmd (record { continuous = true; offset = pos 7 })

abbrev unreadable : UserAccess
unreadable = record { readable = false; writable = true }

abbrev stale : Stale
stale = record { state = 0; clock_index = pos 0; alarms = (0, 0, 0) }

rsmu_ioctl-refused_example :
    rsmu_ioctl (sabre_ops memory) sabre_regmap unreadable stale call sabre
    ≡ (eopnotsupp, call, sabre)
rsmu_ioctl-refused_example =
    rsmu_ioctl-refused (sabre_ops memory) sabre_regmap unreadable stale call sabre refl

abbrev smu_type : RsmuType
smu_type = RsmuType.sabre

-- A device whose chip is not there: its initialisation fails.
rsmu_probe-OutcomeHolds_example : OutcomeHolds (
    rsmu_probe smu_type
      (pos 0)
      (some (λ s. fail enodev s))
      true
      (record { index = none; registered = false; ops = none; rsmu = sabre }))
rsmu_probe-OutcomeHolds_example =
    rsmu_probe-OutcomeHolds smu_type (pos 0) (some (λ s. fail enodev s)) true
      (record { index = none; registered = false; ops = none; rsmu = sabre }) (refl, refl)

abbrev detached : Attached
detached = record { config = none; cells = [] }

-- An adapter that only has SMBus blocks.
bus_probe-Attempted_example :
    Attempted smu_type detached (
      rsmu_i2c_probe
        (record { func_i2c = false; func_smbus_i2c_block = true })
        (pos 0)
        (pos 0)
        smu_type
        detached)
    × Attempted smu_type detached (rsmu_spi_probe (pos 0) (pos 0) smu_type detached)
bus_probe-Attempted_example =
    bus_probe-Attempted (record { func_i2c = false; func_smbus_i2c_block = true }) (pos 0) (pos 0)
      smu_type detached
