-- ===== src/Misc/Cdev/Table.antt =====
-- drivers/misc/rsmu_cdev.c: the table of names by which the kernel finds the driver, and that the bus
-- drivers register a device of that name.
use Prim.Native.String.{String}
use text.Mathlib.Text.{◌==◌}
use linux_ptp_driver_package.Prelude.{
  ℕ, Option, none, some, ◌≡◌, refl, Bool, true, false, [], ◌∷◌, if◌then◌else◌, ◌⊎◌, inl, inr,
}
use linux_ptp_driver_package.Misc.Cdev.Probe.{rsmu_init_ops}
use linux_ptp_driver_package.Mfd.Ddata.{RsmuType, cm, sabre, fc3, unknown}
use linux_ptp_driver_package.Mfd.Core.{
  Attached, rsmu_core_init, RegmapConfig, cells_of, i2c_config, spi_config, rsmu_i2c_probe, Adapter,
  rsmu_spi_probe, rsmu_i2c_cm_regmap_config, rsmu_smbus_i2c_cm_regmap_config, attach_with,
}
use linux_ptp_driver_package.Bus.{Outcome, ok, fail}
use linux_ptp_driver_package.Prelude.Int.{ℤ, eqb_ℤ, pos}
use linux_ptp_driver_package.Bus.Errno.{enotsupp}

unfoldable pub rsmu_id_table : String → Option RsmuType
rsmu_id_table name =
    if name == "8a3400x-cdev"
    then some cm
    else if name == "82p33x1x-cdev"
    then some sabre
    else if name == "rc38xxx-cdev"
    then some fc3
    else none

-- The last register address of a type.
abbrev pub last_register : RsmuType → ℕ
last_register cm = 0x20120000
last_register sabre = 0x400
last_register fc3 = 0xE88
last_register unknown = 0

-- A chip is attached: its register map ends where that of its type does, and of its two sub devices
-- the second has a name that the character device's table has with that very type, for which there
-- are operations.
abbrev pub IsAttached : RsmuType → Attached → Type 0
IsAttached type s =
    (cfg : RegmapConfig) × (s.config ≡ some cfg)
    × (cfg.max_register ≡ last_register type)
    × (cfg.val_bits ≡ 8)
    × (phc : String) × (cdev : String) × (s.cells ≡ phc ∷ cdev ∷ [])
    × (rsmu_id_table cdev ≡ some type)
    × (n : ℕ) × (rsmu_init_ops type ≡ some n)

-- What an attempt gives: an attached chip, or a failure that registers no sub device.
abbrev pub Attempted : RsmuType → Attached → Outcome Attached (Unit {0}) → Type 0
Attempted type before (ok u s) = IsAttached type s
Attempted type before (fail e s) = s.cells ≡ before.cells

Attempted-if :
    (type : RsmuType) (b : Bool) (e : ℤ) (before s s' : Attached)
    → IsAttached type s'
    → s.cells ≡ before.cells
    → Attempted type before (if b then ok tt s' else fail e s)
Attempted-if type true e before s s' h k = h
Attempted-if type false e before s s' h k = k

rsmu_core_init-Attempted :
    (type : RsmuType) (cfg : RegmapConfig) (add_devices : ℤ) (before s : Attached)
    → s.cells ≡ before.cells
    → s.config ≡ some cfg
    → cfg.max_register ≡ last_register type
    → cfg.val_bits ≡ 8
    → Attempted type before (rsmu_core_init add_devices type s)
unfolding rsmu_core_init cells_of rsmu_id_table rsmu_init_ops
rsmu_core_init-Attempted cm cfg e before s k c h b =
    Attempted-if cm (eqb_ℤ e (pos 0)) e before s _ (cfg, c, h, b, _, _, refl, refl, 0, refl) k
rsmu_core_init-Attempted sabre cfg e before s k c h b =
    Attempted-if sabre (eqb_ℤ e (pos 0)) e before s _ (cfg, c, h, b, _, _, refl, refl, 1, refl) k
rsmu_core_init-Attempted fc3 cfg e before s k c h b =
    Attempted-if fc3 (eqb_ℤ e (pos 0)) e before s _ (cfg, c, h, b, _, _, refl, refl, 2, refl) k
rsmu_core_init-Attempted unknown cfg e before s k c h b = k

-- What a bus driver's choice of a configuration must be.
abbrev pub IsChoice : RsmuType → ℤ ⊎ RegmapConfig → Type 0
IsChoice type (inl e) = Unit
IsChoice type (inr cfg) = (cfg.max_register ≡ last_register type) × (cfg.val_bits ≡ 8)

attach-Attempted :
    (type : RsmuType) (choice : ℤ ⊎ RegmapConfig) (regmap_init add_devices : ℤ) (s : Attached)
    → IsChoice type choice
    → Attempted type s (attach_with regmap_init add_devices choice type s)
unfolding attach_with
attach-Attempted type (inl e) regmap_init add_devices s h = refl
attach-Attempted type (inr cfg) regmap_init add_devices s (h, b) = go (eqb_ℤ regmap_init (pos 0))
  where
    go :
        (zero : Bool)
        → Attempted type s (
            if zero
            then rsmu_core_init add_devices type (record s { config = some cfg })
            else fail regmap_init s)
    go true =
        rsmu_core_init-Attempted type cfg add_devices s (record s { config = some cfg }) refl refl h
          b
    go false = refl

i2c_config-IsChoice :
    (adapter : Adapter) (type : RsmuType) → IsChoice type (i2c_config adapter type)
unfolding i2c_config
i2c_config-IsChoice adapter cm = go adapter.func_i2c adapter.func_smbus_i2c_block
  where
    go :
        (a b : Bool)
        → IsChoice cm (
            if a
            then inr rsmu_i2c_cm_regmap_config
            else if b
            then inr rsmu_smbus_i2c_cm_regmap_config
            else inl enotsupp)
    go true b = (refl, refl)
    go false true = (refl, refl)
    go false false = tt
i2c_config-IsChoice adapter sabre = (refl, refl)
i2c_config-IsChoice adapter fc3 = (refl, refl)
i2c_config-IsChoice adapter unknown = tt

spi_config-IsChoice : (type : RsmuType) → IsChoice type (spi_config type)
unfolding spi_config
spi_config-IsChoice cm = (refl, refl)
spi_config-IsChoice sabre = (refl, refl)
spi_config-IsChoice fc3 = tt
spi_config-IsChoice unknown = tt

-- For a chip of any type, with any adapter and any outcome of the kernel's calls, an attempt to attach
-- to it over I2C or over SPI either fails and registers no sub device, or gives the register map its
-- type's last address and 8-bit values, and registers a sub device under a name for which the
-- character device's table has that very type, and for whose type there are operations.
pub bus_probe-Attempted :
    (adapter : Adapter) (regmap_init add_devices : ℤ) (type : RsmuType) (s : Attached)
    → Attempted type s (rsmu_i2c_probe adapter regmap_init add_devices type s)
      × Attempted type s (rsmu_spi_probe regmap_init add_devices type s)
unfolding rsmu_i2c_probe rsmu_spi_probe
bus_probe-Attempted adapter regmap_init add_devices type s = (
  attach-Attempted type (i2c_config adapter type) regmap_init add_devices s
      (i2c_config-IsChoice adapter type),
  attach-Attempted type (spi_config type) regmap_init add_devices s (spi_config-IsChoice type),
)
