-- ===== src/Mfd/Core.antt =====
-- drivers/mfd/rsmu_core.c, and how drivers/mfd/rsmu_i2c.c and rsmu_spi.c attach to a chip.
use Prim.Native.String.{String}
use text.Mathlib.Text.{◌==◌}
use linux_ptp_driver_package.Prelude.{
  ℕ, Option, none, some, ◌⊎◌, inl, inr, Bool, true, false, ◌||◌, List, [], ◌∷◌, if◌then◌else◌,
}
use linux_ptp_driver_package.Mfd.Ddata.{RsmuType, cm, sabre, fc3, unknown}
use linux_ptp_driver_package.Prelude.Int.{ℤ, eqb_ℤ, pos}
use linux_ptp_driver_package.Bus.{M, fail, ok}
use linux_ptp_driver_package.Bus.Errno.{enodev, enotsupp}

-- The part of `struct regmap_config` that the drivers choose; `paged` is whether the kernel is given a
-- window of pages, `own_access` whether the driver reads and writes itself, and `big_endian` whether
-- addresses are sent so.
pub record RegmapConfig : Type 0 where
  pub reg_bits : ℕ
  pub val_bits : ℕ
  pub max_register : ℕ
  pub paged : Bool
  pub own_access : Bool
  pub cached : Bool
  pub can_multi_write : Bool
  pub big_endian : Bool

abbrev pub rsmu_i2c_cm_regmap_config : RegmapConfig
rsmu_i2c_cm_regmap_config = record {
  reg_bits = 32;
  val_bits = 8;
  max_register = 0x20120000;
  paged = false;
  own_access = true;
  cached = false;
  can_multi_write = false;
  big_endian = false;
}

-- The same numbers as over plain I2C, with other functions.
abbrev pub rsmu_smbus_i2c_cm_regmap_config : RegmapConfig
rsmu_smbus_i2c_cm_regmap_config = rsmu_i2c_cm_regmap_config

abbrev pub rsmu_i2c_sabre_regmap_config : RegmapConfig
rsmu_i2c_sabre_regmap_config = record {
  reg_bits = 8;
  val_bits = 8;
  max_register = 0x400;
  paged = true;
  own_access = false;
  cached = true;
  can_multi_write = true;
  big_endian = false;
}

abbrev pub rsmu_fc3_regmap_config : RegmapConfig
rsmu_fc3_regmap_config = record {
  reg_bits = 16;
  val_bits = 8;
  max_register = 0xE88;
  paged = false;
  own_access = false;
  cached = false;
  can_multi_write = true;
  big_endian = true;
}

abbrev pub rsmu_spi_cm_regmap_config : RegmapConfig
rsmu_spi_cm_regmap_config = rsmu_i2c_cm_regmap_config

abbrev pub rsmu_spi_sabre_regmap_config : RegmapConfig
rsmu_spi_sabre_regmap_config = record {
  reg_bits = 16;
  val_bits = 8;
  max_register = 0x400;
  paged = false;
  own_access = true;
  cached = false;
  can_multi_write = false;
  big_endian = false;
}

-- What the kernel holds of a chip: its register map, and the names of its sub devices.
pub record Attached : Type 0 where
  pub config : Option RegmapConfig
  pub cells : List String

-- The table of sub devices of a type; `none` is the default of the `switch`.
unfoldable pub cells_of : RsmuType → Option (List String)
cells_of cm = some ("8a3400x-phc" ∷ "8a3400x-cdev" ∷ [])
cells_of sabre = some ("82p33x1x-phc" ∷ "82p33x1x-cdev" ∷ [])
cells_of fc3 = some ("rc38xxx-phc" ∷ "rc38xxx-cdev" ∷ [])
cells_of unknown = none

-- `devm_mfd_add_devices` gives 0 or a code.
unfoldable pub rsmu_core_init : ℤ → RsmuType → M Attached (Unit {0})
rsmu_core_init add_devices type s = elim (cells_of type) [
  | none ↦ fail enodev s
  | some names ↦
      if eqb_ℤ add_devices (pos 0) then ok tt (record s { cells = names }) else fail add_devices s
]

-- What the adapter can do.
pub record Adapter : Type 0 where
  pub func_i2c : Bool
  pub func_smbus_i2c_block : Bool

-- The configuration for a type over I2C, or the code of the refusal.
unfoldable pub i2c_config : Adapter → RsmuType → ℤ ⊎ RegmapConfig
i2c_config adapter cm =
    if adapter.func_i2c
    then inr rsmu_i2c_cm_regmap_config
    else if adapter.func_smbus_i2c_block
    then inr rsmu_smbus_i2c_cm_regmap_config
    else inl enotsupp
i2c_config adapter sabre = inr rsmu_i2c_sabre_regmap_config
i2c_config adapter fc3 = inr rsmu_fc3_regmap_config
i2c_config adapter unknown = inl enodev

unfoldable pub spi_config : RsmuType → ℤ ⊎ RegmapConfig
spi_config cm = inr rsmu_spi_cm_regmap_config
spi_config sabre = inr rsmu_spi_sabre_regmap_config
spi_config fc3 = inl enodev
spi_config unknown = inl enodev

-- What both drivers do with the configuration: `regmap_init` is 0 or the code of the error pointer.
unfoldable pub attach_with : ℤ → ℤ → ℤ ⊎ RegmapConfig → RsmuType → M Attached (Unit {0})
attach_with regmap_init add_devices (inl e) type s = fail e s
attach_with regmap_init add_devices (inr cfg) type s =
    if eqb_ℤ regmap_init (pos 0)
    then rsmu_core_init add_devices type (record s { config = some cfg })
    else fail regmap_init s

unfoldable pub rsmu_i2c_probe : Adapter → ℤ → ℤ → RsmuType → M Attached (Unit {0})
rsmu_i2c_probe adapter regmap_init add_devices type =
    attach_with regmap_init add_devices (i2c_config adapter type) type

unfoldable pub rsmu_spi_probe : ℤ → ℤ → RsmuType → M Attached (Unit {0})
rsmu_spi_probe regmap_init add_devices type =
    attach_with regmap_init add_devices (spi_config type) type

-- The names of chips that the drivers announce, with the types.
unfoldable pub rsmu_i2c_id : String → Option RsmuType
rsmu_i2c_id name =
    if (name == "8a34000") || (name == "8a34001")
    then some cm
    else if (name == "82p33810") || (name == "82p33811")
    then some sabre
    else if (name == "rc38xxx0") || (name == "rc38xxx1")
    then some fc3
    else none

unfoldable pub rsmu_spi_id : String → Option RsmuType
rsmu_spi_id name =
    if (name == "8a34000") || (name == "8a34001")
    then some cm
    else if (name == "82p33810") || (name == "82p33811")
    then some sabre
    else none
