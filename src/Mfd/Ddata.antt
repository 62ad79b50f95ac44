-- ===== src/Mfd/Ddata.antt =====
-- include/linux/mfd/rsmu.h and drivers/mfd/rsmu.h: what the bus drivers remember of a chip.
use linux_ptp_driver_package.Prelude.{ℕ}

-- `enum rsmu_type`. `unknown` stands for any other number.
pub data RsmuType : Type 0 where
  cm : RsmuType
  sabre : RsmuType
  fc3 : RsmuType
  unknown : RsmuType

-- `struct rsmu_ddata`: the type and the page that was last set, with the chip behind the bus.
pub record Ddata (Dev : Type 0) : Type 0 where
  pub type : RsmuType
  pub page : ℕ
  pub dev : Dev

abbrev pub max_write_count : ℕ
max_write_count = 255

abbrev pub max_read_count : ℕ
max_read_count = 255

abbrev pub cm_scsr_base : ℕ
cm_scsr_base = 0x20100000
