-- ===== src/Mfd.antt =====
-- drivers/mfd: the bus drivers that reach a chip's registers through a page register.
pub mod Ddata
pub mod Core
pub mod Flat
pub mod I2c
pub mod Spi
