-- ===== src/Misc.antt =====
-- drivers/misc: the character device, through which user space steers a chip.
pub mod Cm
pub mod Sabre
pub mod Fc3
pub mod Cdev
