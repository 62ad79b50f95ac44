-- ===== src/Ctl.antt =====
-- rsmu_ctl: the command line tool that calls the character device.
pub mod Parse
pub mod Arguments
pub mod Commands
pub mod Run
