-- ===== src/Clockmatrix.antt =====
-- drivers/ptp/ptp_clockmatrix.c: the PTP hardware clock of the ClockMatrix chips.
pub mod Registers
pub mod Time
pub mod State
pub mod Access
pub mod Pll
pub mod Version
pub mod Firmware
pub mod Frequency
pub mod PullIn
pub mod Kernel
pub mod Tod
pub mod Sync
pub mod Output
pub mod Adjtime
pub mod Polls
pub mod Boot
pub mod Setup
pub mod Extts
pub mod Requests
pub mod Probe
