-- ===== src/Idt82p33.antt =====
-- drivers/ptp/ptp_idt82p33.c: the PTP clock driver of the Sabre family (82P33xxx).
pub mod State
pub mod Time
pub mod Mode
pub mod Extts
pub mod Tod
pub mod Frequency
pub mod Adjtime
pub mod Ddco
pub mod Overhead
pub mod Output
pub mod Firmware
pub mod Setup
