-- ===== src/Tests.antt =====
-- Concrete chips and buses, and the theorems of the library at them.
mod Chips
mod SpiChips
mod Buses
mod SpiBus
mod States
mod Firmware
mod Clock
mod Device
mod Channels
mod Clockmatrix
mod Sabre
mod Cdev
mod Families
mod Ctl
