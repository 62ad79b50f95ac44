-- ===== src/Lib.antt =====
-- The Renesas timing drivers (ClockMatrix, Sabre and FemtoClock3 synchronizers) and what makes
-- them correct.
--
-- A chip sits on an I2C or SPI bus. The bus drivers (linux/drivers/mfd) hide the chip's small
-- address window behind a register map; the PTP clock drivers (linux/drivers/ptp) and the character
-- device (linux/drivers/misc) read and write registers through that map. The parts share no other
-- state than the chip and the lock of `struct rsmu_ddata`, under which each operation runs to its
-- end, so an operation is a function from a state to an outcome.
--
--   Prelude                  numbers, lists and tests; Prelude/Int has C's signed numbers with
--                            their casts, Prelude/Bits what masks mean as arithmetic
--   Bus                      functions that change a state and may fail (a nonzero code with the
--                            state that it leaves), and the kernel's regmap as an interface
--   Mfd/Flat                 what a bus driver promises: a flat memory
--   Mfd/Ddata, Mfd/I2c       linux/include/linux/mfd/rsmu.h and linux/drivers/mfd/rsmu_i2c.c
--   Mfd/Spi                  linux/drivers/mfd/rsmu_spi.c
--   Mfd/Core                 linux/drivers/mfd/rsmu_core.c, and how both bus drivers attach to a chip
--   Clockmatrix/Registers    linux/include/linux/mfd/idt8a340_reg.h
--   Clockmatrix/State        linux/drivers/ptp/ptp_clockmatrix.h: `struct idtcm` and its channels
--   Clockmatrix/Time         the time-of-day register of linux/drivers/ptp/ptp_clockmatrix.c
--   Clockmatrix/Version      firmware versions, same file
--   Clockmatrix/Pll          PLL modes and manual reference, same file
--   Clockmatrix/Firmware     the firmware image and the masks it sets, same file
--   Clockmatrix/Frequency    idtcm_adjfine and idtcm_adjphase, same file
--   Clockmatrix/PullIn       the phase pull-in by firmware or software, and its worker, same file
--   Clockmatrix/Kernel       the kernel's time and pin functions, an interface
--   Clockmatrix/Tod          reading and writing the time of day, same file
--   Clockmatrix/Adjtime      idtcm_gettime, idtcm_settime, idtcm_adjtime and the deprecated forms
--   Clockmatrix/Sync, Output outputs aligned to the pulse per second, and switched, same file
--   Clockmatrix/Extts        external time stamps, same file
--   Clockmatrix/Boot, Setup  waiting for the chip, its reset, and setting up the channels
--   Clockmatrix/Requests     the requests of the PTP device, same file
--   Clockmatrix/Probe        attaching to a chip and leaving it, same file
--   Clockmatrix/Polls        how often the polling loops read the chip
--   Idt82p33/State, Time,    linux/drivers/ptp/ptp_idt82p33.c with its header and
--   Mode                     linux/include/linux/mfd/idt82p33_reg.h: state, time of day bytes, modes
--   Idt82p33/Frequency       frequency, phase, and the correction by an extra frequency, same file
--   Idt82p33/Ddco            that correction from its start to its end
--   Idt82p33/Tod, Adjtime,   the time of day read, set and shifted, and what a write of it costs
--   Overhead
--   Idt82p33/Extts, Output   external time stamps, and outputs, same file
--   Idt82p33/Firmware, Setup the firmware image, and attaching to a chip and leaving it, same file
--   Misc/Cm                  linux/drivers/misc/rsmu_cm.c: the character device on a ClockMatrix chip
--   Misc/Sabre               linux/drivers/misc/rsmu_sabre.c: the same on a Sabre chip
--   Misc/Fc3                 linux/drivers/misc/rsmu_fc3.c and linux/include/linux/mfd/
--                            idtRC38xxx_reg.h: the same on a FemtoClock3 chip
--   Misc/Cdev                linux/drivers/misc/rsmu_cdev.c: the calls of the device, with what is
--                            copied from and to the caller, attaching and leaving
--   Ctl                      rsmu_ctl/rsmu_ctl.c and rsmu_ctl/util.c: the arguments, commands and loop
--                            of the command line tool
--   Tests                    concrete chips and values
--
-- Definitions keep the names of the C functions in lower case. A chip is any type of states: the
-- bus and the chip are parameters, whose documented behaviour is a record of laws (Messages,
-- Blocks, Wire, Register). Integers are mathematical, with casts and wrap-around written where the
-- source has them; a firmware image is the list of its whole records; a loop is structural
-- recursion over its list or its remaining rounds. The rounds are the source's own counts (30 polls
-- of the boot status, 10 of a read trigger, 21 of a write trigger), which end the loop there too;
-- the halving loops of the software pull-in and of the Sabre correction, which have no count in the
-- source, are given 32 rounds, enough for every 32-bit correction. How many polls of the lock fit
-- into two seconds, and of a FemtoClock3 measurement into five, is a parameter. Pauses are left out.
-- Hosts are little-endian. A copy from or to the caller that faults leaves the argument alone. What a
-- variable holds before it is set is a parameter (`stale`). The processor is arm64, for which the
-- tool's README builds: a quotient by zero is 0. `abs` of the lowest number of a width is that number.
-- Whether a `wait` of the command line tool ends is a parameter.
-- Functions that the source names `_idtcm_x`, called under the lock, are `raw_x`.
--
-- Not modelled: the options, the output and the alarm of the command line tool; logging, allocation,
-- the description of a clock to the kernel, module registration, and the locks themselves.
pub mod Bus
pub mod Clockmatrix
pub mod Ctl
pub mod Idt82p33
pub mod Mfd
pub mod Misc
pub mod Prelude
pub mod Tests
