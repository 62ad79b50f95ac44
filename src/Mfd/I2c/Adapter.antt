-- ===== src/Mfd/I2c/Adapter.antt =====
-- The two I2C adapters of drivers/mfd/rsmu_i2c.c, plain messages and SMBus blocks, each as a flat
-- memory over the chip, from what the kernel's I2C layer documents of its calls.
use linux_ptp_driver_package.Mfd.I2c.Paging.{Chip, Channel, IsPaged, Coherent, channel-IsFlat}
use linux_ptp_driver_package.Mfd.I2c.{
  I2cClient, i2c_write_device, i2c_reg_read, smbus_i2c_write_device, smbus_i2c_reg_read,
  cm_page_addr, i2c_read_device, i2c_reg_write, smbus_i2c_read_device, smbus_i2c_reg_write,
}
use linux_ptp_driver_package.Prelude.{ℕ, ◌∷◌, List, [], arith, ◌≡◌, false, ◌*◌, ◌^◌, ◌+◌, ◌<◌}
use linux_ptp_driver_package.Prelude.Int.{ltb_ℤ, pos}
use linux_ptp_driver_package.Mfd.Flat.{
  Access, All, run, update, flat_values, flat_cells, run_refines,
}
use linux_ptp_driver_package.Mfd.Ddata.{Ddata}
use linux_ptp_driver_package.Bus.{ok}

-- A plain I2C adapter: `i2c_master_send` returns a negative code or the number of bytes sent, and
-- `i2c_transfer` a negative code or the number of messages done. When all is done the chip has
-- taken the bytes: those behind 0xFC move its window, a byte behind a lower register is stored at
-- the window's page plus that register, and a read gives the byte from there.
pub record Messages {Dev : Type 0} (chip : Chip Dev) (client : I2cClient Dev) : Type 0 where
  pub send_page :
      (b0 b1 b2 b3 : ℕ) (d : Dev)
      → ltb_ℤ (client.master_send (cm_page_addr ∷ b0 ∷ b1 ∷ b2 ∷ b3 ∷ []) d).ret (pos 0) ≡ false
      → let d' = (client.master_send (cm_page_addr ∷ b0 ∷ b1 ∷ b2 ∷ b3 ∷ []) d).dev in
        (chip.page d' ≡ b1 * 2 ^ 8 + b2 * 2 ^ 16 + b3 * 2 ^ 24) × (chip.cell d' ≡ chip.cell d)
  pub send_byte :
      (reg v : ℕ) (d : Dev)
      → reg < cm_page_addr
      → ltb_ℤ (client.master_send (reg ∷ v ∷ []) d).ret (pos 0) ≡ false
      → let d' = (client.master_send (reg ∷ v ∷ []) d).dev in
        (chip.page d' ≡ chip.page d) × (chip.cell d' ≡ update (chip.cell d) (chip.page d + reg) v)
  pub transfer_byte :
      (reg : ℕ) (d : Dev)
      → reg < cm_page_addr
      → (client.transfer reg 1 d).ret ≡ pos 2
      → let r = client.transfer reg 1 d in
        (r.buf ≡ chip.cell d (chip.page d + reg) ∷ [])
        × (chip.page r.dev ≡ chip.page d)
        × (chip.cell r.dev ≡ chip.cell d)

-- An SMBus adapter: a block write returns 0 or a negative code, a block read a negative code or
-- the number of bytes read.
pub record Blocks {Dev : Type 0} (chip : Chip Dev) (client : I2cClient Dev) : Type 0 where
  pub write_page :
      (b0 b1 b2 b3 : ℕ) (d : Dev)
      → (client.smbus_write_block cm_page_addr (b0 ∷ b1 ∷ b2 ∷ b3 ∷ []) d).ret ≡ pos 0
      → let d' = (client.smbus_write_block cm_page_addr (b0 ∷ b1 ∷ b2 ∷ b3 ∷ []) d).dev in
        (chip.page d' ≡ b1 * 2 ^ 8 + b2 * 2 ^ 16 + b3 * 2 ^ 24) × (chip.cell d' ≡ chip.cell d)
  pub write_block :
      (reg v : ℕ) (d : Dev)
      → reg < cm_page_addr
      → (client.smbus_write_block reg (v ∷ []) d).ret ≡ pos 0
      → let d' = (client.smbus_write_block reg (v ∷ []) d).dev in
        (chip.page d' ≡ chip.page d) × (chip.cell d' ≡ update (chip.cell d) (chip.page d + reg) v)
  pub read_block :
      (reg : ℕ) (d : Dev)
      → reg < cm_page_addr
      → (client.smbus_read_block reg 1 d).ret ≡ pos 1
      → let r = client.smbus_read_block reg 1 d in
        (r.buf ≡ chip.cell d (chip.page d + reg) ∷ [])
        × (chip.page r.dev ≡ chip.page d)
        × (chip.cell r.dev ≡ chip.cell d)

module _ {Dev : Type 0} {chip : Chip Dev} {client : I2cClient Dev}
    (laws : Messages chip client) where
  messages_Channel : Channel chip (i2c_write_device client) (i2c_read_device client)
  unfolding i2c_write_device i2c_read_device
  messages_Channel = record {
    move = λ b0 b1 b2 b3 s {u} {s'} e. ground (arith, laws.send_page b0 b1 b2 b3 s.dev);
    store = λ reg v s {u} {s'} h e. ground (arith, laws.send_byte reg v s.dev);
    load = λ reg s {bs} {s'} h e. ground (arith, laws.transfer_byte reg s.dev);
  }

  -- Through plain I2C messages, a sequence of reads and writes of paged registers that succeeds
  -- reads the values of a flat memory of 32-bit addresses and leaves the chip's registers as that
  -- memory, whatever page was set before, if the driver's page was not set yet or is the chip's;
  -- and so it is again afterwards.
  pub i2c_run_refines :
      (accesses : List Access) (s : Ddata Dev) {vs : List ℕ} {s' : Ddata Dev}
      → All IsPaged accesses
      → Coherent chip s
      → run (record { reg_read = i2c_reg_read client; reg_write = i2c_reg_write client }) accesses s
        ≡ ok vs s'
      → (vs ≡ flat_values accesses (chip.cell s.dev))
        × (chip.cell s'.dev ≡ flat_cells accesses (chip.cell s.dev))
        × Coherent chip s'
  unfolding i2c_reg_read i2c_reg_write
  i2c_run_refines = run_refines (channel-IsFlat messages_Channel)

module _ {Dev : Type 0} {chip : Chip Dev} {client : I2cClient Dev} (laws : Blocks chip client) where
  blocks_Channel : Channel chip (smbus_i2c_write_device client) (smbus_i2c_read_device client)
  unfolding smbus_i2c_write_device smbus_i2c_read_device
  blocks_Channel = record {
    move = λ b0 b1 b2 b3 s {u} {s'} e. ground (arith, laws.write_page b0 b1 b2 b3 s.dev);
    store = λ reg v s {u} {s'} h e. ground (arith, laws.write_block reg v s.dev);
    load = λ reg s {bs} {s'} h e. ground (arith, laws.read_block reg s.dev);
  }

  -- Through SMBus blocks, a sequence of reads and writes of paged registers that succeeds reads
  -- the values of a flat memory of 32-bit addresses and leaves the chip's registers as that
  -- memory, if the driver's page was not set yet or is the chip's; and so it is again afterwards.
  pub smbus_run_refines :
      (accesses : List Access) (s : Ddata Dev) {vs : List ℕ} {s' : Ddata Dev}
      → All IsPaged accesses
      → Coherent chip s
      → run
          (record { reg_read = smbus_i2c_reg_read client; reg_write = smbus_i2c_reg_write client })
          accesses
          s
        ≡ ok vs s'
      → (vs ≡ flat_values accesses (chip.cell s.dev))
        × (chip.cell s'.dev ≡ flat_cells accesses (chip.cell s.dev))
        × Coherent chip s'
  unfolding smbus_i2c_reg_read smbus_i2c_reg_write
  smbus_run_refines = run_refines (channel-IsFlat blocks_Channel)
