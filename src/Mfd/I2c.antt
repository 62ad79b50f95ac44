-- ===== src/Mfd/I2c.antt =====
-- drivers/mfd/rsmu_i2c.c: 32-bit registers of a ClockMatrix chip behind an 8-bit window.
pub mod Paging
pub mod Adapter
pub mod Total
use linux_ptp_driver_package.Prelude.{
  ℕ, ◌+◌, ◌-◌, ◌*◌, ◌/◌, ◌%◌, ◌≡◌, Bool, true, false, List, [], ◌∷◌, ltb, ◌==◌, if◌then◌else◌,
  bit_and, get_or, ◌^◌, not, length,
}
use linux_ptp_driver_package.Prelude.Int.{ℤ, pos, negsuc, eqb_ℤ, ltb_ℤ}
use linux_ptp_driver_package.Bus.{Outcome, ok, fail, M, ◌>>=◌, ◌>>◌, pure, throw, status}
use linux_ptp_driver_package.Bus.Errno.{eio, einval}
use linux_ptp_driver_package.Mfd.Ddata.{Ddata, max_write_count, cm_scsr_base}

-- What a call of the kernel's I2C layer returns: the number or negative code, the bytes that were
-- read, and the chip afterwards.
pub record Reply (Dev : Type 0) : Type 0 where
  pub ret : ℤ
  pub buf : List ℕ
  pub dev : Dev

-- The kernel's I2C layer. `transfer reg n` is `i2c_transfer` of two messages, a write of the
-- register byte and a read of `n` bytes; `master_send` sends the bytes given.
pub record I2cClient (Dev : Type 0) : Type 0 where
  pub transfer : ℕ → ℕ → Dev → Reply Dev
  pub master_send : List ℕ → Dev → Reply Dev
  pub smbus_read_block : ℕ → ℕ → Dev → Reply Dev
  pub smbus_write_block : ℕ → List ℕ → Dev → Reply Dev

abbrev pub cm_page_addr : ℕ
cm_page_addr = 0xFC

abbrev pub cm_page_mask : ℕ
cm_page_mask = 0xFFFFFF00

abbrev pub cm_address_mask : ℕ
cm_address_mask = 0x000000FF

-- `rsmu_rw_device` for writing, over the driver's data.
abbrev pub Writer : Type 0 → Type 0
Writer Dev = ℕ → List ℕ → M (Ddata Dev) (Unit {0})

abbrev pub Reader : Type 0 → Type 0
Reader Dev = ℕ → ℕ → M (Ddata Dev) (List ℕ)

-- `page` as the four bytes that are sent to the page register.
abbrev pub page_bytes : ℕ → List ℕ
page_bytes page =
    0x0
    ∷ bit_and (page / 2 ^ 8) 0xFF
    ∷ bit_and (page / 2 ^ 16) 0xFF
    ∷ bit_and (page / 2 ^ 24) 0xFF
    ∷ []

module _ {Dev : Type 0} (client : I2cClient Dev) where
  unfoldable pub smbus_i2c_write_device : Writer Dev
  smbus_i2c_write_device reg buf rsmu =
      let r = client.smbus_write_block reg buf rsmu.dev in
      status r.ret (record rsmu { dev = r.dev })

  unfoldable pub smbus_i2c_read_device : Reader Dev
  smbus_i2c_read_device reg bytes rsmu =
      let r = client.smbus_read_block reg bytes rsmu.dev in
      let rsmu' : Ddata Dev = record rsmu { dev = r.dev } in
      if eqb_ℤ r.ret (pos bytes)
      then ok r.buf rsmu'
      else if ltb_ℤ r.ret (pos 0)
      then fail r.ret rsmu'
      else fail eio rsmu'

  unfoldable pub i2c_read_device : Reader Dev
  i2c_read_device reg bytes rsmu =
      let r = client.transfer reg bytes rsmu.dev in
      let rsmu' : Ddata Dev = record rsmu { dev = r.dev } in
      if ltb_ℤ r.ret (pos 0)
      then fail r.ret rsmu'
      else if not (eqb_ℤ r.ret (pos 2))
      then fail eio rsmu'
      else ok r.buf rsmu'

  unfoldable pub i2c_write_device : Writer Dev
  i2c_write_device reg buf rsmu =
      if ltb max_write_count (length buf)
      then fail einval rsmu
      else sent (client.master_send (reg ∷ buf) rsmu.dev)
    where
      sent : Reply Dev → Outcome (Ddata Dev) (Unit {0})
      sent r =
          let rsmu' : Ddata Dev = record rsmu { dev = r.dev } in
          if ltb_ℤ r.ret (pos 0) then fail r.ret rsmu' else ok tt rsmu'

module _ {Dev : Type 0} (write_device : Writer Dev) (read_device : Reader Dev) where
  unfoldable pub write_page_register : ℕ → M (Ddata Dev) (Unit {0})
  write_page_register reg rsmu =
      let page = bit_and reg cm_page_mask in
      if ltb reg cm_scsr_base
      then ok tt rsmu
      else if rsmu.page == page
      then ok tt rsmu
      else (write_device cm_page_addr (page_bytes page) >> λ s. ok tt (record s { page = page }))
          rsmu

  -- `rsmu_i2c_reg_read` and `rsmu_smbus_i2c_reg_read`. The byte read goes to the low byte of `*val`.
  unfoldable pub reg_read : ℕ → ℕ → M (Ddata Dev) ℕ
  reg_read reg val = do
    write_page_register reg
    bs ← read_device (bit_and reg cm_address_mask) 1
    pure (val / 256 * 256 + get_or bs 0 0)

  unfoldable pub reg_write : ℕ → ℕ → M (Ddata Dev) (Unit {0})
  reg_write reg val = do
    write_page_register reg
    write_device (bit_and reg cm_address_mask) (val % 256 ∷ [])

module _ {Dev : Type 0} (client : I2cClient Dev) where
  unfoldable pub i2c_reg_read : ℕ → ℕ → M (Ddata Dev) ℕ
  i2c_reg_read = reg_read (i2c_write_device client) (i2c_read_device client)

  unfoldable pub i2c_reg_write : ℕ → ℕ → M (Ddata Dev) (Unit {0})
  i2c_reg_write = reg_write (i2c_write_device client) (i2c_read_device client)

  unfoldable pub smbus_i2c_reg_read : ℕ → ℕ → M (Ddata Dev) ℕ
  smbus_i2c_reg_read = reg_read (smbus_i2c_write_device client) (smbus_i2c_read_device client)

  unfoldable pub smbus_i2c_reg_write : ℕ → ℕ → M (Ddata Dev) (Unit {0})
  smbus_i2c_reg_write = reg_write (smbus_i2c_write_device client) (smbus_i2c_read_device client)
