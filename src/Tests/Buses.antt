-- ===== src/Tests/Buses.antt =====
-- Sequences of accesses over the buses of drivers/mfd, at concrete chips.
use linux_ptp_driver_package.Tests.Chips.{Paged, paged, i2c_chip-Messages, send, i2c_chip-Blocks}
use linux_ptp_driver_package.Prelude.{ℕ, ◌≡◌, refl, inl, List, [], ◌∷◌, arith, ◌+◌, length}
use linux_ptp_driver_package.Mfd.Ddata.{Ddata, RsmuType}
use linux_ptp_driver_package.Mfd.Flat.{
  Access, All, run, update, store, load, flat_values, flat_cells,
}
use linux_ptp_driver_package.Mfd.I2c.{
  i2c_reg_read, smbus_i2c_reg_read, i2c_reg_write, smbus_i2c_reg_write, i2c_write_device,
  smbus_i2c_write_device, i2c_read_device, smbus_i2c_read_device, reg_read, reg_write,
  write_page_register, I2cClient,
}
use linux_ptp_driver_package.Mfd.I2c.Adapter.{i2c_run_refines, smbus_run_refines, Messages}
use linux_ptp_driver_package.Mfd.I2c.Paging.{Coherent, IsPaged}
use linux_ptp_driver_package.Mfd.I2c.Total.{Reliable, i2c_run_total}
use linux_ptp_driver_package.Prelude.Int.{pos}
use linux_ptp_driver_package.Bus.{ok}

-- A chip with a window that stands somewhere else, whose registers are all 3, and a
-- driver that has set no page.
abbrev fresh : Ddata Paged
fresh = record { type = RsmuType.cm; page = 0; dev = record { window = 0x1000; cells = λ a. 3 } }

-- A write, a read of it, and a read of a register in another page.
abbrev accesses : List Access
accesses = store 0x2010c024 0x105 ∷ load 0x2010c024 ∷ load 0x2010c13b ∷ []

abbrev at_page : ℕ → Ddata Paged
at_page page = record {
  type = RsmuType.cm;
  page = page;
  dev = record { window = page; cells = update (λ a. 3) 0x2010c024 5 };
}

accesses-IsPaged : All IsPaged accesses
accesses-IsPaged = omega arith

i2c_run_refines_example :
    (5 ∷ 3 ∷ [] ≡ flat_values accesses (λ a. 3))
    × ((at_page 0x2010c100).dev.cells ≡ flat_cells accesses (λ a. 3))
    × Coherent paged (at_page 0x2010c100)
unfolding run i2c_reg_read i2c_reg_write reg_read reg_write write_page_register i2c_write_device
    i2c_read_device send
i2c_run_refines_example =
    i2c_run_refines i2c_chip-Messages accesses fresh accesses-IsPaged (inl refl) refl

smbus_run_refines_example :
    (5 ∷ 3 ∷ [] ≡ flat_values accesses (λ a. 3))
    × ((at_page 0x2010c100).dev.cells ≡ flat_cells accesses (λ a. 3))
    × Coherent paged (at_page 0x2010c100)
unfolding run smbus_i2c_reg_read smbus_i2c_reg_write reg_read reg_write write_page_register
    smbus_i2c_write_device smbus_i2c_read_device send
smbus_run_refines_example =
    smbus_run_refines i2c_chip-Blocks accesses fresh accesses-IsPaged (inl refl) refl

-- A chip behind the same bus that takes every byte sequence, whole pages and single bytes alike.
abbrev patient : I2cClient Paged
patient = record {
  transfer = λ reg n d. record { ret = pos 2; buf = d.cells (d.window + reg) ∷ []; dev = d };
  master_send = λ bytes d. record {
    ret = pos (length bytes);
    buf = [];
    dev = (send (pos 0) (pos 0) bytes d).dev;
  };
  smbus_read_block = λ reg n d. record { ret = pos 1; buf = []; dev = d };
  smbus_write_block = λ reg buf d. record { ret = pos 0; buf = []; dev = d };
}

patient-Reliable : Reliable patient
patient-Reliable = record { sends = λ bytes d. ground arith; transfers = λ reg n d. refl }

patient-Messages : Messages paged patient
unfolding send
patient-Messages = record {
  send_page = λ b0 b1 b2 b3 d h. (refl, refl);
  send_byte = λ reg v d h e. (refl, refl);
  transfer_byte = λ reg d h e. (refl, refl, refl);
}

i2c_run_total_example :
    (s' : Ddata Paged) × (run
        (record { reg_read = i2c_reg_read patient; reg_write = i2c_reg_write patient })
        accesses
        fresh
      ≡ ok (5 ∷ 3 ∷ []) s')
    × (s'.dev.cells ≡ flat_cells accesses (λ a. 3))
    × Coherent paged s'
i2c_run_total_example =
    i2c_run_total patient-Reliable patient-Messages accesses fresh accesses-IsPaged (inl refl)
