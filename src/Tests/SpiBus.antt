-- ===== src/Tests/SpiBus.antt =====
-- Sequences of accesses over SPI at a concrete chip.
use linux_ptp_driver_package.Tests.Chips.{Paged}
use linux_ptp_driver_package.Prelude.{ℕ, ◌≡◌, refl, inl, List, [], ◌∷◌, arith}
use linux_ptp_driver_package.Mfd.Ddata.{Ddata, RsmuType}
use linux_ptp_driver_package.Mfd.Flat.{Access, run, update, store, load, flat_values, flat_cells}
use linux_ptp_driver_package.Mfd.Spi.Paging.{Coherent, spi_run_refines}
use linux_ptp_driver_package.Mfd.Spi.{
  reg_read, reg_write, write_page_register, write_device, read_device, apply_command, page_command,
}
use linux_ptp_driver_package.Tests.SpiChips.{sync_cm, spi_paged, spi_chip-Wire}

abbrev fresh : Ddata Paged
fresh = record { type = RsmuType.cm; page = 0; dev = record { window = 0x1000; cells = λ a. 3 } }

abbrev accesses : List Access
accesses = store 0x2010c024 0x105 ∷ load 0x2010c024 ∷ load 0x2010c13b ∷ []

abbrev at_page : ℕ → Ddata Paged
at_page page = record {
  type = RsmuType.cm;
  page = page;
  dev = record { window = page; cells = update (λ a. 3) 0x2010c024 5 };
}

spi_run_refines_example :
    (5 ∷ 3 ∷ [] ≡ flat_values accesses (λ a. 3))
    × ((at_page 0x2010c100).dev.cells ≡ flat_cells accesses (λ a. 3))
    × Coherent RsmuType.cm spi_paged (at_page 0x2010c100)
unfolding run reg_read reg_write write_page_register write_device read_device apply_command
    page_command sync_cm
spi_run_refines_example =
    spi_run_refines spi_chip-Wire accesses fresh (omega arith)
      (record { same_type = refl; agrees = inl (refl, refl) }) refl
