-- ===== src/Tests/SpiChips.antt =====
-- A chip with a window behind SPI.
use linux_ptp_driver_package.Tests.Chips.{Paged, store_cell}
use linux_ptp_driver_package.Prelude.{
  ◌+◌, ◌-◌, ℕ, List, [], ◌∷◌, arith, if◌then◌else◌, ltb, ◌≡◌, refl, length,
}
use linux_ptp_driver_package.Mfd.Spi.Chip.{Chip, Wire, page_value}
use linux_ptp_driver_package.Mfd.Spi.{Reply, SpiDevice}
use linux_ptp_driver_package.Prelude.Int.{pos}
use linux_ptp_driver_package.Mfd.Ddata.{RsmuType}

abbrev pub spi_paged : Chip Paged
spi_paged = record { page = λ d. d.window; cell = λ d. d.cells }

abbrev pub sent : Paged → Reply Paged
sent d = record { ret = pos 0; rsp = []; dev = d }

-- One byte behind a register below 128 is stored, one behind a register above it is shifted out,
-- and four bytes are a page.
unfoldable pub sync_cm : List ℕ → Paged → Reply Paged
sync_cm (reg ∷ v ∷ []) d =
    if ltb reg 128
    then sent (store_cell reg v d)
    else record { ret = pos 0; rsp = 0 ∷ d.cells (d.window + (reg - 128)) ∷ []; dev = d }
sync_cm (reg ∷ buf) d = sent (record d { window = page_value RsmuType.cm buf })
sync_cm [] d = sent d

abbrev pub spi_chip : SpiDevice Paged
spi_chip = record { sync = sync_cm }

pub spi_chip-Wire : Wire RsmuType.cm spi_paged spi_chip
unfolding sync_cm
spi_chip-Wire = record {
  move = λ buf d h e. move buf d h;
  store = λ reg v d h e. ground arith;
  load = λ reg d h e. ground arith;
}
  where
    move :
        (buf : List ℕ) (d : Paged)
        → length buf ≡ 4
        → let d' = (sync_cm (0x7C ∷ buf) d).dev in
          (d'.window ≡ page_value RsmuType.cm buf) × (d'.cells ≡ d.cells)
    move [] d h = absurd (ground arith)
    move (a ∷ []) d h = absurd (ground arith)
    move (a ∷ b ∷ buf) d h = (refl, refl)
