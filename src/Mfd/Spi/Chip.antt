-- ===== src/Mfd/Spi/Chip.antt =====
-- What a chip behind SPI makes of a transfer: the contract that the driver in drivers/mfd/rsmu_spi.c
-- relies on.
use linux_ptp_driver_package.Mfd.Ddata.{RsmuType}
use linux_ptp_driver_package.Prelude.{◌+◌, ◌*◌, ◌^◌, ◌<◌, ℕ, ◌≡◌, List, [], ◌∷◌, drop, length}
use linux_ptp_driver_package.Mfd.Spi.{cm_page_addr, SpiDevice, sabre_page_addr}
use linux_ptp_driver_package.Prelude.Int.{pos}
use linux_ptp_driver_package.Mfd.Flat.{update}

-- The chip's own view: where its window stands, and its registers by their full address.
pub record Chip (Dev : Type 0) : Type 0 where
  pub page : Dev → ℕ
  pub cell : Dev → ℕ → ℕ

-- What the bytes behind the page register set the window to.
abbrev pub page_value : RsmuType → List ℕ → ℕ
page_value RsmuType.cm (b0 ∷ b1 ∷ b2 ∷ b3 ∷ []) = b0 + b1 * 2 ^ 8 + b2 * 2 ^ 16 + b3 * 2 ^ 24
page_value RsmuType.sabre (b ∷ []) = b * 128
page_value _ _ = 0

-- How many bytes the page register takes.
abbrev pub page_length : RsmuType → ℕ
page_length RsmuType.cm = 4
page_length _ = 1

abbrev pub page_addr : RsmuType → ℕ
page_addr RsmuType.cm = cm_page_addr
page_addr _ = sabre_page_addr

-- A transfer that succeeds, on a chip of family `type`: the page register moves the window, any
-- register below it is at the window's page plus its address; the top bit asks for a read, whose
-- byte comes second.
pub record Wire {Dev : Type 0} (type : RsmuType) (chip : Chip Dev) (client : SpiDevice Dev)
    : Type 0 where
  pub move :
      (buf : List ℕ) (d : Dev)
      → length buf ≡ page_length type
      → (client.sync (page_addr type ∷ buf) d).ret ≡ pos 0
      → let d' = (client.sync (page_addr type ∷ buf) d).dev in
        (chip.page d' ≡ page_value type buf) × (chip.cell d' ≡ chip.cell d)
  pub store :
      (reg v : ℕ) (d : Dev)
      → reg < page_addr type
      → (client.sync (reg ∷ v ∷ []) d).ret ≡ pos 0
      → let d' = (client.sync (reg ∷ v ∷ []) d).dev in
        (chip.page d' ≡ chip.page d) × (chip.cell d' ≡ update (chip.cell d) (chip.page d + reg) v)
  pub load :
      (reg : ℕ) (d : Dev)
      → reg < page_addr type
      → (client.sync ((reg + 128) ∷ 0 ∷ []) d).ret ≡ pos 0
      → let r = client.sync ((reg + 128) ∷ 0 ∷ []) d in
        (drop 1 r.rsp ≡ chip.cell d (chip.page d + reg) ∷ [])
        × (chip.page r.dev ≡ chip.page d)
        × (chip.cell r.dev ≡ chip.cell d)
