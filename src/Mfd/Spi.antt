-- ===== src/Mfd/Spi.antt =====
-- drivers/mfd/rsmu_spi.c: registers of ClockMatrix and Sabre chips behind a 7-bit window.
pub mod Chip
pub mod Paging
use linux_ptp_driver_package.Mfd.Ddata.{
  Ddata, RsmuType, cm_scsr_base, max_write_count, max_read_count,
}
use linux_ptp_driver_package.Prelude.{
  ◌+◌, ◌*◌, ◌/◌, ◌%◌, ◌^◌, ℕ, bit_and, bit_or, List, [], ◌∷◌, if◌then◌else◌, ltb, ◌==◌, drop,
  get_or, length, replicate,
}
use linux_ptp_driver_package.Prelude.Int.{ℤ}
use linux_ptp_driver_package.Bus.{M, Outcome, pure, ◌>>◌, status, throw, ◌>>=◌, ok, fail}
use linux_ptp_driver_package.Bus.Errno.{enodev, einval}

-- What `spi_sync` returns: its code, the bytes that were shifted in, and the chip afterwards.
pub record Reply (Dev : Type 0) : Type 0 where
  pub ret : ℤ
  pub rsp : List ℕ
  pub dev : Dev

-- The kernel's SPI layer: `sync cmd` is `spi_sync` of one transfer that shifts out `cmd`.
pub record SpiDevice (Dev : Type 0) : Type 0 where
  pub sync : List ℕ → Dev → Reply Dev

abbrev pub cm_page_addr : ℕ
cm_page_addr = 0x7C

abbrev pub sabre_page_addr : ℕ
sabre_page_addr = 0x7F

abbrev pub page_mask : ℕ
page_mask = 0xFFFFFF80

abbrev pub addr_mask : ℕ
addr_mask = 0x7F

-- The register and bytes that set a page, or that none is set, or that the type is unknown.
pub data PageCommand : Type 0 where
  keep : PageCommand
  select : ℕ → List ℕ → ℕ → PageCommand
  unsupported : PageCommand

-- The switch of `rsmu_write_page_register`.
unfoldable pub page_command : RsmuType → ℕ → PageCommand
page_command RsmuType.cm reg =
    let page = bit_and reg page_mask in
    if ltb reg cm_scsr_base
    then keep
    else select cm_page_addr
        (bit_and page 0xFF
          ∷ bit_and (page / 2 ^ 8) 0xFF
          ∷ bit_and (page / 2 ^ 16) 0xFF
          ∷ bit_and (page / 2 ^ 24) 0xFF
          ∷ [])
        page
page_command RsmuType.sabre reg =
    let page = bit_and reg page_mask in
    if bit_and reg addr_mask == addr_mask
    then keep
    else select sabre_page_addr (bit_and (page / 2 ^ 7) 0x7 ∷ []) page
page_command RsmuType.fc3 reg = unsupported
page_command RsmuType.unknown reg = unsupported

module _ {Dev : Type 0} (client : SpiDevice Dev) where
  -- `cmd` is the register with its top bit set and a zero for each byte to be shifted in; the
  -- first byte that comes back is a dummy.
  unfoldable pub read_device : ℕ → ℕ → M (Ddata Dev) (List ℕ)
  read_device reg bytes rsmu =
      if ltb max_read_count bytes
      then fail einval rsmu
      else received (client.sync (bit_or reg 0x80 ∷ replicate bytes 0) rsmu.dev)
    where
      received : Reply Dev → Outcome (Ddata Dev) (List ℕ)
      received r = (status r.ret >> pure (drop 1 r.rsp)) (record rsmu { dev = r.dev })

  unfoldable pub write_device : ℕ → List ℕ → M (Ddata Dev) (Unit {0})
  write_device reg buf rsmu =
      if ltb max_write_count (length buf)
      then fail einval rsmu
      else sent (client.sync (reg ∷ buf) rsmu.dev)
    where
      sent : Reply Dev → Outcome (Ddata Dev) (Unit {0})
      sent r = status r.ret (record rsmu { dev = r.dev })

  -- The end of `rsmu_write_page_register`: set the page, unless it is the one that was last set.
  unfoldable pub apply_command : PageCommand → M (Ddata Dev) (Unit {0})
  apply_command keep rsmu = ok tt rsmu
  apply_command unsupported rsmu = fail enodev rsmu
  apply_command (select page_reg buf page) rsmu =
      if rsmu.page == page
      then ok tt rsmu
      else (write_device page_reg buf >> λ s. ok tt (record s { page = page })) rsmu

  unfoldable pub write_page_register : ℕ → M (Ddata Dev) (Unit {0})
  unfolding apply_command page_command
  write_page_register reg rsmu = apply_command (page_command rsmu.type reg) rsmu

  unfoldable pub reg_read : ℕ → ℕ → M (Ddata Dev) ℕ
  reg_read reg val = do
    write_page_register reg
    bs ← read_device (bit_and reg addr_mask) 1
    pure (val / 256 * 256 + get_or bs 0 0)

  unfoldable pub reg_write : ℕ → ℕ → M (Ddata Dev) (Unit {0})
  reg_write reg val = do
    write_page_register reg
    write_device (bit_and reg addr_mask) (val % 256 ∷ [])
