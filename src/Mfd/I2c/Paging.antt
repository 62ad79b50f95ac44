-- ===== src/Mfd/I2c/Paging.antt =====
-- The page register of drivers/mfd/rsmu_i2c.c hides the window: what the driver reads and writes
-- is a flat memory of 32-bit addresses.
mod Bytes
use Bytes.{page_of_mask, page_of_bytes, offset_of_mask}
use linux_ptp_driver_package.Prelude.{
  ℕ, if◌then◌else◌, ◌≡◌, ◌==◌, ◌≤◌, ◌⊎◌, ◌/◌, ◌∷◌, ◌<◌, ◌*◌, [], ◌^◌, arith, ◌+◌, ◌%◌, List,
  Bool-cases, inl, bit_and, inr, refl, le→not_ltb, ap,
}
use linux_ptp_driver_package.Mfd.I2c.{
  Writer, Reader, cm_page_addr, write_page_register, page_bytes, reg_read, reg_write,
  cm_address_mask,
}
use linux_ptp_driver_package.Mfd.Ddata.{Ddata, cm_scsr_base}
use linux_ptp_driver_package.Bus.{ok, Outcome, fail, >>-ok, >>=-ok}
use linux_ptp_driver_package.Mfd.Flat.{update, IsFlat}

-- The chip's own view: where its window stands, and its registers by their full address.
pub record Chip (Dev : Type 0) : Type 0 where
  pub page : Dev → ℕ
  pub cell : Dev → ℕ → ℕ

-- What a successful transfer does, below the page register at 0xFC: the register address is the
-- offset added to the page, and bytes sent to 0xFC move the window.
pub record Channel {Dev : Type 0} (chip : Chip Dev) (write_device : Writer Dev)
    (read_device : Reader Dev) : Type 0 where
  pub move :
      (b0 b1 b2 b3 : ℕ) (s : Ddata Dev) {u : Unit {0}} {s' : Ddata Dev}
      → write_device cm_page_addr (b0 ∷ b1 ∷ b2 ∷ b3 ∷ []) s ≡ ok u s'
      → (chip.page s'.dev ≡ b1 * 2 ^ 8 + b2 * 2 ^ 16 + b3 * 2 ^ 24)
        × (chip.cell s'.dev ≡ chip.cell s.dev)
        × (s'.page ≡ s.page)
  pub store :
      (reg v : ℕ) (s : Ddata Dev) {u : Unit {0}} {s' : Ddata Dev}
      → reg < cm_page_addr
      → write_device reg (v ∷ []) s ≡ ok u s'
      → (chip.page s'.dev ≡ chip.page s.dev)
        × (chip.cell s'.dev ≡ update (chip.cell s.dev) (chip.page s.dev + reg) v)
        × (s'.page ≡ s.page)
  pub load :
      (reg : ℕ) (s : Ddata Dev) {bs : List ℕ} {s' : Ddata Dev}
      → reg < cm_page_addr
      → read_device reg 1 s ≡ ok bs s'
      → (bs ≡ chip.cell s.dev (chip.page s.dev + reg) ∷ [])
        × (chip.page s'.dev ≡ chip.page s.dev)
        × (chip.cell s'.dev ≡ chip.cell s.dev)
        × (s'.page ≡ s.page)

-- A register that is reached through the window and is not the page register.
abbrev pub IsPaged : ℕ → Type 0
IsPaged reg = (cm_scsr_base ≤ reg) × (reg < 2 ^ 32) × (reg % 256 < cm_page_addr)

module _ {Dev : Type 0} (chip : Chip Dev) where
  -- No page was set yet, or the page that the driver remembers is the chip's.
  abbrev pub Coherent : Ddata Dev → Type 0
  Coherent s = (s.page ≡ 0) ⊎ (chip.page s.dev ≡ s.page)

  -- The window stands at the page of `reg`, and the driver knows it.
  pub record Selects (reg : ℕ) (before after : Ddata Dev) : Type 0 where
    pub chip_page : chip.page after.dev ≡ reg / 256 * 256
    pub known_page : after.page ≡ reg / 256 * 256
    pub same_cells : chip.cell after.dev ≡ chip.cell before.dev

module _ {Dev : Type 0} {chip : Chip Dev} {write_device : Writer Dev} {read_device : Reader Dev}
    (channel : Channel chip write_device read_device) where
  -- The branch that sends the page.
  sent-Selects :
      (reg : ℕ) (s : Ddata Dev) (o : Outcome (Ddata Dev) (Unit {0})) {u : Unit {0}} {s' : Ddata Dev}
      → reg < 2 ^ 32
      → write_device cm_page_addr (page_bytes (reg / 256 * 256)) s ≡ o
      → (elim o [ ok _ t ↦ ok tt (record t { page = reg / 256 * 256 }) | fail e t ↦ fail e t ])
        ≡ ok u s'
      → Selects chip reg s s'
  sent-Selects reg s (ok u t) h sent e = ground (
    arith,
    page_of_bytes reg,
    channel.move 0 (bit_and (reg / 256 * 256 / 2 ^ 8) 0xFF)
        (bit_and (reg / 256 * 256 / 2 ^ 16) 0xFF) (bit_and (reg / 256 * 256 / 2 ^ 24) 0xFF) s sent,
  )
  sent-Selects reg s (fail c t) h sent e = cc

  write_page_register-Selects :
      (reg : ℕ) (s : Ddata Dev) {u : Unit {0}} {s' : Ddata Dev}
      → IsPaged reg
      → Coherent chip s
      → write_page_register write_device read_device reg s ≡ ok u s'
      → Selects chip reg s s'
  unfolding write_page_register
  write_page_register-Selects reg s {u} {s'} p c e = elim (Bool-cases (s.page == reg / 256 * 256)) [
    | inl same ↦ ground (arith, page_of_mask reg)
    | inr other ↦
        sent-Selects reg s _ p.1 refl
          (rw (page_of_mask reg p.1, other, le→not_ltb reg cm_scsr_base p.0) at e)
  ]

  -- A successful read through the window returns the cell at the full address and changes none.
  pub reg_read_flat :
      (reg val : ℕ) (s : Ddata Dev) {w : ℕ} {s' : Ddata Dev}
      → IsPaged reg
      → Coherent chip s
      → reg_read write_device read_device reg val s ≡ ok w s'
      → (w ≡ val / 256 * 256 + chip.cell s.dev reg)
        × (chip.cell s'.dev ≡ chip.cell s.dev)
        × Coherent chip s'
  unfolding reg_read
  reg_read_flat reg val s p c e =
      let (_, t, selected, rest) = >>-ok (write_page_register write_device read_device reg) _ e in
      let sel = write_page_register-Selects reg s p c selected in
      let (bs, t', loaded, done) = >>=-ok (read_device (bit_and reg cm_address_mask) 1) _ rest in
      let got = channel.load (reg % 256) t p.2 (rw (offset_of_mask reg) at loaded) in
      ground (arith, sel, got, done, ap (λ (f : ℕ → ℕ). f reg) sel.same_cells, joined reg)
    where
      joined : (reg : ℕ) → reg / 256 * 256 + reg % 256 ≡ reg
      joined reg = omega arith

  -- A successful write through the window changes the cell at the full address only.
  pub reg_write_flat :
      (reg val : ℕ) (s : Ddata Dev) {u : Unit {0}} {s' : Ddata Dev}
      → IsPaged reg
      → Coherent chip s
      → reg_write write_device read_device reg val s ≡ ok u s'
      → (chip.cell s'.dev ≡ update (chip.cell s.dev) reg (val % 256)) × Coherent chip s'
  unfolding reg_write
  reg_write_flat reg val s p c e =
      let (_, t, selected, rest) = >>-ok (write_page_register write_device read_device reg) _ e in
      let sel = write_page_register-Selects reg s p c selected in
      let put = channel.store (reg % 256) (val % 256) t p.2 (rw (offset_of_mask reg) at rest) in
      ground (arith, sel, put)

  pub channel-IsFlat :
      IsFlat
        (record {
          reg_read = reg_read write_device read_device;
          reg_write = reg_write write_device read_device;
        })
        chip.cell
        (Coherent chip)
        IsPaged
  channel-IsFlat = record { read_flat = reg_read_flat; write_flat = reg_write_flat }
