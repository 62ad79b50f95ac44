-- ===== src/Mfd/Spi/Paging.antt =====
-- The page register of drivers/mfd/rsmu_spi.c hides the window: for both chip families what the
-- driver reads and writes is a flat memory.
mod Bytes
use linux_ptp_driver_package.Mfd.Ddata.{Ddata, RsmuType, cm_scsr_base}
use linux_ptp_driver_package.Prelude.{
  ◌+◌, ◌*◌, ◌/◌, ◌%◌, ◌^◌, ◌≤◌, ◌<◌, ℕ, ◌≡◌, ◌⊎◌, List, [], ◌∷◌, drop, bit_and, ◌≢◌, arith, length,
  le→not_ltb, inl, inr, Bool-cases, ◌==◌, ap, ◌∙◌, subst, refl,
}
use linux_ptp_driver_package.Mfd.Spi.{
  cm_page_addr, SpiDevice, sabre_page_addr, page_command, apply_command, select, write_device,
  write_page_register, read_device, reg_read, reg_write, addr_mask,
}
use linux_ptp_driver_package.Prelude.Int.{pos}
use linux_ptp_driver_package.Mfd.Flat.{
  update, Access, All, run, flat_values, flat_cells, run_refines, IsFlat,
}
use linux_ptp_driver_package.Mfd.Spi.Paging.Bytes.{
  page_of_mask, page_of_bytes, offset_of_mask, page_of_bits, read_command,
}
use linux_ptp_driver_package.Bus.{ok, >>-ok, >>=-ok}
use linux_ptp_driver_package.Mfd.Spi.Chip.{Chip, page_addr, page_length, page_value, Wire}

-- The registers that are reached through the window and are not the page register.
abbrev pub IsPaged : RsmuType → ℕ → Type 0
IsPaged RsmuType.cm reg = (cm_scsr_base ≤ reg) × (reg < 2 ^ 32) × (reg % 128 < cm_page_addr)
IsPaged RsmuType.sabre reg = (0 ≤ reg) × (reg < 0x400) × (reg % 128 < sabre_page_addr)
IsPaged _ reg = ⊥

module _ {Dev : Type 0} (type : RsmuType) (chip : Chip Dev) where
  -- The page that the driver remembers is the chip's. A ClockMatrix chip may also stand anywhere
  -- as long as none was set: the driver's first page is 0, which no paged register has.
  pub record Coherent (s : Ddata Dev) : Type 0 where
    pub same_type : s.type ≡ type
    pub agrees : ((type ≡ RsmuType.cm) × (s.page ≡ 0)) ⊎ (chip.page s.dev ≡ s.page)

  pub record Selects (reg : ℕ) (before after : Ddata Dev) : Type 0 where
    pub chip_page : chip.page after.dev ≡ reg / 128 * 128
    pub known_page : after.page ≡ reg / 128 * 128
    pub same_cells : chip.cell after.dev ≡ chip.cell before.dev
    pub same_type : after.type ≡ before.type

-- For a paged register the switch selects its page, by bytes that mean that page.
record SelectsPage (type : RsmuType) (reg : ℕ) : Type 0 where
  buf : List ℕ
  selects : page_command type reg ≡ select (page_addr type) buf (reg / 128 * 128)
  means : page_value type buf ≡ reg / 128 * 128
  short : length buf ≡ page_length type

page_command-SelectsPage : (type : RsmuType) (reg : ℕ) → IsPaged type reg → SelectsPage type reg
unfolding page_command
page_command-SelectsPage RsmuType.cm reg p = record {
  buf =
      bit_and (reg / 128 * 128) 0xFF
      ∷ bit_and (reg / 128 * 128 / 2 ^ 8) 0xFF
      ∷ bit_and (reg / 128 * 128 / 2 ^ 16) 0xFF
      ∷ bit_and (reg / 128 * 128 / 2 ^ 24) 0xFF
      ∷ [];
  selects = rw (page_of_mask reg p.1, le→not_ltb reg cm_scsr_base p.0);
  means = page_of_bytes (reg / 128 * 128) (omega arith);
  short = refl;
}
page_command-SelectsPage RsmuType.sabre reg p = record {
  buf = bit_and (reg / 128 * 128 / 2 ^ 7) 0x7 ∷ [];
  selects = rw (page_of_mask reg (omega arith)) (ground (arith, offset_of_mask reg));
  means = page_of_bits reg p.1;
  short = refl;
}
page_command-SelectsPage RsmuType.fc3 reg p = absurd p
page_command-SelectsPage RsmuType.unknown reg p = absurd p

-- No paged register of a ClockMatrix chip has page 0.
IsPaged-pos : (reg : ℕ) → IsPaged RsmuType.cm reg → reg / 128 * 128 ≢ 0
IsPaged-pos reg p = omega arith

page_length-short : (type : RsmuType) → page_length type ≤ 255
page_length-short RsmuType.cm = omega arith
page_length-short RsmuType.sabre = omega arith
page_length-short RsmuType.fc3 = omega arith
page_length-short RsmuType.unknown = omega arith

module _ {Dev : Type 0} {type : RsmuType} {chip : Chip Dev} {client : SpiDevice Dev}
    (wire : Wire type chip client) where
  page_written :
      (buf : List ℕ) (s : Ddata Dev) {u : Unit {0}} {s' : Ddata Dev}
      → length buf ≡ page_length type
      → write_device client (page_addr type) buf s ≡ ok u s'
      → (chip.page s'.dev ≡ page_value type buf)
        × (chip.cell s'.dev ≡ chip.cell s.dev)
        × (s'.page ≡ s.page)
        × (s'.type ≡ s.type)
  unfolding write_device
  page_written buf s h e = ground (arith, page_length-short type, wire.move buf s.dev)

  apply_command-Selects :
      (reg : ℕ) (s : Ddata Dev) {u : Unit {0}} {s' : Ddata Dev}
      → ((type ≡ RsmuType.cm) → reg / 128 * 128 ≢ 0)
      → (command : SelectsPage type reg) → Coherent type chip s
      → apply_command client (select (page_addr type) command.buf (reg / 128 * 128)) s ≡ ok u s'
      → Selects type chip reg s s'
  unfolding apply_command
  apply_command-Selects reg s pos_page command c e = elim (Bool-cases (s.page == reg / 128 * 128)) [
    | inl same ↦ ground (arith, c)
    | inr other ↦
        let (u, t, sent, done) =
          >>-ok (write_device client (page_addr type) command.buf) _ (rw other at e) in
        ground (arith, page_written command.buf s command.short sent, command.means, done)
  ]

  write_page_register-Selects :
      (reg : ℕ) (s : Ddata Dev) {u : Unit {0}} {s' : Ddata Dev}
      → IsPaged type reg
      → Coherent type chip s
      → write_page_register client reg s ≡ ok u s'
      → Selects type chip reg s s'
  unfolding write_page_register
  write_page_register-Selects reg s p c e =
      let command = page_command-SelectsPage type reg p in
      let chosen = ap (λ t. page_command t reg) c.same_type ∙ command.selects in
      apply_command-Selects reg s (λ h. IsPaged-pos reg (subst (λ t. IsPaged t reg) h p)) command c
        (rw chosen at e)

  below_page_addr : (t : RsmuType) (reg : ℕ) → IsPaged t reg → reg % 128 < page_addr t
  below_page_addr RsmuType.cm reg p = p.2
  below_page_addr RsmuType.sabre reg p = p.2
  below_page_addr RsmuType.fc3 reg p = absurd p
  below_page_addr RsmuType.unknown reg p = absurd p

  byte_read :
      (reg : ℕ) (s : Ddata Dev) {bs : List ℕ} {s' : Ddata Dev}
      → reg < page_addr type
      → reg < 128
      → read_device client reg 1 s ≡ ok bs s'
      → (bs ≡ chip.cell s.dev (chip.page s.dev + reg) ∷ [])
        × (chip.page s'.dev ≡ chip.page s.dev)
        × (chip.cell s'.dev ≡ chip.cell s.dev)
        × (s'.page ≡ s.page)
        × (s'.type ≡ s.type)
  unfolding read_device
  byte_read reg s h k e =
      let e' = rw (read_command reg k) at e in ground (arith, wire.load reg s.dev, e')

  byte_written :
      (reg v : ℕ) (s : Ddata Dev) {u : Unit {0}} {s' : Ddata Dev}
      → reg < page_addr type
      → write_device client reg (v ∷ []) s ≡ ok u s'
      → (chip.page s'.dev ≡ chip.page s.dev)
        × (chip.cell s'.dev ≡ update (chip.cell s.dev) (chip.page s.dev + reg) v)
        × (s'.page ≡ s.page)
        × (s'.type ≡ s.type)
  unfolding write_device
  byte_written reg v s h e = ground (arith, wire.store reg v s.dev)

  reg_read_flat :
      (reg val : ℕ) (s : Ddata Dev) {w : ℕ} {s' : Ddata Dev}
      → IsPaged type reg
      → Coherent type chip s
      → reg_read client reg val s ≡ ok w s'
      → (w ≡ val / 256 * 256 + chip.cell s.dev reg)
        × (chip.cell s'.dev ≡ chip.cell s.dev)
        × Coherent type chip s'
  unfolding reg_read
  reg_read_flat reg val s p c e =
      let (_, t, selected, rest) = >>-ok (write_page_register client reg) _ e in
      let sel = write_page_register-Selects reg s p c selected in
      let (bs, t', loaded, done) = >>=-ok (read_device client (bit_and reg addr_mask) 1) _ rest in
      let got =
        byte_read (reg % 128) t (below_page_addr type reg p) (omega arith)
          (rw (offset_of_mask reg) at loaded) in
      ground (arith, sel, got, done, c, ap (λ (f : ℕ → ℕ). f reg) sel.same_cells, joined reg)
    where
      joined : (reg : ℕ) → reg / 128 * 128 + reg % 128 ≡ reg
      joined reg = omega arith

  reg_write_flat :
      (reg val : ℕ) (s : Ddata Dev) {u : Unit {0}} {s' : Ddata Dev}
      → IsPaged type reg
      → Coherent type chip s
      → reg_write client reg val s ≡ ok u s'
      → (chip.cell s'.dev ≡ update (chip.cell s.dev) reg (val % 256)) × Coherent type chip s'
  unfolding reg_write
  reg_write_flat reg val s p c e =
      let (_, t, selected, rest) = >>-ok (write_page_register client reg) _ e in
      let sel = write_page_register-Selects reg s p c selected in
      let put =
        byte_written (reg % 128) (val % 256) t (below_page_addr type reg p)
          (rw (offset_of_mask reg) at rest) in
      ground (arith, sel, put, c)

  -- Over SPI, a sequence of reads and writes of paged registers that succeeds reads the values of
  -- a flat memory and leaves the chip's registers as that memory, on a ClockMatrix chip and on a
  -- Sabre chip, if the page that the driver remembers is the chip's or, on a ClockMatrix chip, no
  -- page was set yet; and so it is again afterwards.
  pub spi_run_refines :
      (accesses : List Access) (s : Ddata Dev) {vs : List ℕ} {s' : Ddata Dev}
      → All (IsPaged type) accesses
      → Coherent type chip s
      → run (record { reg_read = reg_read client; reg_write = reg_write client }) accesses s
        ≡ ok vs s'
      → (vs ≡ flat_values accesses (chip.cell s.dev))
        × (chip.cell s'.dev ≡ flat_cells accesses (chip.cell s.dev))
        × Coherent type chip s'
  spi_run_refines = run_refines (
      let flat : IsFlat _ chip.cell (Coherent type chip) (IsPaged type) = record {
        read_flat = reg_read_flat;
        write_flat = reg_write_flat;
      } in
      flat)
