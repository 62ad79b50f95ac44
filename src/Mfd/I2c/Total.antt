-- ===== src/Mfd/I2c/Total.antt =====
-- Register access over plain I2C messages that all go through does not fail, and gives the values of a flat memory.
use linux_ptp_driver_package.Mfd.I2c.{
  I2cClient, i2c_reg_read, i2c_reg_write, i2c_write_device, i2c_read_device, write_page_register,
  reg_read, reg_write, cm_page_mask, cm_page_addr, page_bytes, cm_address_mask,
}
use linux_ptp_driver_package.Prelude.{
  ◌≤◌, ℕ, bit_and, ◌≡◌, inl, inr, false, List, [], ◌∷◌, arith, length, Bool-cases, le→not_ltb, ltb,
  ◌==◌, refl, ap, ◌∙◌,
}
use linux_ptp_driver_package.Prelude.Int.{ltb_ℤ, pos}
use linux_ptp_driver_package.Bus.{Outcome, M, ok, ◌>>=◌, fail, pure}
use linux_ptp_driver_package.Mfd.Flat.{
  run, Access, load, store, BusOps, All, flat_values, flat_cells,
}
use linux_ptp_driver_package.Mfd.Ddata.{Ddata, cm_scsr_base}
use linux_ptp_driver_package.Mfd.I2c.Paging.{Chip, IsPaged, Coherent}
use linux_ptp_driver_package.Mfd.I2c.Adapter.{Messages, i2c_run_refines}

-- Every call of the kernel's I2C layer does what it is asked: a send returns no negative code, and
-- a transfer returns that both messages are done.
pub record Reliable {Dev : Type 0} (client : I2cClient Dev) : Type 0 where
  pub sends : (bytes : List ℕ) (d : Dev) → ltb_ℤ (client.master_send bytes d).ret (pos 0) ≡ false
  pub transfers : (reg n : ℕ) (d : Dev) → (client.transfer reg n d).ret ≡ pos 2

-- The call returns.
abbrev pub Returns : {S A : Type 0} → Outcome S A → Type 0
Returns (ok a s) = Unit
Returns (fail e s) = ⊥

module _ {S A B : Type 0} where
  Returns->>= :
      (m : M S A) (f : A → M S B) (s : S)
      → Returns (m s)
      → ((a : A) (t : S) → Returns (f a t))
      → Returns ((m >>= f) s)
  Returns->>= m f s p q = go (m s) p
    where
      go : (o : Outcome S A) → Returns o → Returns (elim o [ ok a t ↦ f a t | fail e t ↦ fail e t ])
      go (ok a t) p = q a t
      go (fail e t) p = absurd p

module _ {Dev : Type 0} {client : I2cClient Dev} (works : Reliable client) where
  write-Returns :
      (reg : ℕ) (buf : List ℕ) (s : Ddata Dev)
      → length buf ≤ 255
      → Returns (i2c_write_device client reg buf s)
  unfolding i2c_write_device
  write-Returns reg buf s h = rw (le→not_ltb 255 (length buf) h, works.sends (reg ∷ buf) s.dev) tt

  read-Returns : (reg n : ℕ) (s : Ddata Dev) → Returns (i2c_read_device client reg n s)
  unfolding i2c_read_device
  read-Returns reg n s = rw (works.transfers reg n s.dev) tt

  page-Returns :
      (reg : ℕ) (s : Ddata Dev)
      → Returns (write_page_register (i2c_write_device client) (i2c_read_device client) reg s)
  unfolding write_page_register
  page-Returns reg s = elim (Bool-cases (ltb reg cm_scsr_base)) [
    | inl e ↦ rw e tt
    | inr e ↦ elim (Bool-cases (s.page == bit_and reg cm_page_mask)) [
      | inl same ↦ rw (e, same) tt
      | inr other ↦
          rw (e, other)
            (Returns->>=
              (i2c_write_device client cm_page_addr (page_bytes (bit_and reg cm_page_mask))) _ s
              (write-Returns cm_page_addr _ s (omega arith)) (λ u t. tt))
    ]
  ]

  abbrev ops : BusOps Dev
  ops = record { reg_read = i2c_reg_read client; reg_write = i2c_reg_write client }

  read_reg-Returns : (reg : ℕ) (s : Ddata Dev) → Returns (i2c_reg_read client reg 0 s)
  unfolding i2c_reg_read reg_read
  read_reg-Returns reg s =
      Returns->>= (write_page_register (i2c_write_device client) (i2c_read_device client) reg) _ s
        (page-Returns reg s)
        (λ u t.
          Returns->>= (i2c_read_device client (bit_and reg cm_address_mask) 1) _ t
            (read-Returns _ 1 t) (λ bs t'. tt))

  write_reg-Returns : (reg val : ℕ) (s : Ddata Dev) → Returns (i2c_reg_write client reg val s)
  unfolding i2c_reg_write reg_write
  write_reg-Returns reg val s =
      Returns->>= (write_page_register (i2c_write_device client) (i2c_read_device client) reg) _ s
        (page-Returns reg s) (λ u t. write-Returns _ _ t (omega arith))

  -- When every message goes through, no access of a sequence fails, whatever the addresses are and
  -- whatever page was set before.
  run-Returns :
      (accesses : List Access) (s : Ddata Dev)
      → Returns (
          run
            (record { reg_read = i2c_reg_read client; reg_write = i2c_reg_write client })
            accesses
            s)
  unfolding run i2c_reg_read i2c_reg_write reg_read reg_write
  run-Returns [] s = tt
  run-Returns (load reg ∷ rest) s =
      Returns->>= (i2c_reg_read client reg 0) _ s (read_reg-Returns reg s) (λ v t.
        Returns->>= (run ops rest) (λ vs. pure (v ∷ vs)) t (run-Returns rest t) (λ vs t'. tt))
  run-Returns (store reg val ∷ rest) s =
      Returns->>= (i2c_reg_write client reg val) _ s (write_reg-Returns reg val s)
        (λ u t. run-Returns rest t)

returned : {S A : Type 0} (o : Outcome S A) → Returns o → (a : A) × (s : S) × (o ≡ ok a s)
returned (ok a s) p = (a, s, refl)
returned (fail e s) p = absurd p

module _ {Dev : Type 0} {chip : Chip Dev} {client : I2cClient Dev} (works : Reliable client)
    (laws : Messages chip client) where
  -- When every message goes through, every sequence of reads and writes of paged registers succeeds: it
  -- returns the values of a flat memory and leaves the chip's registers as that memory, if the driver's
  -- page was not set yet or is the chip's; and so it is again afterwards.
  pub i2c_run_total :
      (accesses : List Access) (s : Ddata Dev)
      → All IsPaged accesses
      → Coherent chip s
      → (s' : Ddata Dev) × (run
            (record { reg_read = i2c_reg_read client; reg_write = i2c_reg_write client })
            accesses
            s
          ≡ ok (flat_values accesses (chip.cell s.dev)) s')
        × (chip.cell s'.dev ≡ flat_cells accesses (chip.cell s.dev))
        × Coherent chip s'
  i2c_run_total accesses s paged ready =
      let (vs, s', e) = returned _ (run-Returns works accesses s) in
      let (values, cells, ready') = i2c_run_refines laws accesses s paged ready e in
      (s', e ∙ ap (λ xs. ok xs s') values, cells, ready')
