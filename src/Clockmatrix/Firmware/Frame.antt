-- ===== src/Clockmatrix/Firmware/Frame.antt =====
-- What loading a firmware image can touch, whatever the image holds and wherever it stops.
use linux_ptp_driver_package.Bus.{After}
use linux_ptp_driver_package.Clockmatrix.Firmware.{
  Fwrc, regaddr, skipped, program_record, load_record, load_records, check_and_set_masks,
  set_pll_output_mask, set_tod_ptp_pll,
}
use linux_ptp_driver_package.Prelude.{
  ◌+◌, ◌%◌, ◌^◌, ◌<◌, ℕ, ◌≡◌, inl, inr, false, List, [], ◌∷◌, arith, Bool-cases, sym, subst,
  if◌then◌else◌, ◌==◌,
}
use linux_ptp_driver_package.Clockmatrix.State.{FwVersion, Idtcm, write_u8, on_chip}
use linux_ptp_driver_package.Bus.{Outcome, ok, fail}
use linux_ptp_driver_package.Prelude.Bits.{or_field}
use linux_ptp_driver_package.Bus.Regmap.{Regmap}
use linux_ptp_driver_package.Clockmatrix.Registers.{scsr_base}
use linux_ptp_driver_package.Clockmatrix.Firmware.Masks.{HasMasks, check_and_set_masks-HasMasks}
use linux_ptp_driver_package.Prelude.Int.{eqb_ℤ}
use linux_ptp_driver_package.Bus.Errno.{einval}

-- The fields of a record are bytes.
abbrev pub IsRecord : Fwrc → Type 0
IsRecord rec = (rec.hiaddr < 256) × (rec.loaddr < 256) × (rec.value < 256)

abbrev pub AreRecords : List Fwrc → Type 0
AreRecords [] = Unit
AreRecords (rec ∷ recs) = IsRecord rec × AreRecords recs

-- An address above SCSR_BASE that the loader may write: between the GPIO user control and the
-- scratch registers, and not one of the last four of a page.
abbrev pub IsProgrammable : FwVersion → ℕ → Type 0
IsProgrammable fw a = skipped fw a (a % 256) ≡ false

-- What a write may have left of a property of the chip.
abbrev pub AfterWrite : {Dev : Type 0} → (Dev → Type 0) → Outcome Dev (Unit {0}) → Type 0
AfterWrite P (ok u d) = P d
AfterWrite P (fail e d) = P d

regaddr_byte : (rec : Fwrc) → IsRecord rec → regaddr rec % 256 ≡ rec.loaddr
regaddr_byte rec h = ground (arith, or_field 8 rec.hiaddr rec.loaddr)

module _ {Dev : Type 0} (regmap : Regmap Dev) (fw : FwVersion) (P : Dev → Type 0)
    (kept : (a v : ℕ) (d : Dev)
      → IsProgrammable fw a
      → v < 256
      → P d
      → AfterWrite P (regmap.bulk_write ((scsr_base + a) % 2 ^ 32) (v ∷ []) d)) where
  abbrev pub IsKept : Idtcm Dev → Type 0
  IsKept s = HasMasks s × P s.dev

  on_dev : (s : Idtcm Dev) (d : Dev) → HasMasks s → HasMasks (record s { dev = d })
  on_dev s d m = record {
    some_tod = m.some_tod;
    four_tods = m.four_tods;
    pll_in = m.pll_in;
    mask_in = m.mask_in;
  }

  written :
      (a v : ℕ) (s : Idtcm Dev)
      → IsProgrammable fw a
      → v < 256
      → IsKept s
      → After IsKept (write_u8 regmap scsr_base a v s)
  unfolding write_u8
  written a v s p h k =
      go (regmap.bulk_write ((scsr_base + a) % 2 ^ 32) (v ∷ []) s.dev) (kept a v s.dev p h k.1)
    where
      go : (o : Outcome Dev (Unit {0})) → AfterWrite P o → After IsKept (on_chip regmap (λ d. o) s)
      go (ok u d) q = (on_dev s d k.0, q)
      go (fail e d) q = (on_dev s d k.0, q)

  program_record-IsKept :
      (rec : Fwrc) (s : Idtcm Dev)
      → IsRecord rec
      → IsKept s
      → After IsKept (program_record regmap fw rec s)
  unfolding program_record
  program_record-IsKept rec s h k = elim (Bool-cases (skipped fw (regaddr rec) rec.loaddr)) [
    | inl e ↦ rw e k
    | inr e ↦ rw e (written (regaddr rec) rec.value s (rw (regaddr_byte rec h) e) h.2 k)
  ]

  masks_keep_dev :
      (addr v : ℕ) (s : Idtcm Dev) → After (λ t. t.dev ≡ s.dev) (check_and_set_masks addr v s)
  unfolding check_and_set_masks set_pll_output_mask set_tod_ptp_pll
  masks_keep_dev addr v s = ground arith

  load_record-IsKept :
      (rec : Fwrc) (s : Idtcm Dev)
      → IsRecord rec
      → IsKept s
      → After IsKept (load_record regmap fw rec s)
  unfolding load_record
  load_record-IsKept rec s h k = elim (Bool-cases (rec.reserved == 0)) [
    | inl e ↦ rw e (
        go (check_and_set_masks (regaddr rec) rec.value s)
          (check_and_set_masks-HasMasks (regaddr rec) rec.value s h.2 k.0)
          (masks_keep_dev (regaddr rec) rec.value s))
    | inr e ↦ rw e k
  ]
    where
      go :
          (o : Outcome (Idtcm Dev) (Unit {0}))
          → After HasMasks o
          → After (λ t. t.dev ≡ s.dev) o
          → After IsKept (elim o [
            | ok u t ↦ program_record regmap fw rec t
            | fail c t ↦ if eqb_ℤ c einval then fail einval t else program_record regmap fw rec t
          ])
      go (ok u t) m d = program_record-IsKept rec t h (m, subst P (sym d) k.1)
      go (fail c t) m d = elim (Bool-cases (eqb_ℤ c einval)) [
        | inl e ↦ rw e (m, subst P (sym d) k.1)
        | inr e ↦ rw e (program_record-IsKept rec t h (m, subst P (sym d) k.1))
      ]

  -- Loading an image keeps what no write at a programmable address can change, whatever the image
  -- holds and whether it is loaded to its end or is refused on the way; and the masks and PLL
  -- numbers of the driver stay in their ranges.
  pub load_records-IsKept :
      (recs : List Fwrc) (s : Idtcm Dev)
      → AreRecords recs
      → IsKept s
      → After IsKept (load_records regmap fw recs s)
  unfolding load_records
  load_records-IsKept [] s h k = k
  load_records-IsKept (rec ∷ recs) s h k =
      go (load_record regmap fw rec s) (load_record-IsKept rec s h.0 k)
        (λ t q. load_records-IsKept recs t h.1 q)
    where
      go :
          (o : Outcome (Idtcm Dev) (Unit {0}))
          → After IsKept o
          → ((t : Idtcm Dev) → IsKept t → After IsKept (load_records regmap fw recs t))
          → After IsKept (elim o [ ok u t ↦ load_records regmap fw recs t | fail e t ↦ fail e t ])
      go (ok u t) q rest = rest t q
      go (fail e t) q rest = q
