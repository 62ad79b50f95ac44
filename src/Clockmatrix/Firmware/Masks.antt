-- ===== src/Clockmatrix/Firmware/Masks.antt =====
-- The masks and PLL numbers that a firmware image can set stay within their ranges.
use linux_ptp_driver_package.Clockmatrix.State.{Idtcm, max_tod, max_pll}
use linux_ptp_driver_package.Prelude.{
  ◌*◌, ◌/◌, ◌%◌, ◌^◌, ◌<◌, ℕ, bit_and, ◌≡◌, refl, ◌≢◌, true, ◌&&◌, arith, ◌==◌, inl, inr, false,
  ◌||◌, not, Bool-cases, leb,
}
use linux_ptp_driver_package.Bus.{After}
use linux_ptp_driver_package.Clockmatrix.Firmware.{
  set_u16_lsb, update_output_mask, set_pll_output_mask, check_and_set_masks, set_tod_ptp_pll,
  set_u16_msb,
}
use linux_ptp_driver_package.Prelude.Bits.{checked, checked-entry, and_high, and_mask, or_field}

-- What the rest of the driver takes for granted of the masks.
pub record HasMasks {Dev : Type 0} (s : Idtcm Dev) : Type 0 where
  pub some_tod : s.tod_mask ≢ 0
  pub four_tods : s.tod_mask < 16
  pub pll_in : (i : ℕ) → i < max_tod → (s.channel i).pll < max_pll
  pub mask_in : (i : ℕ) → i < max_tod → (s.channel i).output_mask < 2 ^ 16

lsb_in : (o v : ℕ) → v < 256 → set_u16_lsb o v < 2 ^ 16
lsb_in o v h =
    ground (arith, and_high 8 o 255, and_mask 8 (o / 2 ^ 8), or_field 8 (bit_and (o / 2 ^ 8) 255) v)

mask_table : checked 256 (λ v. (bit_and v 0xf0 == v / 16 * 16) && (bit_and v 0x0f == v % 16)) ≡ true
unfolding checked
mask_table = refl

mask_bits : (v : ℕ) → v < 256 → (bit_and v 0xf0 ≡ v / 16 * 16) × (bit_and v 0x0f ≡ v % 16)
mask_bits v h = ground (arith, checked-entry _ 256 mask_table v h)

module _ {Dev : Type 0} where
  update_output_mask-HasMasks :
      (j : ℕ) (f : ℕ → ℕ) (s : Idtcm Dev)
      → ((o : ℕ) → f o < 2 ^ 16)
      → HasMasks s
      → After HasMasks (update_output_mask j f s)
  update_output_mask-HasMasks j f s h m = record {
    some_tod = m.some_tod;
    four_tods = m.four_tods;
    pll_in = λ i p. ground (arith, m.pll_in i p);
    mask_in = λ i p. ground (arith, m.mask_in i p, h (s.channel j).output_mask);
  }

  set_pll_output_mask-HasMasks :
      (addr v : ℕ) (s : Idtcm Dev)
      → v < 256
      → HasMasks s
      → After HasMasks (set_pll_output_mask addr v s)
  unfolding set_pll_output_mask
  set_pll_output_mask-HasMasks addr v s h m =
      let low =
        λ (j : ℕ). update_output_mask-HasMasks j (λ o. set_u16_lsb o v) s (λ o. lsb_in o v h) m in
      let high = λ (j : ℕ).
        update_output_mask-HasMasks j (λ o. set_u16_msb o v % 2 ^ 16) s (λ o. omega arith) m in
      ground (arith, low 0, high 0, low 1, high 1, low 2, high 2, low 3, high 3, m)

  set_tod_ptp_pll-HasMasks :
      (j v : ℕ) (s : Idtcm Dev) → HasMasks s → After HasMasks (set_tod_ptp_pll j v s)
  unfolding set_tod_ptp_pll
  set_tod_ptp_pll-HasMasks j v s m = elim (Bool-cases (leb max_tod j)) [
    | inl a ↦ rw a m
    | inr a ↦ elim (Bool-cases (leb max_pll v)) [
      | inl b ↦ rw (a, b) m
      | inr b ↦
          rw (a, b)
            (record {
              some_tod = m.some_tod;
              four_tods = m.four_tods;
              pll_in = λ i p. ground (arith, m.pll_in i p);
              mask_in = λ i p. ground (arith, m.mask_in i p);
            })
    ]
  ]

  tod_mask-HasMasks :
      (v : ℕ) (s : Idtcm Dev)
      → v < 256
      → HasMasks s
      → not (bit_and v 0xf0 == 0) || (bit_and v 0x0f == 0) ≡ false
      → HasMasks (record s { tod_mask = v })
  tod_mask-HasMasks v s h m e = record {
    some_tod = ground (arith, mask_bits v h);
    four_tods = ground (arith, mask_bits v h);
    pll_in = m.pll_in;
    mask_in = m.mask_in;
  }

  -- Taking a byte from a firmware record keeps every mask and PLL number in range, whether the
  -- byte is accepted or refused.
  pub check_and_set_masks-HasMasks :
      (addr v : ℕ) (s : Idtcm Dev)
      → v < 256
      → HasMasks s
      → After HasMasks (check_and_set_masks addr v s)
  unfolding check_and_set_masks set_tod_ptp_pll
  check_and_set_masks-HasMasks addr v s h m = ground (
    arith,
    set_tod_ptp_pll-HasMasks 0 v s m,
    set_tod_ptp_pll-HasMasks 1 v s m,
    set_tod_ptp_pll-HasMasks 2 v s m,
    set_tod_ptp_pll-HasMasks 3 v s m,
    set_pll_output_mask-HasMasks addr v s h m,
    tod_mask-HasMasks v s h m,
  )
