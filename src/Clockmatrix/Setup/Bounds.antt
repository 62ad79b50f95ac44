-- ===== src/Clockmatrix/Setup/Bounds.antt =====
-- The ranges of what is set up before the clocks are registered.
use native.Mathlib.Nat.{mod-add-div, mod-lt, div-le_of_le-mul}
use linux_ptp_driver_package.Clockmatrix.State.{Idtcm}
use linux_ptp_driver_package.Prelude.{
  ◌+◌, ◌-◌, ◌*◌, ◌^◌, ◌≤◌, ◌<◌, ℕ, zero, suc, arith, ◌/◌, inl, inr, Bool-cases, get_or, leb, ◌%◌,
}
use linux_ptp_driver_package.Clockmatrix.Setup.{set_default_masks, delay_of, default_output_mask}
use linux_ptp_driver_package.Clockmatrix.Firmware.Masks.{HasMasks}

-- The default masks and PLL numbers are in the ranges that the firmware loader keeps.
pub set_default_masks-HasMasks : {Dev : Type 0} (s : Idtcm Dev) → HasMasks (set_default_masks s)
unfolding set_default_masks
set_default_masks-HasMasks s = record {
  some_tod = ground arith;
  four_tods = ground arith;
  pll_in = λ i h. ground arith;
  mask_in = λ i h. ground (arith, mask_below i h);
}
  where
    mask_below : (i : ℕ) → i < 4 → get_or default_output_mask i 0 < 2 ^ 16
    mask_below zero h = omega arith
    mask_below (suc zero) h = omega arith
    mask_below (suc (suc zero)) h = omega arith
    mask_below (suc (suc (suc zero))) h = omega arith
    mask_below (suc (suc (suc (suc n)))) h = absurd (omega arith)

-- The delay that is taken off a time stamp is 0, or 20 cycles of a FOD that runs at 500 MHz or more,
-- rounded down, and 8 ns: never more than 48 ns, so that no subtraction of it can overflow.
pub delay_of_lem :
    (fod_freq : ℕ)
    → (delay_of fod_freq ≤ 48)
      × ((500000000 ≤ fod_freq)
          → ((delay_of fod_freq - 8) * fod_freq ≤ 20000000000)
            × (20000000000 < (delay_of fod_freq - 8 + 1) * fod_freq))
unfolding delay_of
delay_of_lem fod_freq = elim (Bool-cases (leb 500000000 fod_freq)) [
  | inl e ↦ rw e (
    grind (arith, quotient_small fod_freq (ground (arith, e))),
    λ h. grind (arith, mod-add-div 20000000000 fod_freq, below fod_freq h),
  )
  | inr e ↦ rw e (omega arith, λ h. absurd (ground (arith, e)))
]
  where
    below : (f : ℕ) → 500000000 ≤ f → 20000000000 % f < f
    below f h = mod-lt 20000000000 (omega arith)

    quotient_small : (f : ℕ) → 500000000 ≤ f → 20000000000 / f ≤ 40
    quotient_small f h = div-le_of_le-mul f (omega arith)
