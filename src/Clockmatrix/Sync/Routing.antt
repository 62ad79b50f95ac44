-- ===== src/Clockmatrix/Sync/Routing.antt =====
-- Which output each PLL drives.
use native.Mathlib.Nat.{div-div-eq-div-mul, div-one}
use linux_ptp_driver_package.Clockmatrix.Sync.{route, sync_outputs, sync_pll_output}
use linux_ptp_driver_package.Prelude.{
  ◌+◌, ◌/◌, ◌%◌, ◌^◌, ℕ, zero, suc, bit_and, ◌≡◌, Bool, List, [], ◌∷◌, if◌then◌else◌, refl, true,
  false, ap, ◌∙◌, ◌&&◌, ◌==◌,
}
use linux_ptp_driver_package.Prelude.Bits.{and_mask}
use linux_ptp_driver_package.Bus.Regmap.{Regmap}
use linux_ptp_driver_package.Bus.{M, pure, ◌>>◌}
use linux_ptp_driver_package.Clockmatrix.State.{Idtcm}

-- The outputs of the PLLs from `pll` on, as the loop takes them from the mask.
abbrev routes : Bool → Bool → ℕ → ℕ → ℕ → List (ℕ × ℕ)
routes out8_mux out11_mux pll output_mask zero = []
routes out8_mux out11_mux pll output_mask (suc left) =
    let (qn, qn_plus_1, rest) = route out8_mux out11_mux pll output_mask in
    (qn, qn_plus_1) ∷ routes out8_mux out11_mux (pll + 1) rest left

-- Bit `n` of a mask: whether output `n` is in it.
abbrev pub output_bit : ℕ → ℕ → ℕ
output_bit mask n = mask / 2 ^ n % 2

-- The outputs of the eight PLLs: Q0 to Q7 in pairs, Q8, Q9, Q10 and Q11 one each, where a multiplexer
-- gives Q8 to the PLL of Q9, and another Q11 to the PLL of Q10.
abbrev pub pll_outputs : Bool → Bool → (ℕ → ℕ) → List (ℕ × ℕ)
pll_outputs out8_mux out11_mux bit =
    (bit 0, bit 1)
    ∷ (bit 2, bit 3)
    ∷ (bit 4, bit 5)
    ∷ (bit 6, bit 7)
    ∷ ((if out8_mux then 0 else bit 8), 0)
    ∷ (bit 9, (if out8_mux then bit 8 else 0))
    ∷ (bit 10, (if out11_mux then bit 11 else 0))
    ∷ ((if out11_mux then 0 else bit 11), 0)
    ∷ []

bit_of : (m : ℕ) → bit_and m 0x1 ≡ m % 2
bit_of m = and_mask 1 m

-- The loop takes the outputs of the PLLs as `routes` does.
routes_lem :
    (out8_mux out11_mux : Bool) (mask : ℕ)
    → let bit = output_bit mask in
      routes out8_mux out11_mux 0 mask 8 ≡ pll_outputs out8_mux out11_mux bit
unfolding route
routes_lem true true mask = simp (bit_of, div-div-eq-div-mul, div-one) refl
routes_lem true false mask = simp (bit_of, div-div-eq-div-mul, div-one) refl
routes_lem false true mask = simp (bit_of, div-div-eq-div-mul, div-one) refl
routes_lem false false mask = simp (bit_of, div-div-eq-div-mul, div-one) refl

module _ {Dev : Type 0} (regmap : Regmap Dev) where
  -- One call for each PLL from `pll` on, and none for a PLL without an output.
  abbrev pub sync_each : ℕ → ℕ → List (ℕ × ℕ) → M (Idtcm Dev) (Unit {0})
  sync_each sync_src pll [] = pure tt
  sync_each sync_src pll ((qn, qn_plus_1) ∷ rest) =
      (if (qn == 0) && (qn_plus_1 == 0)
        then pure tt
        else sync_pll_output regmap pll sync_src qn qn_plus_1)
      >> sync_each sync_src (pll + 1) rest

  sync_outputs-routes :
      (out8_mux out11_mux : Bool) (sync_src pll mask left : ℕ)
      → sync_outputs regmap out8_mux out11_mux sync_src pll mask left
        ≡ sync_each sync_src pll (routes out8_mux out11_mux pll mask left)
  unfolding sync_outputs
  sync_outputs-routes out8_mux out11_mux sync_src pll mask zero = refl
  sync_outputs-routes out8_mux out11_mux sync_src pll mask (suc left) =
      let (qn, qn_plus_1, rest) = route out8_mux out11_mux pll mask in
      ap
        (λ (others : M (Idtcm Dev) (Unit {0})).
          (if (qn == 0) && (qn_plus_1 == 0)
            then pure tt
            else sync_pll_output regmap pll sync_src qn qn_plus_1)
          >> others)
        (sync_outputs-routes out8_mux out11_mux sync_src (pll + 1) rest left)

  -- The loop over the eight PLLs synchronises each, in order, by the mask bits of its own outputs and no
  -- other: 0 to 7 in pairs, 9 and 10 one each, output 8 with the fifth PLL or by its multiplexer with the
  -- sixth as its second, and output 11 with the eighth or by its multiplexer with the seventh as its
  -- second. A PLL without an output in the mask is left alone.
  pub sync_outputs_lem :
      (out8_mux out11_mux : Bool) (sync_src mask : ℕ)
      → sync_outputs regmap out8_mux out11_mux sync_src 0 mask 8
        ≡ sync_each sync_src 0 (pll_outputs out8_mux out11_mux (output_bit mask))
  sync_outputs_lem out8_mux out11_mux sync_src mask =
      sync_outputs-routes out8_mux out11_mux sync_src 0 mask 8
      ∙ ap (sync_each sync_src 0) (routes_lem out8_mux out11_mux mask)
