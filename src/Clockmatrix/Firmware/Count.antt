-- ===== src/Clockmatrix/Firmware/Count.antt =====
-- How many records make a full configuration.
use linux_ptp_driver_package.Clockmatrix.State.{FwVersion, v_default, v487, v520}
use linux_ptp_driver_package.Prelude.{
  ◌+◌, ◌%◌, ◌^◌, ℕ, zero, suc, ◌≡◌, refl, if◌then◌else◌, ◌≤◌, ◌↔◌, true, List, [], ◌∷◌, arith,
}
use linux_ptp_driver_package.Clockmatrix.Firmware.{
  full_count, skipped, Fwrc, count_records, contains_full_configuration, regaddr,
}

-- The addresses below `n` that the loader does not skip, counted one by one.
pub programmable_below : FwVersion → ℕ → ℕ
programmable_below fw zero = 0
programmable_below fw (suc n) = (if skipped fw n (n % 256) then 0 else 1) + programmable_below fw n

-- The driver's formula is the number of programmable addresses of the chip.
full_count-programmable_below : (fw : FwVersion) → full_count fw ≡ programmable_below fw (2 ^ 16)
unfolding programmable_below
full_count-programmable_below v_default = refl
full_count-programmable_below v487 = refl
full_count-programmable_below v520 = refl

pub programmable_records : FwVersion → List Fwrc → ℕ
programmable_records fw [] = 0
programmable_records fw (rec ∷ recs) =
    (if skipped fw (regaddr rec) rec.loaddr then 0 else 1) + programmable_records fw recs

count_records-sum :
    (fw : FwVersion) (recs : List Fwrc) (count : ℕ)
    → count_records fw recs count ≡ programmable_records fw recs + count
unfolding count_records programmable_records
count_records-sum fw [] count = omega arith
count_records-sum fw (rec ∷ recs) count =
    ground (arith, count_records-sum fw recs count, count_records-sum fw recs (count + 1))

-- An image is taken for a full configuration exactly when its records at programmable addresses,
-- those that the loader does not skip, are at least as many as the chip has such addresses.
pub contains_full_configuration_lem :
    (fw : FwVersion) (recs : List Fwrc)
    → (contains_full_configuration fw recs ≡ true)
      ↔ (programmable_below fw (2 ^ 16) ≤ programmable_records fw recs)
unfolding contains_full_configuration
contains_full_configuration_lem fw recs =
    ground (arith, count_records-sum fw recs 0, full_count-programmable_below fw)
