-- ===== src/Misc/Fc3/References/Word.antt =====
-- The priority word of a FemtoClock3 DPLL: what it means, and one entry's change of it.
use linux_ptp_driver_package.Prelude.{
  ℕ, ◌+◌, ◌*◌, ◌/◌, ◌%◌, ◌^◌, ◌≡◌, refl, Bool, true, false, ◌&&◌, Option, none, some, if◌then◌else◌,
  ◌==◌, ltb, ◌<◌, List, [], ◌∷◌, arith, suc, zero, not,
}
use linux_ptp_driver_package.Misc.Fc3.References.{
  with_priority, find_ref, dpll_refx_priority_disable_mask,
}
use linux_ptp_driver_package.Prelude.Bits.{checked, checked-entry}
use linux_ptp_driver_package.Misc.Cm.{PriorityEntry}

-- The priority of a reference in a priority word, if the reference is not disabled.
abbrev pub priority_of : ℕ → ℕ → Option ℕ
priority_of word r = if word / 2 ^ r % 2 == 0 then some (word / 2 ^ (4 + 2 * r) % 4) else none

abbrev same_priority : Option ℕ → Option ℕ → Bool
same_priority none none = true
same_priority none (some n) = false
same_priority (some m) none = false
same_priority (some m) (some n) = m == n

-- The word with one reference changed, as a test of one reference.
abbrev changed_ok : ℕ → ℕ → ℕ → ℕ → Bool
changed_ok reg r p k = elim (with_priority reg r p) [
  | none ↦ false
  | some w ↦
      ltb w 4096 && same_priority (priority_of w k) (if k == r then some p else priority_of reg k)
]

word_table :
    checked 4 (λ r. checked 4 λ p. checked 4 λ k. checked 4096 λ reg. changed_ok reg r p k) ≡ true
unfolding checked with_priority
word_table = refl

same_priority_eq : (a b : Option ℕ) → same_priority a b ≡ true → a ≡ b
same_priority_eq none none h = refl
same_priority_eq none (some n) h = cc
same_priority_eq (some m) none h = cc
same_priority_eq (some m) (some n) h = ground (arith, h)

and_true : (a b : Bool) → (a && b) ≡ true → (a ≡ true) × (b ≡ true)
and_true true b h = (refl, h)
and_true false b h = absurd (ground (arith, h))

-- A reference that is given a priority has it, and the others keep theirs.
pub changed_word :
    (reg r p k : ℕ) {w : ℕ}
    → reg < 4096
    → r < 4
    → p < 4
    → k < 4
    → with_priority reg r p ≡ some w
    → (w < 4096) × (priority_of w k ≡ (if k == r then some p else priority_of reg k))
changed_word reg r p k {w} hreg hr hp hk e =
    let entry =
      checked-entry _ 4096
        (checked-entry _ 4 (checked-entry _ 4 (checked-entry _ 4 word_table r hr) p hp) k hk) reg
        hreg in
    go entry
  where
    go :
        changed_ok reg r p k ≡ true
        → (w < 4096) × (priority_of w k ≡ (if k == r then some p else priority_of reg k))
    go entry =
        let facts = rw (e, changed_ok) at entry in
        let (bound, same) = and_true (ltb w 4096) _ facts in
        (ground (arith, bound), same_priority_eq _ _ same)

pub above_is_none : (reg r p : ℕ) {w : ℕ} → with_priority reg r p ≡ some w → r < 4
unfolding with_priority
above_is_none reg r p e = ground (arith, e)

pub disabled : (r : ℕ) → r < 4 → priority_of dpll_refx_priority_disable_mask r ≡ none
disabled zero h = refl
disabled (suc zero) h = refl
disabled (suc (suc zero)) h = refl
disabled (suc (suc (suc zero))) h = refl
disabled (suc (suc (suc (suc r)))) h = absurd (omega arith)

-- Whether the multiplexer of reference `r`, three bits of the register, selects the input.
abbrev pub selects : ℕ → ℕ → ℕ → Bool
selects ref_sel clock_index r = clock_index == ref_sel / 8 ^ r % 8

-- Whether reference `r` is the first that selects it.
abbrev pub is_first : (ℕ → Bool) → ℕ → Bool
is_first test zero = test zero
is_first test (suc r) = not (test zero) && is_first (λ k. test (suc k)) r

abbrev pub selects_first : ℕ → ℕ → ℕ → Bool
selects_first ref_sel clock_index = is_first (selects ref_sel clock_index)

-- The priority that a list of entries asks for a reference: that of the last entry whose input it is
-- the first to select, or what was so before.
abbrev pub asked_priority : ℕ → Option ℕ → List PriorityEntry → ℕ → Option ℕ
asked_priority ref_sel so_far [] r = so_far
asked_priority ref_sel so_far (e ∷ es) r =
    asked_priority ref_sel
      (if selects_first ref_sel e.clock_index r then some e.priority else so_far) es r

-- The chain of tests in `find_ref`.
abbrev chain : Bool → Bool → Bool → Bool → ℕ
chain b0 b1 b2 b3 = if b0 then 0 else if b1 then 1 else if b2 then 2 else if b3 then 3 else 4

first0 : (b0 b1 b2 b3 : Bool) → (0 == chain b0 b1 b2 b3) ≡ b0
first0 b0 b1 b2 b3 = ground arith

first1 : (b0 b1 b2 b3 : Bool) → (1 == chain b0 b1 b2 b3) ≡ (not b0 && b1)
first1 b0 b1 b2 b3 = ground arith

first2 : (b0 b1 b2 b3 : Bool) → (2 == chain b0 b1 b2 b3) ≡ (not b0 && (not b1 && b2))
first2 b0 b1 b2 b3 = ground arith

first3 : (b0 b1 b2 b3 : Bool) → (3 == chain b0 b1 b2 b3) ≡ (not b0 && (not b1 && (not b2 && b3)))
first3 b0 b1 b2 b3 = ground arith

-- `find_ref` finds that reference.
pub find_ref-selects_first :
    (ref_sel clock_index r : ℕ)
    → r < 4
    → (r == find_ref ref_sel clock_index) ≡ selects_first ref_sel clock_index r
unfolding find_ref
find_ref-selects_first ref_sel clock_index zero h =
    first0 (selects ref_sel clock_index 0) (selects ref_sel clock_index 1)
      (selects ref_sel clock_index 2) (selects ref_sel clock_index 3)
find_ref-selects_first ref_sel clock_index (suc zero) h =
    first1 (selects ref_sel clock_index 0) (selects ref_sel clock_index 1)
      (selects ref_sel clock_index 2) (selects ref_sel clock_index 3)
find_ref-selects_first ref_sel clock_index (suc (suc zero)) h =
    first2 (selects ref_sel clock_index 0) (selects ref_sel clock_index 1)
      (selects ref_sel clock_index 2) (selects ref_sel clock_index 3)
find_ref-selects_first ref_sel clock_index (suc (suc (suc zero))) h =
    first3 (selects ref_sel clock_index 0) (selects ref_sel clock_index 1)
      (selects ref_sel clock_index 2) (selects ref_sel clock_index 3)
find_ref-selects_first ref_sel clock_index (suc (suc (suc (suc r)))) h = absurd (omega arith)
