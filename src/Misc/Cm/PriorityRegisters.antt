-- ===== src/Misc/Cm/PriorityRegisters.antt =====
-- The loops over the priority registers of a DPLL, run to the end.
use linux_ptp_driver_package.Prelude.{
  ℕ, ◌+◌, ◌≤◌, ◌<◌, zero, suc, ◌≡◌, refl, ◌≢◌, Option, some, List, [], ◌∷◌, arith, sym, ap, ◌∙◌,
  subst, inl, inr, ◌||◌, length, get_or, leb, Bool-cases, ◌-◌, none, ltb,
}
use linux_ptp_driver_package.Bus.{Outcome, ok, fail, >>-ok, >>=-ok}
use linux_ptp_driver_package.Bus.Regmap.{Regmap}
use linux_ptp_driver_package.Misc.Cm.{
  PriorityEntry, max_ref_priorities, group_of, write_reg, clear_entries, dpll_ref_priority_0,
  priority_byte, Rsmu, set_entries, max_electrical_references, read_reg,
  rsmu_cm_set_clock_priorities, get_dpll_reg_offset, on_rsmu,
}
use linux_ptp_driver_package.Clockmatrix.State.{fw_reg}
use linux_ptp_driver_package.Clockmatrix.Registers.{dpll, dpll_v520}
use linux_ptp_driver_package.Misc.Cm.Fields.{dpll_mode_address}
use linux_ptp_driver_package.Misc.Cm.PriorityCells.{
  PriorityRegisters, Sets, Placed, bytes_from, Keeps, AreValid, zeros, place_one, place_rest,
  length-bytes_from,
}

module _ {Dev : Type 0} (regmap : Regmap Dev) {base mode : ℕ}
    (regs : PriorityRegisters regmap base mode) where
  write_sets :
      (i v : ℕ) (s : Rsmu Dev) {u : Unit {0}} {s' : Rsmu Dev}
      → i < max_ref_priorities
      → v < 256
      → write_reg regmap (base + dpll_ref_priority_0 + i) v s ≡ ok u s'
      → (regs.cell i s'.dev ≡ v) × ((j : ℕ) → j ≢ i → regs.cell j s'.dev ≡ regs.cell j s.dev)
  unfolding write_reg
  write_sets i v s hi hv e = go _ refl (regs.writes i v s.dev hi hv) e
    where
      go :
          (o : Outcome Dev (Unit {0})) {s' : Rsmu Dev}
          → regmap.bulk_write (base + dpll_ref_priority_0 + i) (v ∷ []) s.dev ≡ o
          → Sets regs.cell i v s.dev o
          → (elim o [
            | ok a d ↦ ok a (record s { dev = d })
            | fail e d ↦ fail e (record s { dev = d })
          ])
            ≡ ok tt s'
          → (regs.cell i s'.dev ≡ v) × ((j : ℕ) → j ≢ i → regs.cell j s'.dev ≡ regs.cell j s.dev)
      go (ok a d) h sets e =
          subst
            (λ (x : Dev).
              (regs.cell i x ≡ v) × ((j : ℕ) → j ≢ i → regs.cell j x ≡ regs.cell j s.dev))
            (ap (λ o. elim o [ ok a t ↦ t.dev | fail c t ↦ t.dev ]) e) sets
      go (fail c d) h sets e = cc

  clear_entries_lem :
      (index left : ℕ) (s : Rsmu Dev) {u : Unit {0}} {s' : Rsmu Dev}
      → index + left ≤ max_ref_priorities
      → clear_entries regmap base index left s ≡ ok u s'
      → Placed regs.cell index (zeros left) s.dev s'.dev
  unfolding clear_entries
  clear_entries_lem index zero s room e =
      let same = ap (λ o. elim o [ ok a t ↦ t.dev | fail c t ↦ t.dev ]) e in
      (λ j h. ap (regs.cell j) (sym same), λ j h. absurd (omega arith))
  clear_entries_lem index (suc left) s {s' = s'} room e =
      let (a, t, w, rest) = >>-ok (write_reg regmap (base + dpll_ref_priority_0 + index) 0) _ e in
      let (here, others) = write_sets index 0 s (omega arith) (omega arith) w in
      let later = clear_entries_lem (index + 1) left t (omega arith) rest in
      place_one regs.cell index 0 (zeros left) s.dev t.dev s'.dev here others later

  set_entries_lem :
      (index : ℕ) (prev : Option ℕ) (g : ℕ) (es : List PriorityEntry) (s : Rsmu Dev) {u : Unit {0}}
      {s' : Rsmu Dev}
      → index + length es ≤ max_ref_priorities
      → set_entries regmap base index prev g es s ≡ ok u s'
      → AreValid es × Placed regs.cell index (bytes_from prev g es) s.dev s'.dev
  unfolding set_entries bytes_from
  set_entries_lem index prev g [] s room e =
      let same = ap (λ o. elim o [ ok a t ↦ t.dev | fail c t ↦ t.dev ]) e in
      (tt, (λ j h. ap (regs.cell j) (sym same), λ j h. absurd (omega arith)))
  set_entries_lem index prev g (p ∷ es) s {s' = s'} room e =
      let found = group_of prev g p.priority es in
      let bad = leb max_electrical_references p.clock_index || leb max_ref_priorities p.priority in
      elim (Bool-cases bad) [
        | inl refused ↦ absurd (ground (arith, refused, e))
        | inr good ↦
            let v = priority_byte p.clock_index found.0 in
            let (a, t, w, rest) =
              >>-ok (write_reg regmap (base + dpll_ref_priority_0 + index) v) _ (rw good at e) in
            let (here, others) = write_sets index v s (omega arith) (omega arith) w in
            let (valid, later) =
              set_entries_lem (index + 1) (some p.priority) found.1 es t (omega arith) rest in
            (
              (ground (arith, good), ground (arith, good), valid),
              place_one regs.cell index v _ s.dev t.dev s'.dev here others later,
            )
      ]

  mode_read_keeps :
      (s : Rsmu Dev) {v : ℕ} {s' : Rsmu Dev}
      → read_reg regmap mode s ≡ ok v s'
      → (j : ℕ) → regs.cell j s'.dev ≡ regs.cell j s.dev
  unfolding read_reg
  mode_read_keeps s {v} {s'} e = go _ (regs.mode_reads s.dev) e
    where
      go :
          (o : Outcome Dev (List ℕ))
          → Keeps regs.cell s.dev o
          → on_rsmu regmap
              (λ d. elim o [ ok bs d' ↦ ok (get_or bs 0 0) d' | fail c d' ↦ fail c d' ])
              s
            ≡ ok v s'
          → (j : ℕ) → regs.cell j s'.dev ≡ regs.cell j s.dev
      go (ok bs d) keeps e j =
          ap (regs.cell j) (sym (ap (λ o. elim o [ ok a t ↦ t.dev | fail c t ↦ t.dev ]) e))
          ∙ keeps j
      go (fail c d) keeps e j = cc

  mode_write_keeps :
      (v : ℕ) (s : Rsmu Dev) {u : Unit {0}} {s' : Rsmu Dev}
      → write_reg regmap mode v s ≡ ok u s'
      → (j : ℕ) → regs.cell j s'.dev ≡ regs.cell j s.dev
  unfolding write_reg
  mode_write_keeps v s {u} {s'} e = go _ (regs.mode_writes v s.dev) e
    where
      go :
          (o : Outcome Dev (Unit {0}))
          → Keeps regs.cell s.dev o
          → on_rsmu regmap (λ d. o) s ≡ ok u s'
          → (j : ℕ) → regs.cell j s'.dev ≡ regs.cell j s.dev
      go (ok a d) keeps e j =
          ap (regs.cell j) (sym (ap (λ o. elim o [ ok a t ↦ t.dev | fail c t ↦ t.dev ]) e))
          ∙ keeps j
      go (fail c d) keeps e j = cc

-- Setting the clock priorities of a DPLL, if it succeeds, was asked of one of the eight DPLLs with at
-- most nineteen entries, each of an electrical reference at one of the nineteen priorities; then
-- priority register `j` has the byte of entry `j`, and the registers after the last entry are
-- disabled (0), whatever they held before.
pub rsmu_cm_set_clock_priorities_lem :
    {Dev : Type 0} (regmap : Regmap Dev) (n : ℕ) (entries : List PriorityEntry) (s : Rsmu Dev)
    (regs : PriorityRegisters regmap
      (get_or (fw_reg s.fw_version dpll dpll_v520) n 0)
      (dpll_mode_address regmap s.fw_version n))
    {u : Unit {0}} {s' : Rsmu Dev}
    → rsmu_cm_set_clock_priorities regmap n entries s ≡ ok u s'
    → (n < 8)
      × (length entries ≤ max_ref_priorities)
      × AreValid entries
      × ((j : ℕ)
          → j < max_ref_priorities
          → regs.cell j s'.dev ≡ get_or (bytes_from none 0 entries) j 0)
unfolding rsmu_cm_set_clock_priorities get_dpll_reg_offset
rsmu_cm_set_clock_priorities_lem {Dev} regmap n entries s regs {s' = s'} e =
    elim (Bool-cases (ltb n 8)) [
      | inr large ↦ absurd (ground (arith, large, e))
      | inl small ↦ elim (Bool-cases (ltb max_ref_priorities (length entries))) [
        | inl many ↦ absurd (ground (arith, small, many, e))
        | inr fits ↦
            let count = length entries in
            let base = get_or (fw_reg s.fw_version dpll dpll_v520) n 0 in
            let a = dpll_mode_address regmap s.fw_version n in
            let (u1, t1, set, e1) =
              >>-ok (set_entries regmap base 0 none 0 entries) _ (rw fits at (rw small at e)) in
            let (u2, t2, clear, e2) =
              >>-ok (clear_entries regmap base count (max_ref_priorities - count)) _ e1 in
            let (v, t3, read, e3) = >>=-ok (read_reg regmap a) (λ v. write_reg regmap a v) e2 in
            let (valid, placed) =
              set_entries_lem regmap regs 0 none 0 entries s (ground (arith, fits)) set in
            let (kept, zeroed) =
              clear_entries_lem regmap regs count (max_ref_priorities - count) t1
                (ground (arith, fits)) clear in
            (
              ground (arith, small),
              ground (arith, fits),
              valid,
              λ j h.
                  mode_write_keeps regmap regs v t3 e3 j
                  ∙ mode_read_keeps regmap regs t2 read j
                  ∙ place_rest regs.cell (bytes_from none 0 entries) count max_ref_priorities s.dev
                      t1.dev t2.dev (length-bytes_from none 0 entries) placed (kept, zeroed) j h,
            )
      ]
    ]
