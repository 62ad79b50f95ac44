-- ===== src/Misc/Sabre/Holdover.antt =====
-- Holdover of a Sabre chip: switched on and off again, and what a second call to switch it on costs.
use linux_ptp_driver_package.Prelude.{
  ℕ, ◌+◌, ◌*◌, ◌/◌, ◌%◌, ◌<◌, ◌≡◌, refl, true, ◌&&◌, none, some, [], ◌∷◌, arith, ◌==◌, ◌≤◌, ap,
  false, if◌then◌else◌, ltb, ◌⊎◌, inl, inr, not, Bool-cases, sym, ◌∙◌,
}
use linux_ptp_driver_package.Prelude.Bits.{checked, checked-entry}
use linux_ptp_driver_package.Misc.Sabre.{
  rsmu_set_bitfield, rsmu_get_bitfield, Sabre, read_reg, write_reg, reg_rmw, keep_prev,
  rsmu_sabre_set_holdover_mode, set_manual_holdover_mode, set_dpll_oper_mode,
  rmw_reg_dpll_operating_mode_cnfg, rmw_reg_dpll_holdover_mode_cnfg_msb,
  reg_dpll_operating_mode_cnfg_offset, reg_dpll_holdover_mode_cnfg_msb_offset, restore_mode,
}
use linux_ptp_driver_package.Bus.{Outcome, ok, fail, >>=-ok, ◌>>◌, >>-ok}
use linux_ptp_driver_package.Bus.Regmap.{Regmap, Register}
use linux_ptp_driver_package.Bus.Errno.{einval}

field_table :
    checked 256 (λ r. checked 32 λ v.
      (rsmu_set_bitfield r 0x1f 0 v == r / 32 * 32 + v) && (rsmu_get_bitfield r 0x1f 0 == r % 32))
    ≡ true
unfolding checked rsmu_set_bitfield rsmu_get_bitfield
field_table = refl

mode_field :
    (r v : ℕ)
    → r < 256
    → v < 32
    → (rsmu_set_bitfield r 0x1f 0 v ≡ r / 32 * 32 + v) × (rsmu_get_bitfield r 0x1f 0 ≡ r % 32)
mode_field r v hr hv =
    ground (arith, checked-entry _ 32 (checked-entry _ 256 field_table r hr) v hv)

-- What an outcome leaves of a cell.
abbrev pub Stays : {Dev A : Type 0} → (Dev → ℕ) → Dev → Outcome Dev A → Type 0
Stays cell d (ok a d') = cell d' ≡ cell d
Stays cell d (fail e d') = Unit

-- The operating mode register at `a` holds what was last written to it, and no transfer of the
-- holdover register at `h` changes it. Nothing is said of a transfer that fails.
pub record HoldoverRegisters {Dev : Type 0} (regmap : Regmap Dev) (a h : ℕ) : Type 0 where
  pub mode : Register regmap a
  pub reads_apart : (d : Dev) → Stays mode.cell d (regmap.bulk_read h 1 d)
  pub writes_apart : (v : ℕ) (d : Dev) → Stays mode.cell d (regmap.bulk_write h (v ∷ []) d)

module _ {Dev : Type 0} (regmap : Regmap Dev) {a h : ℕ} (regs : HoldoverRegisters regmap a h) where
  abbrev pub mode_cell : Sabre Dev → ℕ
  mode_cell s = regs.mode.cell s.dev

  read_mode :
      (s : Sabre Dev) {v : ℕ} {s' : Sabre Dev}
      → read_reg regmap a s ≡ ok v s'
      → (v ≡ mode_cell s)
        × (mode_cell s' ≡ mode_cell s)
        × (s'.operating_mode_prev ≡ s.operating_mode_prev)
  unfolding read_reg
  read_mode s e = ground (arith, regs.mode.reads s.dev)

  write_mode :
      (v : ℕ) (s : Sabre Dev) {u : Unit {0}} {s' : Sabre Dev}
      → v < 256
      → write_reg regmap a v s ≡ ok u s'
      → (mode_cell s' ≡ v) × (s'.operating_mode_prev ≡ s.operating_mode_prev)
  unfolding write_reg
  write_mode v s small e = ground (arith, regs.mode.writes v s.dev small)

  read_holdover :
      (s : Sabre Dev) {v : ℕ} {s' : Sabre Dev}
      → read_reg regmap h s ≡ ok v s'
      → (mode_cell s' ≡ mode_cell s) × (s'.operating_mode_prev ≡ s.operating_mode_prev)
  unfolding read_reg
  read_holdover s e = ground (arith, regs.reads_apart s.dev)

  write_holdover :
      (v : ℕ) (s : Sabre Dev) {u : Unit {0}} {s' : Sabre Dev}
      → write_reg regmap h v s ≡ ok u s'
      → (mode_cell s' ≡ mode_cell s) × (s'.operating_mode_prev ≡ s.operating_mode_prev)
  unfolding write_reg
  write_holdover v s e = ground (arith, regs.writes_apart v s.dev)

  -- A change of the mode field, whose old byte is kept for `n` or not.
  mode_saved :
      (n v : ℕ) (s : Sabre Dev) {u : Unit {0}} {s' : Sabre Dev}
      → v < 32
      → reg_rmw regmap a 0x1f 0 v (some n) s ≡ ok u s'
      → (mode_cell s' ≡ mode_cell s / 32 * 32 + v) × (s'.operating_mode_prev n ≡ mode_cell s)
  unfolding reg_rmw
  mode_saved n v s small e =
      let rest = λ (r : ℕ).
        keep_prev regmap (some n) r >> write_reg regmap a (rsmu_set_bitfield r 0x1f 0 v) in
      let (r, s1, read, e1) = >>=-ok (read_reg regmap a) rest e in
      let before = read_mode s read in
      let field = mode_field r v (ground (arith, before, regs.mode.is_byte s.dev)) small in
      let s2 = record s1 {
        operating_mode_prev = λ j. if j == n then r else s1.operating_mode_prev j;
      } in
      let after =
        write_mode (rsmu_set_bitfield r 0x1f 0 v) s2
          (ground (arith, field, before, regs.mode.is_byte s.dev)) e1 in
      ground (arith, before, field, after, ap (λ (f : ℕ → ℕ). f n) after.1)

  mode_set :
      (v : ℕ) (s : Sabre Dev) {u : Unit {0}} {s' : Sabre Dev}
      → v < 32
      → reg_rmw regmap a 0x1f 0 v none s ≡ ok u s'
      → (mode_cell s' ≡ mode_cell s / 32 * 32 + v)
        × (s'.operating_mode_prev ≡ s.operating_mode_prev)
  unfolding reg_rmw
  mode_set v s small e =
      let (r, s1, read, e1) =
        >>=-ok (read_reg regmap a) (λ r. write_reg regmap a (rsmu_set_bitfield r 0x1f 0 v)) e in
      let before = read_mode s read in
      let field = mode_field r v (ground (arith, before, regs.mode.is_byte s.dev)) small in
      let after =
        write_mode (rsmu_set_bitfield r 0x1f 0 v) s1
          (ground (arith, field, before, regs.mode.is_byte s.dev)) e1 in
      ground (arith, before, field, after)

  -- The manual holdover bit is in the other register.
  manual_set :
      (m : ℕ) (s : Sabre Dev) {u : Unit {0}} {s' : Sabre Dev}
      → reg_rmw regmap h 0x80 7 m none s ≡ ok u s'
      → (mode_cell s' ≡ mode_cell s) × (s'.operating_mode_prev ≡ s.operating_mode_prev)
  unfolding reg_rmw
  manual_set m s e =
      let (r, s1, read, e1) =
        >>=-ok (read_reg regmap h) (λ r. write_reg regmap h (rsmu_set_bitfield r 0x80 7 m)) e in
      ground (arith, read_holdover s read, write_holdover _ s1 e1)

  -- The two steps of switching on, at the addresses of the DPLL.
  switched_on :
      (dpll enable m : ℕ) (s : Sabre Dev) {u : Unit {0}} {t : Sabre Dev}
      → 0 < enable
      → reg_dpll_operating_mode_cnfg_offset dpll ≡ some a
      → reg_dpll_holdover_mode_cnfg_msb_offset dpll ≡ some h
      → m ≤ 1
      → rsmu_sabre_set_holdover_mode regmap dpll enable m s ≡ ok u t
      → (mode_cell t ≡ mode_cell s / 32 * 32 + 2) × (t.operating_mode_prev dpll ≡ mode_cell s)
  unfolding rsmu_sabre_set_holdover_mode set_manual_holdover_mode set_dpll_oper_mode
      rmw_reg_dpll_operating_mode_cnfg rmw_reg_dpll_holdover_mode_cnfg_msb
  switched_on dpll enable m s on at_mode at_holdover small e =
      let guard : ltb 1 m ≡ false = ground arith in
      let enabled : not (enable == 0) ≡ true = ground arith in
      let (_, s1, manual, forced) =
        >>-ok (reg_rmw regmap h 0x80 7 m none) (reg_rmw regmap a 0x1f 0 2 (some dpll))
          (rw (guard, enabled, at_holdover, at_mode) at e) in
      ground (arith, manual_set m s manual, mode_saved dpll 2 s1 (omega arith) forced)

  -- Going back to a mode that was in force: one of the three that can be gone back to.
  restored :
      (dpll before : ℕ) (t : Sabre Dev) {u : Unit {0}} {w : Sabre Dev}
      → reg_dpll_operating_mode_cnfg_offset dpll ≡ some a
      → reg_dpll_holdover_mode_cnfg_msb_offset dpll ≡ some h
      → restore_mode regmap dpll before t ≡ ok u w
      → ((before ≡ 10) ⊎ ((before ≡ 18) ⊎ (before ≡ 0)))
        × (mode_cell w ≡ mode_cell t / 32 * 32 + before)
  unfolding restore_mode set_manual_holdover_mode set_dpll_oper_mode
      rmw_reg_dpll_operating_mode_cnfg rmw_reg_dpll_holdover_mode_cnfg_msb
  restored dpll before t at_mode at_holdover e = elim (Bool-cases (before == 10)) [
    | inl dco ↦
        let (_, s1, mode, manual) =
          >>-ok (reg_rmw regmap a 0x1f 0 10 none) (reg_rmw regmap h 0x80 7 1 none)
            (rw (dco, at_mode, at_holdover) at e) in
        (
          inl (ground (arith, dco)),
          ground (arith, dco, mode_set 10 t (omega arith) mode, manual_set 1 s1 manual),
        )
    | inr other ↦ elim (Bool-cases (before == 18)) [
      | inl wph ↦ (
        inr (inl (ground (arith, wph))),
        ground (arith, wph, mode_set 18 t (omega arith) (rw (other, wph, at_mode) at e)),
      )
      | inr rest ↦ elim (Bool-cases (before == 0)) [
        | inl auto ↦ (
          inr (inr (ground (arith, auto))),
          ground (arith, auto, mode_set 0 t (omega arith) (rw (other, rest, auto, at_mode) at e)),
        )
        | inr none_of ↦ absurd (ground (arith, rw (other, rest, none_of) at e))
      ]
    ]
  ]

  -- Switching off goes back to the mode in the byte that was kept.
  off_lem :
      (dpll m before : ℕ) (t : Sabre Dev)
      → m ≤ 1
      → t.operating_mode_prev dpll ≡ before
      → rsmu_get_bitfield before 0x1f 0 ≡ before % 32
      → rsmu_sabre_set_holdover_mode regmap dpll 0 m t ≡ restore_mode regmap dpll (before % 32) t
  unfolding rsmu_sabre_set_holdover_mode
  off_lem dpll m before t small kept field =
      let guard : ltb 1 m ≡ false = ground arith in rw (guard, kept, field) refl

  -- Holdover of one of the two DPLLs that is switched on, in either holdover mode, and off again with
  -- nothing in between: in between the DPLL is forced into holdover, with the other bits of its register
  -- as they were; if switching off succeeds, the mode before was DCO (10), write phase (18) or automatic
  -- (0), and the register is what it was before, in all of its bits.
  pub rsmu_sabre_set_holdover_mode_lem :
      (dpll enable m m' : ℕ) (s : Sabre Dev) {u v : Unit {0}} {t w : Sabre Dev}
      → 0 < enable
      → reg_dpll_operating_mode_cnfg_offset dpll ≡ some a
      → reg_dpll_holdover_mode_cnfg_msb_offset dpll ≡ some h
      → m ≤ 1
      → m' ≤ 1
      → rsmu_sabre_set_holdover_mode regmap dpll enable m s ≡ ok u t
      → rsmu_sabre_set_holdover_mode regmap dpll 0 m' t ≡ ok v w
      → (mode_cell t ≡ mode_cell s / 32 * 32 + 2)
        × ((mode_cell s % 32 ≡ 10) ⊎ ((mode_cell s % 32 ≡ 18) ⊎ (mode_cell s % 32 ≡ 0)))
        × (mode_cell w ≡ mode_cell s)
  rsmu_sabre_set_holdover_mode_lem dpll enable m m' s {t = t} {w = w} on at_mode at_holdover small
        small' first second =
      let (held, kept) = switched_on dpll enable m s on at_mode at_holdover small first in
      let (_, field) = mode_field (mode_cell s) 0 (regs.mode.is_byte s.dev) (omega arith) in
      let (which, back) =
        restored dpll (mode_cell s % 32) t at_mode at_holdover
          (sym (off_lem dpll m' (mode_cell s) t small' kept field) ∙ second) in
      (held, which, omega (arith, held, back))

  -- Where holdover is switched on a second time, the mode before the first time is lost: switching off
  -- is then refused as an invalid argument, with nothing done, and the DPLL stays in holdover.
  pub rsmu_sabre_set_holdover_mode-twice :
      (dpll enable enable' m m' m'' : ℕ) (s : Sabre Dev) {u v : Unit {0}} {t w : Sabre Dev}
      → 0 < enable
      → 0 < enable'
      → reg_dpll_operating_mode_cnfg_offset dpll ≡ some a
      → reg_dpll_holdover_mode_cnfg_msb_offset dpll ≡ some h
      → m ≤ 1
      → m' ≤ 1
      → m'' ≤ 1
      → rsmu_sabre_set_holdover_mode regmap dpll enable m s ≡ ok u t
      → rsmu_sabre_set_holdover_mode regmap dpll enable' m' t ≡ ok v w
      → (rsmu_sabre_set_holdover_mode regmap dpll 0 m'' w ≡ fail einval w) × (mode_cell w % 32 ≡ 2)
  unfolding restore_mode
  rsmu_sabre_set_holdover_mode-twice dpll enable enable' m m' m'' s {t = t} {w = w} on on' at_mode
        at_holdover small small' small'' first second =
      let (held, _) = switched_on dpll enable m s on at_mode at_holdover small first in
      let (again, kept) = switched_on dpll enable' m' t on' at_mode at_holdover small' second in
      let (_, field) = mode_field (mode_cell t) 0 (regs.mode.is_byte t.dev) (omega arith) in
      let forced : mode_cell t % 32 ≡ 2 = omega (arith, held) in
      (
        off_lem dpll m'' (mode_cell t) w small'' kept field ∙ rw forced refl,
        omega (arith, again, forced),
      )
