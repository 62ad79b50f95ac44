-- ===== src/Misc/Fc3/References/Asked.antt =====
-- The priorities of a FemtoClock3 DPLL are those that the caller asked for.
use linux_ptp_driver_package.Prelude.{
  ℕ, ◌+◌, ◌*◌, ◌/◌, ◌%◌, ◌≡◌, refl, Bool, true, false, Option, none, some, if◌then◌else◌, ltb, ◌≤◌,
  ◌<◌, List, [], ◌∷◌, arith, ◌||◌, leb, length, subst,
}
use linux_ptp_driver_package.Misc.Fc3.References.{
  with_priority, find_ref, clock_index_to_ref_index, read_ref_sel, ref_sel_cnfg, ref_sel_cnfg_vfc3a,
  dpll_refx_priority_disable_mask, or_einval, priority_word, max_num_ref_priority,
  max_input_clock_index, rsmu_fc3_set_clock_priorities, dpll_ref_priority_cnfg, max_dpll_index,
}
use linux_ptp_driver_package.Misc.Cm.{PriorityEntry}
use linux_ptp_driver_package.Bus.{Outcome, ok, fail, ◌>>=◌, >>=-ok, throw, M}
use linux_ptp_driver_package.Bus.Regmap.{Regmap, Block, Leaves}
use linux_ptp_driver_package.Misc.Fc3.{DevId, fc3_reg, read_bytes, Fc3, on_fc3}
use linux_ptp_driver_package.Clockmatrix.Setup.{le_number}
use linux_ptp_driver_package.Prelude.Int.{low_bits}
use linux_ptp_driver_package.Bus.Errno.{einval}
use linux_ptp_driver_package.Misc.Fc3.References.Word.{
  priority_of, above_is_none, asked_priority, changed_word, disabled, selects_first,
  find_ref-selects_first,
}

-- What a read of the multiplexers' register gives where it goes through, which is asked for here: the
-- driver takes the code of a read that fails for a reference.
abbrev pub GivesSel : {Dev : Type 0} → (Dev → ℕ) → Dev → Outcome Dev (List ℕ) → Type 0
GivesSel value d (ok bs d') = (le_number bs ≡ value d) × (value d' ≡ value d)
GivesSel value d (fail e d') = ⊥

-- The four bytes at `a` select the inputs of the references; reading does not change them.
pub record RefSel {Dev : Type 0} (regmap : Regmap Dev) (a : ℕ) : Type 0 where
  pub value : Dev → ℕ
  pub reads : (d : Dev) → GivesSel value d (regmap.bulk_read a 4 d)

module _ {Dev : Type 0} (regmap : Regmap Dev) where
  abbrev pub RefSelOf : DevId → Type 0
  RefSelOf devid = RefSel regmap (fc3_reg devid ref_sel_cnfg ref_sel_cnfg_vfc3a)

  found :
      (devid : DevId) (clock_index : ℕ) (sel : RefSelOf devid) (s : Fc3 Dev) {r : ℕ} {t : Fc3 Dev}
      → s.devid ≡ devid
      → clock_index_to_ref_index regmap clock_index s ≡ ok r t
      → (t.devid ≡ devid)
        × (sel.value t.dev ≡ sel.value s.dev)
        × (r ≡ find_ref (sel.value s.dev) clock_index)
  unfolding clock_index_to_ref_index read_ref_sel read_bytes
  found devid clock_index sel s {r} {t} same e =
      go (regmap.bulk_read (fc3_reg s.devid ref_sel_cnfg ref_sel_cnfg_vfc3a) 4 s.dev) reads e
    where
      reads :
          GivesSel sel.value s.dev
            (regmap.bulk_read (fc3_reg s.devid ref_sel_cnfg ref_sel_cnfg_vfc3a) 4 s.dev)
      reads = rw same (sel.reads s.dev)

      go :
          (o : Outcome Dev (List ℕ))
          → GivesSel sel.value s.dev o
          → (elim (elim (on_fc3 regmap (λ d. o) s) as (λ x. Outcome (Fc3 Dev) ℕ) [
            | ok buf t' ↦ ok (le_number buf) t'
            | fail c t' ↦ fail c t'
          ])
              as (λ x. Outcome (Fc3 Dev) ℕ) [
                | ok v t' ↦ ok (find_ref v clock_index) t'
                | fail c t' ↦ ok (low_bits 8 c) t'
              ])
            ≡ ok r t
          → (t.devid ≡ devid)
            × (sel.value t.dev ≡ sel.value s.dev)
            × (r ≡ find_ref (sel.value s.dev) clock_index)
      go (ok bs d) (value, stays) e =
          (ground (arith, e, same), ground (arith, e, stays), ground (arith, e, value))
      go (fail c d) bad e = absurd bad

  or_einval-ok :
      (o : Option ℕ) (s : Fc3 Dev) {w : ℕ} {t : Fc3 Dev}
      → or_einval regmap o s ≡ ok w t
      → (o ≡ some w) × (s ≡ t)
  or_einval-ok none s e = cc
  or_einval-ok (some v) s e = (cc, cc)

  entry_ok :
      (devid : DevId) (sel : RefSelOf devid) (reg : ℕ) (e : PriorityEntry) (s : Fc3 Dev) {r w : ℕ}
      {s1 t : Fc3 Dev}
      → s.devid ≡ devid
      → reg < 4096
      → e.priority < 4
      → clock_index_to_ref_index regmap e.clock_index s ≡ ok r s1
      → or_einval regmap (with_priority reg r e.priority) s1 ≡ ok w t
      → (t.devid ≡ devid)
        × (sel.value t.dev ≡ sel.value s.dev)
        × (w < 4096)
        × ((k : ℕ)
            → k < 4
            → priority_of w k ≡ (
                if selects_first (sel.value s.dev) e.clock_index k
                then some e.priority
                else priority_of reg k))
  entry_ok devid sel reg e s {r} {w} {s1} {t} same bound small found_r set =
      let (same1, stays, r_is) = found devid e.clock_index sel s same found_r in
      let (is_some, same_state) = or_einval-ok (with_priority reg r e.priority) s1 set in
      let r_small = above_is_none reg r e.priority is_some in
      let word =
        λ (k : ℕ) (hk : k < 4). changed_word reg r e.priority k bound r_small small hk is_some in
      (
        rw (← same_state) same1,
        rw (← same_state) stays,
        (word 0 (omega arith)).0,
        λ k hk.
            rw (← find_ref-selects_first (sel.value s.dev) e.clock_index k hk, ← r_is)
              (word k hk).1,
      )

  AsksFor : (devid : DevId) → RefSelOf devid → ℕ → ℕ → List PriorityEntry → Fc3 Dev → Type 0
  AsksFor devid sel w reg es s =
      (w < 4096)
      × ((k : ℕ)
          → k < 4
          → priority_of w k ≡ asked_priority (sel.value s.dev) (priority_of reg k) es k)

  priority_word-ok :
      (devid : DevId) (sel : RefSelOf devid) (reg : ℕ) (es : List PriorityEntry) (s : Fc3 Dev)
      {w : ℕ} {t : Fc3 Dev}
      → s.devid ≡ devid
      → reg < 4096
      → priority_word regmap reg es s ≡ ok w t
      → AsksFor devid sel w reg es s
  unfolding priority_word AsksFor
  priority_word-ok devid sel reg [] s same bound run =
      (ground (arith, run, bound), λ k hk. ground (arith, run))
  priority_word-ok devid sel reg (e ∷ es) s {w} {t} same bound run =
      go (ltb max_input_clock_index e.clock_index) (leb max_num_ref_priority e.priority) refl
        (λ reg' s2 same2 small rest. priority_word-ok devid sel reg' es s2 same2 small rest) run
    where
      go :
          (far large : Bool)
          → leb max_num_ref_priority e.priority ≡ large
          → ((reg' : ℕ) (s2 : Fc3 Dev)
              → s2.devid ≡ devid
              → reg' < 4096
              → priority_word regmap reg' es s2 ≡ ok w t
              → AsksFor devid sel w reg' es s2)
          → (if far || large
                then throw einval
                else (clock_index_to_ref_index regmap e.clock_index >>= λ r.
                    (or_einval regmap (with_priority reg r e.priority) >>= λ reg'.
                    priority_word regmap reg' es)))
              s
            ≡ ok w t
          → AsksFor devid sel w reg (e ∷ es) s
      go true large h next run = cc
      go false true h next run = cc
      go false false h next run =
          let (r, s1, found_r, more) =
            >>=-ok (clock_index_to_ref_index regmap e.clock_index)
              (λ r.
                (or_einval regmap (with_priority reg r e.priority) >>= λ reg'.
                priority_word regmap reg' es))
              run in
          let (reg', s2, set, rest) =
            >>=-ok (or_einval regmap (with_priority reg r e.priority))
              (λ reg'. priority_word regmap reg' es) more in
          let (same2, stays, small, entry) =
            entry_ok devid sel reg e s same bound (ground (arith, h)) found_r set in
          let (fits, all) = next reg' s2 same2 small rest in
          (fits, λ k hk. rw (stays, entry k hk) at (all k hk))

  -- What a write of two bytes that succeeds leaves there.
  wrote_word :
      (a w : ℕ) (word : Block regmap a 2) (s : Fc3 Dev) {u : Unit {0}} {t : Fc3 Dev}
      → w < 4096
      → on_fc3 regmap (regmap.bulk_write a (w % 256 ∷ w / 256 % 256 ∷ [])) s ≡ ok u t
      → word.bytes t.dev ≡ w % 256 ∷ w / 256 ∷ []
  wrote_word a w word s {u} {t} small run =
      go _ (word.fills (w % 256 ∷ w / 256 % 256 ∷ []) s.dev refl (omega arith, (omega arith, tt)))
        run
    where
      go :
          (o : Outcome Dev (Unit {0}))
          → Leaves word.bytes (w % 256 ∷ w / 256 % 256 ∷ []) o
          → on_fc3 regmap (λ d. o) s ≡ ok u t
          → word.bytes t.dev ≡ w % 256 ∷ w / 256 ∷ []
      go (ok v d) left e =
          let high : w / 256 % 256 ≡ w / 256 = omega (arith, small) in ground (arith, e, left, high)
      go (fail c d) left e = cc

  -- Where reads of the multiplexers' register go through and setting the priorities succeeds, the DPLL
  -- exists and the entries are no more than four. The two bytes at its address are those of a word in
  -- which a reference that is the first to select the input of an entry has the priority of the last
  -- such entry, and every other reference is disabled, also one that selects the input of an entry
  -- after another reference.
  pub rsmu_fc3_set_clock_priorities_lem :
      (devid : DevId) (dpll : ℕ) (entries : List PriorityEntry) (sel : RefSelOf devid)
      (word : Block regmap
        (fc3_reg devid (dpll_ref_priority_cnfg + dpll * 0x100) dpll_ref_priority_cnfg)
        2)
      (s : Fc3 Dev) {u : Unit {0}} {t : Fc3 Dev}
      → s.devid ≡ devid
      → rsmu_fc3_set_clock_priorities regmap dpll entries s ≡ ok u t
      → (dpll ≤ max_dpll_index devid)
        × (length entries ≤ max_num_ref_priority)
        × (w : ℕ) × (word.bytes t.dev ≡ w % 256 ∷ w / 256 ∷ [])
        × ((k : ℕ) → k < 4 → priority_of w k ≡ asked_priority (sel.value s.dev) none entries k)
  unfolding rsmu_fc3_set_clock_priorities AsksFor
  rsmu_fc3_set_clock_priorities_lem devid dpll entries sel word s {u} {t} same run =
      go (ltb (max_dpll_index s.devid) dpll) (ltb max_num_ref_priority (length entries)) refl refl
        run
    where
      addr : DevId → ℕ
      addr id = fc3_reg id (dpll_ref_priority_cnfg + dpll * 0x100) dpll_ref_priority_cnfg

      write : ℕ → M (Fc3 Dev) (Unit {0})
      write reg =
          on_fc3 regmap (regmap.bulk_write (addr s.devid) (reg % 256 ∷ reg / 256 % 256 ∷ []))

      go :
          (far long : Bool)
          → ltb (max_dpll_index s.devid) dpll ≡ far
          → ltb max_num_ref_priority (length entries) ≡ long
          → (if far || long
                then throw einval
                else (priority_word regmap dpll_refx_priority_disable_mask entries >>= write))
              s
            ≡ ok u t
          → (dpll ≤ max_dpll_index devid)
            × (length entries ≤ max_num_ref_priority)
            × (w : ℕ) × (word.bytes t.dev ≡ w % 256 ∷ w / 256 ∷ [])
            × ((k : ℕ) → k < 4 → priority_of w k ≡ asked_priority (sel.value s.dev) none entries k)
      go true long f l run = cc
      go false true f l run = cc
      go false false f l run =
          let (w, s1, found_w, wrote) =
            >>=-ok (priority_word regmap dpll_refx_priority_disable_mask entries) write run in
          let (fits, all) =
            priority_word-ok devid sel dpll_refx_priority_disable_mask entries s same (omega arith)
              found_w in
          (
            rw (← same) (ground (arith, f)),
            ground (arith, l),
            w,
            wrote_word (addr devid) w word s1 fits (
                subst
                  (λ id.
                    on_fc3 regmap (regmap.bulk_write (addr id) (w % 256 ∷ w / 256 % 256 ∷ [])) s1
                    ≡ ok u t)
                  same wrote),
            λ k hk.
                subst (λ o. priority_of w k ≡ asked_priority (sel.value s.dev) o entries k)
                  (disabled k hk) (all k hk),
          )
