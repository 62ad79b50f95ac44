-- ===== src/Misc/Cm/PriorityCells.antt =====
-- The priority registers of a DPLL as cells, and what the loops over them leave there.
use linux_ptp_driver_package.Prelude.{
  ℕ, ◌+◌, ◌≤◌, ◌<◌, zero, suc, ◌≡◌, refl, ◌≢◌, Option, some, List, [], ◌∷◌, arith, sym, ap, ◌∙◌,
  inl, inr, length, get_or, Bool-cases, ◌-◌, ltb,
}
use linux_ptp_driver_package.Bus.{Outcome, ok, fail}
use linux_ptp_driver_package.Bus.Regmap.{Regmap}
use linux_ptp_driver_package.Misc.Cm.{
  PriorityEntry, max_ref_priorities, group_of, dpll_ref_priority_0, priority_byte,
  max_electrical_references,
}

-- What an outcome leaves of the cells: the new byte in one of them and the others as they were, or
-- all of them as they were.
abbrev pub Sets : {Dev : Type 0} → (ℕ → Dev → ℕ) → ℕ → ℕ → Dev → Outcome Dev (Unit {0}) → Type 0
Sets cell i v d (ok u d') = (cell i d' ≡ v) × ((j : ℕ) → j ≢ i → cell j d' ≡ cell j d)
Sets cell i v d (fail e d') = Unit

abbrev pub Keeps : {Dev A : Type 0} → (ℕ → Dev → ℕ) → Dev → Outcome Dev A → Type 0
Keeps cell d (ok a d') = (j : ℕ) → cell j d' ≡ cell j d
Keeps cell d (fail e d') = Unit

-- The nineteen one-byte priority registers of a DPLL at `base` are cells of their own, apart from
-- each other and from its mode register. Nothing is said of a transfer that fails.
pub record PriorityRegisters {Dev : Type 0} (regmap : Regmap Dev) (base mode : ℕ) : Type 0 where
  pub cell : ℕ → Dev → ℕ
  pub writes :
      (i v : ℕ) (d : Dev)
      → i < max_ref_priorities
      → v < 256
      → Sets cell i v d (regmap.bulk_write (base + dpll_ref_priority_0 + i) (v ∷ []) d)
  pub mode_reads : (d : Dev) → Keeps cell d (regmap.bulk_read mode 1 d)
  pub mode_writes : (v : ℕ) (d : Dev) → Keeps cell d (regmap.bulk_write mode (v ∷ []) d)

-- The bytes that a list of entries asks for, with the priority and the group of the entry before.
unfoldable pub bytes_from : Option ℕ → ℕ → List PriorityEntry → List ℕ
bytes_from prev_priority prev_group [] = []
bytes_from prev_priority prev_group (e ∷ es) =
    let found = group_of prev_priority prev_group e.priority es in
    priority_byte e.clock_index found.0 ∷ bytes_from (some e.priority) found.1 es

abbrev pub zeros : ℕ → List ℕ
zeros zero = []
zeros (suc n) = 0 ∷ zeros n

pub length-zeros : (n : ℕ) → length (zeros n) ≡ n
length-zeros zero = refl
length-zeros (suc n) = ap suc (length-zeros n)

get_or-zeros : (n j : ℕ) → get_or (zeros n) j 0 ≡ 0
get_or-zeros zero j = refl
get_or-zeros (suc n) zero = refl
get_or-zeros (suc n) (suc j) = get_or-zeros n j

pub length-bytes_from :
    (prev : Option ℕ) (g : ℕ) (es : List PriorityEntry) → length (bytes_from prev g es) ≡ length es
unfolding bytes_from
length-bytes_from prev g [] = refl
length-bytes_from prev g (e ∷ es) =
    ap suc (length-bytes_from (some e.priority) (group_of prev g e.priority es).1 es)

pub add_suc : (i j : ℕ) → i + suc j ≡ i + 1 + j
add_suc i j = omega arith

split_at : (j n : ℕ) → n ≤ j → j ≡ n + (j - n)
split_at j n h = omega arith

pub from_zero : (j : ℕ) → j ≡ 0 + j
from_zero j = omega arith

get_or-past : (bs : List ℕ) (j : ℕ) → length bs ≤ j → get_or bs j 0 ≡ 0
get_or-past [] j h = refl
get_or-past (b ∷ bs) zero h = absurd (omega arith)
get_or-past (b ∷ bs) (suc j) h = get_or-past bs j (omega arith)

-- Every entry is of an electrical reference, at one of the nineteen priorities.
abbrev pub AreValid : List PriorityEntry → Type 0
AreValid [] = Unit
AreValid (e ∷ es) =
    (e.clock_index < max_electrical_references) × (e.priority < max_ref_priorities) × AreValid es

module _ {Dev : Type 0} (cell : ℕ → Dev → ℕ) where
  -- From `d` to `d'` the cells below `index` stayed, and the next ones became the bytes.
  abbrev pub Placed : ℕ → List ℕ → Dev → Dev → Type 0
  Placed index bs d d' =
      ((j : ℕ) → j < index → cell j d' ≡ cell j d)
      × ((j : ℕ) → j < length bs → cell (index + j) d' ≡ get_or bs j 0)

  pub place_one :
      (index v : ℕ) (bs : List ℕ) (d t d' : Dev)
      → cell index t ≡ v
      → ((j : ℕ) → j ≢ index → cell j t ≡ cell j d)
      → Placed (index + 1) bs t d'
      → Placed index (v ∷ bs) d d'
  place_one index v bs d t d' here others (before, after) =
      (λ j small. before j (omega arith) ∙ others j (λ e. absurd (omega arith)), λ j. placed j)
    where
      placed : (j : ℕ) → j < suc (length bs) → cell (index + j) d' ≡ get_or (v ∷ bs) j 0
      placed zero h = ap (λ k. cell k d') (omega arith) ∙ before index (omega arith) ∙ here
      placed (suc j) h = ap (λ k. cell k d') (add_suc index j) ∙ after j (omega arith)

  -- The cells after both loops.
  pub place_rest :
      (bs : List ℕ) (n total : ℕ) (d t d' : Dev)
      → length bs ≡ n
      → Placed 0 bs d t
      → Placed n (zeros (total - n)) t d'
      → (j : ℕ) → j < total
      → cell j d' ≡ get_or bs j 0
  place_rest bs n total d t d' count (_, placed) (kept, zeroed) j h = elim (Bool-cases (ltb j n)) [
    | inl given ↦
        kept j (ground (arith, given))
        ∙ ap (λ k. cell k t) (from_zero j)
        ∙ placed j (ground (arith, given, count))
    | inr past ↦
        ap (λ k. cell k d') (split_at j n (ground (arith, past)))
        ∙ zeroed (j - n) (ground (arith, past, length-zeros (total - n)))
        ∙ get_or-zeros (total - n) (j - n)
        ∙ sym (get_or-past bs j (ground (arith, past, count)))
  ]
