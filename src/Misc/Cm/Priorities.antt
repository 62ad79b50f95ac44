-- ===== src/Misc/Cm/Priorities.antt =====
-- The priority registers of a DPLL: what their bytes mean, and which entries share a group.
use linux_ptp_driver_package.Misc.Cm.{
  group_of, priority_byte, PriorityEntry, max_priority_group, max_electrical_references,
}
use linux_ptp_driver_package.Prelude.{
  ◌/◌, ◌%◌, ◌^◌, ◌≤◌, ◌<◌, ℕ, ◌≡◌, refl, true, ◌&&◌, Option, some, List, ◌∷◌, arith, ◌==◌, sym,
  subst, none, [],
}
use linux_ptp_driver_package.Prelude.Bits.{checked, checked-entry}

byte_table :
    checked 16 (λ r. checked 4 λ g.
      (priority_byte r g % 2 == 1)
      && ((priority_byte r g / 2 % 16 == r) && (priority_byte r g / 2 ^ 6 == g)))
    ≡ true
unfolding checked
byte_table = refl

-- The byte of an entry is enabled, and its reference and group are read back from it.
byte_fields :
    (r g : ℕ)
    → r < 16
    → g ≤ 3
    → (priority_byte r g % 2 ≡ 1)
      × (priority_byte r g / 2 % 16 ≡ r)
      × (priority_byte r g / 2 ^ 6 ≡ g)
byte_fields r g hr hg =
    ground (arith, checked-entry _ 4 (checked-entry _ 16 byte_table r hr) g (omega arith))

group_small :
    (prev : Option ℕ) (g priority : ℕ) (rest : List PriorityEntry)
    → g ≤ 3
    → ((group_of prev g priority rest).0 ≤ 3) × ((group_of prev g priority rest).1 ≤ 3)
unfolding group_of
group_small none g priority [] h = ground arith
group_small none g priority (next ∷ rest) h = ground arith
group_small (some p) g priority [] h = ground arith
group_small (some p) g priority (next ∷ rest) h = ground arith

tied :
    (prev : Option ℕ) (g : ℕ) (e next : PriorityEntry) (others : List PriorityEntry)
    → next.priority ≡ e.priority
    → g < 3
    → (group_of
        (some e.priority)
        (group_of prev g e.priority (next ∷ others)).1
        next.priority
        others).0
      ≡ (group_of prev g e.priority (next ∷ others)).0
unfolding group_of
tied none g e next others same room = ground arith
tied (some p) g e next others same room = ground arith

-- With group numbers carried on that are at most 3: the group of an entry and the number that is
-- carried on are at most 3 again, the byte of the entry gives back its reference and group, and if
-- fewer than three groups were opened before, an entry is in the group of the next one if they have
-- the same priority.
pub group_of_lem :
    (prev : Option ℕ) (g : ℕ) (e : PriorityEntry) (rest : List PriorityEntry)
    → g ≤ max_priority_group
    → e.clock_index < max_electrical_references
    → let found = group_of prev g e.priority rest in
      let byte = priority_byte e.clock_index found.0 in
      (found.0 ≤ max_priority_group)
      × (found.1 ≤ max_priority_group)
      × (byte % 2 ≡ 1)
      × (byte / 2 % 16 ≡ e.clock_index)
      × (byte / 2 ^ 6 ≡ found.0)
      × ((next : PriorityEntry) (others : List PriorityEntry)
          → rest ≡ next ∷ others
          → next.priority ≡ e.priority
          → g < max_priority_group
          → (group_of (some e.priority) found.1 next.priority others).0 ≡ found.0)
unfolding group_of
group_of_lem prev g e rest hg hr =
    let small = group_small prev g e.priority rest hg in
    let (enabled, reference, group) =
      byte_fields e.clock_index (group_of prev g e.priority rest).0 hr small.0 in
    (
      small.0,
      small.1,
      enabled,
      reference,
      group,
      λ next others split same room.
          subst
            (λ (es : List PriorityEntry).
              (group_of (some e.priority) (group_of prev g e.priority es).1 next.priority others).0
              ≡ (group_of prev g e.priority es).0)
            (sym split) (tied prev g e next others same room),
    )
