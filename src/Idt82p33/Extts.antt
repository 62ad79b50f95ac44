-- ===== src/Idt82p33/Extts.antt =====
-- drivers/ptp/ptp_idt82p33.c: external time stamps, polled by delayed work.
use linux_ptp_driver_package.Prelude.{
  ℕ, ◌+◌, ◌-◌, ◌/◌, ◌%◌, ◌^◌, bit_and, bit_or, Bool, true, false, ◌&&◌, ◌||◌, not, none, some, List,
  [], ◌∷◌, ◌==◌, if◌then◌else◌, leb,
}
use linux_ptp_driver_package.Bus.Regmap.{Regmap}
use linux_ptp_driver_package.Clockmatrix.Kernel.{Kernel}
use linux_ptp_driver_package.Bus.{M, ◌>>=◌, get, fail, ok, throw, pure, ignore, ◌>>◌, put}
use linux_ptp_driver_package.Idt82p33.State.{
  Idt82p33, set_channel, idt82p33_read, request, tod_byte_count, extts_event, modify_channel,
  cancel_extts, schedule_extts, max_phc_pll,
}
use linux_ptp_driver_package.Prelude.Int.{ℤ, negsuc, pos}
use linux_ptp_driver_package.Clockmatrix.Extts.{
  ExttsRequest, ptp_extts_flags, ptp_enable_feature, ptp_falling_edge,
}
use linux_ptp_driver_package.Clockmatrix.Time.{Timespec}
use linux_ptp_driver_package.Bus.Errno.{ebusy, eopnotsupp, eagain, einval}
use linux_ptp_driver_package.Idt82p33.Mode.{map_ref_to_tod_trig_sel, set_tod_trigger}
use linux_ptp_driver_package.Idt82p33.Time.{byte_array_to_timespec}

abbrev pub extts_period_ms : ℕ
extts_period_ms = 95

-- `memcmp(a, b, n) == 0` of two arrays of one length.
unfoldable pub same_bytes : List ℕ → List ℕ → Bool
same_bytes [] [] = true
same_bytes [] (b ∷ bs) = false
same_bytes (a ∷ as') [] = false
same_bytes (a ∷ as') (b ∷ bs) = (a == b) && same_bytes as' bs

-- A mask of a single PLL is continuous.
unfoldable pub is_one_shot : ℕ → Bool
is_one_shot mask = not ((mask == 1) || (mask == 2))

module _ {Dev : Type 0} (regmap : Regmap Dev) (kernel : Kernel Dev) where
  -- The time that an external trigger latched, if it is a new one that is not to be discarded.
  unfoldable pub get_extts : ℕ → M (Idt82p33 Dev) Timespec
  get_extts i = do
    before ← get
    buf ← idt82p33_read regmap (before.channel i).dpll_tod_sts tod_byte_count
    s ← get
    if same_bytes buf (s.channel i).extts_tod_sts then throw eagain else (do
      modify_channel i (λ c. record c { extts_tod_sts = buf })
      if (s.channel i).discard_next_extts
          then (do modify_channel i (λ c. record c { discard_next_extts = false }); throw eagain)
          else pure (byte_array_to_timespec buf))

  unfoldable pub arm_tod_read_with_trigger : ℕ → ℕ → M (Idt82p33 Dev) (Unit {0})
  arm_tod_read_with_trigger i trigger = do
    before ← get
    buf ← idt82p33_read regmap (before.channel i).dpll_tod_sts tod_byte_count
    modify_channel i (λ c. record c { extts_tod_sts = buf })
    set_tod_trigger regmap i trigger false

  -- What is remembered once the trigger of `index` is armed for channel `i`.
  abbrev pub note_armed : ℕ → ℕ → ℕ → Idt82p33 Dev → Idt82p33 Dev
  note_armed i index trigger s =
      let mask = bit_or s.extts_mask (2 ^ index) in
      set_channel
        (record s {
          extts_mask = mask;
          event_channel = λ j. if j == index then i else s.event_channel j;
          extts_single_shot = is_one_shot mask;
        })
        index (record (s.channel index) { tod_trigger = trigger })

  abbrev pub note_disarmed : ℕ → Idt82p33 Dev → Idt82p33 Dev
  note_disarmed index s =
      let mask = bit_and s.extts_mask (0xFF - 2 ^ index) in
      record s { extts_mask = mask; extts_single_shot = is_one_shot mask }

  -- What follows the search for the pin: `ref` is negative where there is none.
  unfoldable pub enable_with_pin : ℕ → ℕ → ℤ → M (Idt82p33 Dev) (Unit {0})
  enable_with_pin i index (negsuc n) s = fail ebusy s
  enable_with_pin i index (pos ref) s = elim (map_ref_to_tod_trig_sel ref) [
    | none ↦ fail einval s
    | some trigger ↦
        (do
          arm_tod_read_with_trigger index trigger
          t ← get
          put (note_armed i index trigger t)
          if s.extts_mask == 0 then request (schedule_extts extts_period_ms) else pure tt)
          s
  ]

  -- `channel` is number `i`. `1 << index` is taken of an index that the guard keeps below 2.
  unfoldable pub idt82p33_extts_enable : ℕ → ExttsRequest → Bool → M (Idt82p33 Dev) (Unit {0})
  idt82p33_extts_enable i rq on =
      let index = rq.index % 256 in
      if not (rq.flags / (ptp_extts_flags + 1) == 0)
      then throw eopnotsupp
      else if not (bit_and rq.flags ptp_enable_feature == 0)
          && not (bit_and rq.flags ptp_falling_edge == 0)
      then throw eopnotsupp
      else if leb max_phc_pll index
      then throw einval
      else if on
      then (do
        before ← get
        if bit_and before.extts_mask (2 ^ index) == 0
            then enable_with_pin i index (kernel.find_pin i (before.channel i).plln)
            else pure tt)
      else (do
        s ← get
        put (note_disarmed index s)
        after ← get
        if after.extts_mask == 0 then request cancel_extts else pure tt)

  unfoldable pub idt82p33_extts_check_channel : ℕ → M (Idt82p33 Dev) (Unit {0})
  idt82p33_extts_check_channel todn = do
    ts ← get_extts todn
    s ← get
    request (extts_event (s.event_channel todn) todn (kernel.timespec64_to_ns ts))

  -- A round of the loop of `idt82p33_extts_enable_mask`, with the mask that it returns in the end.
  unfoldable pub mask_round : ℕ → Bool → ℕ → ℕ → M (Idt82p33 Dev) ℕ
  mask_round trigger enable j mask s =
      if bit_and mask (2 ^ j) == 0
      then ok mask s
      else if enable
      then elim (arm_tod_read_with_trigger j trigger s) [
        | ok u t ↦ ok mask t
        | fail e t ↦ ok mask t
      ]
      else elim (idt82p33_extts_check_channel j s) [
        | ok u t ↦ ok (if t.extts_single_shot then bit_and mask (0xFF - 2 ^ j) else mask) t
        | fail e t ↦ ok mask t
      ]

  -- Polling is stopped, and what came in is reported; or everything is armed again with the trigger
  -- of channel `i`. The loop over the two PLLs is written out.
  unfoldable pub idt82p33_extts_enable_mask : ℕ → ℕ → Bool → M (Idt82p33 Dev) ℕ
  idt82p33_extts_enable_mask i extts_mask enable = do
    before ← get
    let trigger = (before.channel i).tod_trigger
    if extts_mask == 0 then pure 0 else (do
      if enable then pure tt else request cancel_extts
      first ← mask_round trigger enable 0 extts_mask
      second ← mask_round trigger enable 1 first
      if enable then request (schedule_extts extts_period_ms) else pure tt
      pure second)

  -- The rest of a round of the work, once the check of `todn` is done.
  unfoldable pub after_event : ℕ → M (Idt82p33 Dev) (Unit {0})
  after_event todn s =
      if s.extts_single_shot
      then ok tt (record s { extts_mask = bit_and s.extts_mask (0xFF - 2 ^ todn) })
      else ignore (arm_tod_read_with_trigger todn (s.channel todn).tod_trigger) s

  unfoldable pub check_one : ℕ → M (Idt82p33 Dev) (Unit {0})
  check_one todn s =
      if bit_and s.extts_mask (2 ^ todn) == 0
      then ok tt s
      else elim (idt82p33_extts_check_channel todn s) [
        | ok u t ↦ after_event todn t
        | fail e t ↦ ok tt t
      ]

  -- The delayed work.
  unfoldable pub idt82p33_extts_check : M (Idt82p33 Dev) (Unit {0})
  idt82p33_extts_check = do
    before ← get
    if before.extts_mask == 0 then pure tt else (do
      check_one 0
      check_one 1
      after ← get
      if after.extts_mask == 0 then pure tt else request (schedule_extts extts_period_ms))
