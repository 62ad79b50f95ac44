-- ===== src/Clockmatrix/Extts.antt =====
-- drivers/ptp/ptp_clockmatrix.c: external time stamps, polled by delayed work.
pub mod Mask
use linux_ptp_driver_package.Clockmatrix.State.{
  Idtcm, set_channel, write_u8, max_tod, request, extts_event, fw_reg, schedule_extts, cancel_extts,
}
use linux_ptp_driver_package.Prelude.{
  ◌+◌, ◌-◌, ◌/◌, ◌%◌, ◌^◌, ℕ, bit_and, bit_or, Bool, ◌&&◌, ◌||◌, not, leb, ◌==◌, if◌then◌else◌,
}
use linux_ptp_driver_package.Bus.Regmap.{Regmap}
use linux_ptp_driver_package.Clockmatrix.Kernel.{Kernel}
use linux_ptp_driver_package.Bus.{M, ◌>>=◌, get, throw, ◌>>◌, put, pure, ok, ignore, fail}
use linux_ptp_driver_package.Bus.Errno.{eopnotsupp, einval, ebusy}
use linux_ptp_driver_package.Clockmatrix.Tod.{raw_gettime_triggered}
use linux_ptp_driver_package.Clockmatrix.Registers.{
  tod_read_secondary_sel_cfg_0, tod_read_secondary_cmd, tod_read_secondary_cmd_v520,
}
use linux_ptp_driver_package.Prelude.Int.{ltb_ℤ, ◌-ℤ◌, pos, low_bits}

abbrev pub extts_period_ms : ℕ
extts_period_ms = 95

-- PTP_ENABLE_FEATURE, PTP_RISING_EDGE, PTP_FALLING_EDGE and PTP_STRICT_FLAGS of the kernel.
abbrev pub ptp_enable_feature : ℕ
ptp_enable_feature = 1

abbrev pub ptp_falling_edge : ℕ
ptp_falling_edge = 4

abbrev pub ptp_extts_flags : ℕ
ptp_extts_flags = 0xf

abbrev pub scsr_tod_read_trig_sel_refclk : ℕ
scsr_tod_read_trig_sel_refclk = 3

-- A mask up to 8 that is a power of 2 is continuous.
unfoldable pub is_single_shot : ℕ → Bool
is_single_shot mask =
    not (leb mask 8 && ((mask == 1) || ((mask == 2) || ((mask == 4) || (mask == 8)))))

-- `struct ptp_extts_request`.
pub record ExttsRequest : Type 0 where
  pub index : ℕ
  pub flags : ℕ

module _ {Dev : Type 0} (regmap : Regmap Dev) (kernel : Kernel Dev) where
  -- `ref` of the source is a `u8`: the number of the pin, cut to a byte, replaces the whole register.
  unfoldable pub arm_tod_read_trig_sel_refclk : ℕ → ℕ → M (Idtcm Dev) (Unit {0})
  arm_tod_read_trig_sel_refclk i ref = do
    idtcm ← get
    write_u8 regmap (idtcm.channel i).tod_read_secondary tod_read_secondary_sel_cfg_0 ref
    write_u8 regmap (idtcm.channel i).tod_read_secondary
        (fw_reg idtcm.fw_ver tod_read_secondary_cmd tod_read_secondary_cmd_v520)
        scsr_tod_read_trig_sel_refclk

  -- What is remembered once the trigger of `index` is armed for channel `i`.
  abbrev pub note_armed : ℕ → ℕ → ℕ → Idtcm Dev → Idtcm Dev
  note_armed i index ref s =
      let mask = bit_or s.extts_mask (2 ^ index) in
      set_channel
        (record s {
          extts_mask = mask;
          event_channel = λ j. if j == index then i else s.event_channel j;
          extts_single_shot = is_single_shot mask;
        })
        index (record (s.channel index) { refn = ref })

  abbrev pub note_disarmed : ℕ → Idtcm Dev → Idtcm Dev
  note_disarmed index s =
      let mask = bit_and s.extts_mask (0xFF - 2 ^ index) in
      record s { extts_mask = mask; extts_single_shot = is_single_shot mask }

  -- `channel` is number `i`. `1 << index` is taken of an index that the guard keeps below 4.
  unfoldable pub idtcm_extts_enable : ℕ → ExttsRequest → Bool → M (Idtcm Dev) (Unit {0})
  idtcm_extts_enable i rq on =
      let index = rq.index % 256 in
      if not (rq.flags / (ptp_extts_flags + 1) == 0)
      then throw eopnotsupp
      else if not (bit_and rq.flags ptp_enable_feature == 0)
          && not (bit_and rq.flags ptp_falling_edge == 0)
      then throw eopnotsupp
      else if leb max_tod index
      then throw einval
      else if on
      then (do
        before ← get
        let ref = kernel.find_pin i (before.channel i).tod
        if ltb_ℤ ref (pos 0) then throw ebusy else (do
          arm_tod_read_trig_sel_refclk index (low_bits 8 ref)
          idtcm ← get
          put (note_armed i index (low_bits 8 ref) idtcm)
          if before.extts_mask == 0 then request (schedule_extts extts_period_ms) else pure tt))
      else (do
        idtcm ← get
        put (note_disarmed index idtcm)
        after ← get
        if after.extts_mask == 0 then request cancel_extts else pure tt)

  unfoldable pub idtcm_extts_check_channel : ℕ → M (Idtcm Dev) (Unit {0})
  idtcm_extts_check_channel todn = do
    before ← get
    let owner = before.event_channel todn
    let dco_delay = if owner == todn then (before.channel owner).dco_delay else 0
    ts ← raw_gettime_triggered regmap kernel todn
    request (extts_event owner todn (kernel.timespec64_to_ns ts -ℤ pos dco_delay))

  -- The rest of a round of the work, once the check of `todn` is done: its trigger cleared itself.
  unfoldable pub after_event : ℕ → M (Idtcm Dev) (Unit {0})
  after_event todn s =
      if s.extts_single_shot
      then ok tt (record s { extts_mask = bit_and s.extts_mask (0xFF - 2 ^ todn) })
      else ignore (arm_tod_read_trig_sel_refclk todn (s.channel todn).refn) s

  unfoldable pub check_one : ℕ → M (Idtcm Dev) (Unit {0})
  check_one todn s =
      if bit_and s.extts_mask (2 ^ todn) == 0
      then ok tt s
      else elim (idtcm_extts_check_channel todn s) [
        | ok u t ↦ after_event todn t
        | fail e t ↦ ok tt t
      ]

  -- The delayed work: the loop over the four ToDs, written out.
  unfoldable pub idtcm_extts_check : M (Idtcm Dev) (Unit {0})
  idtcm_extts_check = do
    before ← get
    if before.extts_mask == 0 then pure tt else (do
      check_one 0
      check_one 1
      check_one 2
      check_one 3
      after ← get
      if after.extts_mask == 0 then pure tt else request (schedule_extts extts_period_ms))
