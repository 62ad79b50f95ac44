-- ===== src/Idt82p33/Tod.antt =====
-- drivers/ptp/ptp_idt82p33.c: reading and writing the time of day. The functions that the source
-- calls `_idt82p33_x`, under the lock, are `raw_x` here.
use linux_ptp_driver_package.Prelude.{ℕ, ◌+◌, true, false, List, [], ◌∷◌, if◌then◌else◌, ◌==◌}
use linux_ptp_driver_package.Bus.Regmap.{Regmap}
use linux_ptp_driver_package.Clockmatrix.Kernel.{Kernel}
use linux_ptp_driver_package.Bus.{M, ◌>>=◌, pure, ◌>>◌, ok, get, put}
use linux_ptp_driver_package.Clockmatrix.Time.{Timespec}
use linux_ptp_driver_package.Idt82p33.State.{
  Idt82p33, write_u8, modify_channel, idt82p33_read, tod_byte_count,
}
use linux_ptp_driver_package.Prelude.Int.{ℤ, ◌-ℤ◌}
use linux_ptp_driver_package.Idt82p33.Mode.{
  set_tod_trigger, hw_tod_wr_trig_sel_msb_tod_cnfg, hw_tod_rd_trig_sel_lsb_tod_sts,
}
use linux_ptp_driver_package.Idt82p33.Extts.{idt82p33_extts_enable_mask}
use linux_ptp_driver_package.Idt82p33.Time.{timespec_to_byte_array, byte_array_to_timespec}

module _ {Dev : Type 0} (regmap : Regmap Dev) (kernel : Kernel Dev) where
  -- `ktime_get_raw()`.
  unfoldable pub now : M (Idt82p33 Dev) ℤ
  now s = let (t, d) = kernel.ktime_get_raw s.dev in ok t (record s { dev = d })

  unfoldable pub note_start_time : M (Idt82p33 Dev) (Unit {0})
  note_start_time = do
    before ← get
    if before.calculate_overhead_flag == 0
        then pure tt
        else (do t ← now; s ← get; put (record s { start_time = t }))

  -- External time stamps are taken off for the read, and armed again after it if all goes well.
  unfoldable pub raw_gettime : ℕ → M (Idt82p33 Dev) Timespec
  raw_gettime i = do
    before ← get
    new_mask ←
        (if before.extts_mask == 0
          then pure 0
          else idt82p33_extts_enable_mask regmap kernel i before.extts_mask false)
    set_tod_trigger regmap i hw_tod_rd_trig_sel_lsb_tod_sts false
    modify_channel i (λ c. record c { discard_next_extts = true })
    note_start_time
    s ← get
    buf ← idt82p33_read regmap (s.channel i).dpll_tod_sts tod_byte_count
    if new_mask == 0
        then pure tt
        else (do again ← idt82p33_extts_enable_mask regmap kernel i new_mask true; pure tt)
    pure (byte_array_to_timespec buf)

  -- The time with the overhead of getting here added, when it is to be taken into account; the flag
  -- is then reset.
  unfoldable pub add_overhead : Timespec → M (Idt82p33 Dev) Timespec
  add_overhead ts = do
    before ← get
    if before.calculate_overhead_flag == 0 then pure ts else (do
      t ← now
      s ← get
      put (record s { calculate_overhead_flag = 0 })
      pure (kernel.timespec64_add_ns ts (t -ℤ s.start_time)))

  -- The loop that writes the bytes one by one, from address `a` on.
  unfoldable pub write_each : ℕ → List ℕ → M (Idt82p33 Dev) (Unit {0})
  write_each a [] = pure tt
  write_each a (b ∷ bs) = let rest = write_each (a + 1) bs in (write_u8 regmap a b >> rest)

  unfoldable pub raw_settime : ℕ → Timespec → M (Idt82p33 Dev) (Unit {0})
  raw_settime i ts = do
    set_tod_trigger regmap i hw_tod_wr_trig_sel_msb_tod_cnfg true
    modify_channel i (λ c. record c { discard_next_extts = true })
    local_ts ← add_overhead ts
    s ← get
    write_each (s.channel i).dpll_tod_cnfg (timespec_to_byte_array local_ts)

  unfoldable pub idt82p33_gettime : ℕ → M (Idt82p33 Dev) Timespec
  idt82p33_gettime i = raw_gettime i

  unfoldable pub idt82p33_settime : ℕ → Timespec → M (Idt82p33 Dev) (Unit {0})
  idt82p33_settime i ts = raw_settime i ts
