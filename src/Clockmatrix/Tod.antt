-- ===== src/Clockmatrix/Tod.antt =====
-- drivers/ptp/ptp_clockmatrix.c: reading and writing the time of day.
use linux_ptp_driver_package.Clockmatrix.State.{
  Idtcm, read_u8, idtcm_read, write_u8, fw_reg, idtcm_write,
}
use linux_ptp_driver_package.Prelude.{
  ℕ, ◌-◌, ◌*◌, ◌%◌, ◌^◌, zero, suc, bit_and, bit_or, Option, none, some, if◌then◌else◌, ◌==◌,
}
use linux_ptp_driver_package.Bus.{M, pure, throw, ◌>>=◌, ok, get, ◌>>◌, put, ignore}
use linux_ptp_driver_package.Bus.Regmap.{Regmap}
use linux_ptp_driver_package.Clockmatrix.Kernel.{Kernel}
use linux_ptp_driver_package.Prelude.Int.{ℤ, pos, ◌-ℤ◌, ◌+ℤ◌}
use linux_ptp_driver_package.Clockmatrix.Time.{
  Timespec, tod_byte_count, char_array_to_timespec, timespec_to_char_array,
}
use linux_ptp_driver_package.Bus.Errno.{eio, ebusy}
use linux_ptp_driver_package.Clockmatrix.Registers.{
  tod_read_primary_base, tod_read_primary_cmd, tod_read_secondary_cmd, tod_read_primary_cmd_v520,
  tod_read_secondary_cmd_v520, tod_read_secondary_base, tod_write_cmd, tod_write, hw_dpll_tod_ovr_0,
  hw_dpll_tod_ctrl_1,
}

abbrev pub tod_read_trigger_mask : ℕ
tod_read_trigger_mask = 0xf

abbrev pub scsr_tod_read_trig_sel_immediate : ℕ
scsr_tod_read_trig_sel_immediate = 1

abbrev pub hw_tod_wr_trig_sel_msb : ℕ
hw_tod_wr_trig_sel_msb = 0

abbrev pub tod_write_selection_mask : ℕ
tod_write_selection_mask = 0xf

abbrev pub tod_write_type_mask : ℕ
tod_write_type_mask = 0x3

abbrev pub tod_write_type_shift : ℕ
tod_write_type_shift = 4

abbrev pub scsr_tod_wr_trig_sel_immediate : ℕ
scsr_tod_wr_trig_sel_immediate = 1

abbrev pub scsr_tod_wr_type_sel_absolute : ℕ
scsr_tod_wr_type_sel_absolute = 0

abbrev pub scsr_tod_wr_type_sel_delta_plus : ℕ
scsr_tod_wr_type_sel_delta_plus = 1

abbrev pub scsr_tod_wr_type_sel_delta_minus : ℕ
scsr_tod_wr_type_sel_delta_minus = 2

-- `cmd` with the trigger and type of a write: the two fields are cleared and set.
unfoldable pub with_trigger : ℕ → ℕ → ℕ → ℕ
with_trigger cmd wr_trig wr_type =
    bit_or
      (bit_or
        (bit_and (bit_and cmd (0xFF - tod_write_selection_mask))
          (0xFF - tod_write_type_mask * 2 ^ tod_write_type_shift))
        wr_trig)
      (wr_type * 2 ^ tod_write_type_shift)
    % 256

-- The result of a conversion that returns 1 when the buffer is too small.
abbrev pub converted : {S A : Type 0} → Option A → M S A
converted (some a) = pure a
converted none = throw (pos 1)

module _ {Dev : Type 0} (regmap : Regmap Dev) (kernel : Kernel Dev) where
  -- `idtcm->start_time = ktime_get_raw();` and the like.
  unfoldable pub now : M (Idtcm Dev) ℤ
  now s = let (t, d) = kernel.ktime_get_raw s.dev in ok t (record s { dev = d })

  unfoldable pub note_start_time : M (Idtcm Dev) (Unit {0})
  note_start_time = do
    before ← get
    if before.calculate_overhead_flag == 0
        then pure tt
        else (do t ← now; idtcm ← get; put (record idtcm { start_time = t }))

  -- The loop that waits for the trigger to be 0, with `timeout` rounds left.
  unfoldable pub wait_trigger : ℕ → ℕ → M (Idtcm Dev) (Unit {0})
  wait_trigger i zero = throw eio
  wait_trigger i (suc timeout) =
      let rest = wait_trigger i timeout in
      (do
        note_start_time
        idtcm ← get
        trigger ←
            read_u8 regmap (idtcm.channel i).tod_read_primary
              (fw_reg idtcm.fw_ver tod_read_primary_cmd tod_read_primary_cmd_v520)
        if bit_and trigger tod_read_trigger_mask == 0 then pure tt else rest)

  unfoldable pub raw_gettime : ℕ → ℕ → M (Idtcm Dev) Timespec
  raw_gettime i timeout = do
    wait_trigger i timeout
    idtcm ← get
    buf ← idtcm_read regmap (idtcm.channel i).tod_read_primary tod_read_primary_base tod_byte_count
    converted (char_array_to_timespec buf tod_byte_count)

  unfoldable pub raw_gettime_immediate : ℕ → M (Idtcm Dev) Timespec
  raw_gettime_immediate i = do
    idtcm ← get
    write_u8 regmap (idtcm.channel i).tod_read_primary
        (fw_reg idtcm.fw_ver tod_read_primary_cmd tod_read_primary_cmd_v520)
        scsr_tod_read_trig_sel_immediate
    raw_gettime i 10

  unfoldable pub raw_gettime_triggered : ℕ → M (Idtcm Dev) Timespec
  raw_gettime_triggered i = do
    idtcm ← get
    trigger ←
        read_u8 regmap (idtcm.channel i).tod_read_secondary
          (fw_reg idtcm.fw_ver tod_read_secondary_cmd tod_read_secondary_cmd_v520)
    if bit_and trigger tod_read_trigger_mask == 0
        then (do
          buf ←
              idtcm_read regmap (idtcm.channel i).tod_read_secondary tod_read_secondary_base
                tod_byte_count
          converted (char_array_to_timespec buf tod_byte_count))
        else throw ebusy

  -- The loop that waits for a write to complete, where `left` more rounds may follow this one. The
  -- sleep before a round is left out.
  unfoldable pub wait_written : ℕ → ℕ → M (Idtcm Dev) (Unit {0})
  wait_written i zero = do
    idtcm ← get
    cmd ← read_u8 regmap (idtcm.channel i).tod_write tod_write_cmd
    if bit_and cmd tod_write_selection_mask == 0 then pure tt else throw eio
  wait_written i (suc left) =
      let rest = wait_written i left in
      (do
        idtcm ← get
        cmd ← read_u8 regmap (idtcm.channel i).tod_write tod_write_cmd
        if bit_and cmd tod_write_selection_mask == 0 then pure tt else rest)

  unfoldable pub set_dpll_scsr_tod : ℕ → Timespec → ℕ → ℕ → M (Idtcm Dev) (Unit {0})
  set_dpll_scsr_tod i ts wr_trig wr_type = do
    idtcm ← get
    buf ← converted (timespec_to_char_array (kernel.timespec64_add_ns ts (pos 0)) tod_byte_count)
    idtcm_write regmap (idtcm.channel i).tod_write tod_write buf
    cmd ← read_u8 regmap (idtcm.channel i).tod_write tod_write_cmd
    write_u8 regmap (idtcm.channel i).tod_write tod_write_cmd (with_trigger cmd wr_trig wr_type)
    wait_written i 20

  unfoldable pub raw_settime : ℕ → Timespec → ℕ → M (Idtcm Dev) (Unit {0})
  raw_settime i ts wr_type = set_dpll_scsr_tod i ts scsr_tod_wr_trig_sel_immediate wr_type

  -- The time with the overhead of getting here added, when it is to be taken into account; the flag
  -- is then reset.
  unfoldable pub add_overhead : Timespec → M (Idtcm Dev) Timespec
  add_overhead ts = do
    before ← get
    if before.calculate_overhead_flag == 0 then pure ts else (do
      t ← now
      idtcm ← get
      put (record idtcm { calculate_overhead_flag = 0 })
      pure (kernel.timespec64_add_ns ts ((t -ℤ idtcm.start_time) +ℤ idtcm.tod_write_overhead_ns)))

  -- The result of the write that arms the trigger is overwritten by what follows, if the trigger is
  -- the most significant byte.
  unfoldable pub set_dpll_hw_tod : ℕ → Timespec → ℕ → M (Idtcm Dev) (Unit {0})
  set_dpll_hw_tod i ts wr_trig = do
    idtcm ← get
    let n = (idtcm.channel i).hw_dpll_n
    let write_tod = λ (t : Timespec).
        converted {S = Idtcm Dev} (timespec_to_char_array t tod_byte_count)
        >>= idtcm_write regmap n hw_dpll_tod_ovr_0
    before ← read_u8 regmap n hw_dpll_tod_ctrl_1
    let cmd = bit_or (bit_and before 0xF0) (bit_or wr_trig 0x08)
    write_u8 regmap n hw_dpll_tod_ctrl_1 cmd
    if wr_trig == hw_tod_wr_trig_sel_msb
        then (do
          ignore (write_u8 regmap n hw_dpll_tod_ctrl_1 (bit_and cmd 0xF7))
          local_ts ← add_overhead ts
          write_tod local_ts)
        else (do write_tod ts; write_u8 regmap n hw_dpll_tod_ctrl_1 (bit_and cmd 0xF7))
