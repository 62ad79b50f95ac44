-- ===== src/Clockmatrix/Setup.antt =====
-- drivers/ptp/ptp_clockmatrix.c: setting up the channels and bringing up the chip.
pub mod Bounds
use linux_ptp_driver_package.Clockmatrix.State.{
  Idtcm, max_tod, max_pll, set_channel, fw_reg, idtcm_read, read_u8, write_u8, rank, v487,
}
use linux_ptp_driver_package.Clockmatrix.Registers.{tod}
use linux_ptp_driver_package.Bus.{status}
use linux_ptp_driver_package.Prelude.{
  ◌+◌, ◌*◌, ◌/◌, ◌%◌, ◌^◌, ℕ, bit_or, ◌⊎◌, inl, inr, ◌&&◌, not, List, [], ◌∷◌, if◌then◌else◌, leb,
  ltb, get_or, ◌==◌,
}
use linux_ptp_driver_package.Bus.Regmap.{Regmap}
use linux_ptp_driver_package.Clockmatrix.Kernel.{Kernel}
use linux_ptp_driver_package.Bus.{M, ok, ◌>>=◌, throw, get, fail, ◌>>◌, put, ignore, pure}
use linux_ptp_driver_package.Prelude.Int.{ℤ, pos, eqb_ℤ}
use linux_ptp_driver_package.Clockmatrix.Firmware.{Fwrc, contains_full_configuration, load_records}
use linux_ptp_driver_package.Bus.Errno.{einval}
use linux_ptp_driver_package.Clockmatrix.Registers.{
  dpll_freq_n, dpll, tod_read_primary_n, dpll_max_freq_offset, tod_cfg, dpll_v520,
  tod_read_primary_n_v520, tod_cfg_v520, hw_dpll, tod_read_secondary_n, dpll_phase_n,
  tod_read_secondary_n_v520, dpll_ctrl, tod_write_n, dpll_phase_pull_in_n, tod_write_n_v520,
  tod_v520,
}
use linux_ptp_driver_package.Clockmatrix.Boot.{idtcm_state_machine_reset}
use linux_ptp_driver_package.Clockmatrix.Pll.{initialize_dco_operating_mode}
use linux_ptp_driver_package.Clockmatrix.Time.{Timespec}
use linux_ptp_driver_package.Clockmatrix.Adjtime.{raw_settime_deprecated}
use linux_ptp_driver_package.Clockmatrix.Tod.{raw_settime, scsr_tod_wr_type_sel_absolute}

abbrev pub max_ffo_ppb : ℕ
max_ffo_ppb = 244000

abbrev pub tod_enable : ℕ
tod_enable = 0x1

abbrev pub sync_source_dpll0_tod_pps : ℕ
sync_source_dpll0_tod_pps = 0x14

abbrev pub dpll_ctrl_dpll_fod_freq : ℕ
dpll_ctrl_dpll_fod_freq = 0x001c

abbrev pub default_tod_mask : ℕ
default_tod_mask = 0x04

-- DEFAULT_OUTPUT_MASK_PLL0 to DEFAULT_OUTPUT_MASK_PLL3.
abbrev pub default_output_mask : List ℕ
default_output_mask = 0x003 ∷ 0x00c ∷ 0x030 ∷ 0x0c0 ∷ []

-- 20 FOD cycles and 8 ns, of a FOD frequency in Hz.
unfoldable pub delay_of : ℕ → ℕ
delay_of fod_freq = if leb 500000000 fod_freq then 20 * 1000000000 / fod_freq + 8 else 0

-- `get_unaligned_le64(mbuf)` and `get_unaligned_le16(nbuf)`.
abbrev pub le_number : List ℕ → ℕ
le_number [] = 0
le_number (b ∷ bs) = b + 256 * le_number bs

unfoldable pub set_default_masks : {Dev : Type 0} → Idtcm Dev → Idtcm Dev
set_default_masks s = record s {
  tod_mask = default_tod_mask;
  extts_mask = 0;
  channel = λ i.
      if ltb i max_tod
      then record (s.channel i) { tod = i; pll = i; output_mask = get_or default_output_mask i 0 }
      else s.channel i;
}

module _ {Dev : Type 0} (regmap : Regmap Dev) (kernel : Kernel Dev) where
  unfoldable pub configure_channel_pll : ℕ → M (Idtcm Dev) (Unit {0})
  configure_channel_pll i s =
      let c = s.channel i in
      if ltb c.pll max_pll
      then ok tt (
          set_channel s i (record c {
            dpll_freq = get_or dpll_freq_n c.pll 0;
            dpll_n = get_or (fw_reg s.fw_ver dpll dpll_v520) c.pll 0;
            hw_dpll_n = get_or hw_dpll c.pll 0;
            dpll_phase = get_or dpll_phase_n c.pll 0;
            dpll_ctrl_n = get_or dpll_ctrl c.pll 0;
            dpll_phase_pull_in = get_or dpll_phase_pull_in_n c.pll 0;
          }))
      else fail einval s

  unfoldable pub configure_channel_tod : ℕ → M (Idtcm Dev) (Unit {0})
  configure_channel_tod i s =
      let c = s.channel i in
      if ltb i max_tod
      then ok tt (
          set_channel s i (record c {
            tod_read_primary =
                get_or (fw_reg s.fw_ver tod_read_primary_n tod_read_primary_n_v520) i 0;
            tod_read_secondary =
                get_or (fw_reg s.fw_ver tod_read_secondary_n tod_read_secondary_n_v520) i 0;
            tod_write = get_or (fw_reg s.fw_ver tod_write_n tod_write_n_v520) i 0;
            tod_n = get_or (fw_reg s.fw_ver tod tod_v520) i 0;
            sync_src = sync_source_dpll0_tod_pps + i;
          }))
      else fail einval s

  -- A failed read gives 0. `(u32)div_u64(m, n)` is cut to 32 bits.
  unfoldable pub idtcm_get_dco_delay : ℕ → M (Idtcm Dev) ℕ
  idtcm_get_dco_delay i s = elim (measured s) [ ok delay t ↦ ok delay t | fail e t ↦ ok 0 t ]
    where
      measured : M (Idtcm Dev) ℕ
      measured = do
        idtcm ← get
        mbuf ← idtcm_read regmap (idtcm.channel i).dpll_ctrl_n dpll_ctrl_dpll_fod_freq 6
        nbuf ← idtcm_read regmap (idtcm.channel i).dpll_ctrl_n (dpll_ctrl_dpll_fod_freq + 6) 2
        let n = if le_number nbuf == 0 then 1 else le_number nbuf
        pure (delay_of (le_number mbuf / n % 2 ^ 32))

  unfoldable pub initialize_max_adj : ℕ → M (Idtcm Dev) (Unit {0})
  initialize_max_adj i = do
    before ← get
    ffo_ppm ← read_u8 regmap (before.channel i).dpll_n dpll_max_freq_offset
    idtcm ← get
    put (
        set_channel idtcm i (record (idtcm.channel i) {
          max_adj =
              if not (ffo_ppm == 0) && leb ffo_ppm (max_ffo_ppb / 1000)
              then ffo_ppm * 1000
              else max_ffo_ppb;
        }))

  unfoldable pub idtcm_enable_tod : ℕ → M (Idtcm Dev) (Unit {0})
  idtcm_enable_tod i = do
    idtcm ← get
    let cfg_reg = fw_reg idtcm.fw_ver tod_cfg tod_cfg_v520
    cfg ← read_u8 regmap (idtcm.channel i).tod_n cfg_reg
    write_u8 regmap (idtcm.channel i).tod_n cfg_reg (bit_or cfg tod_enable)
    let zero_time : Timespec = record { tv_sec = pos 0; tv_nsec = pos 0 }
    if ltb (rank idtcm.fw_ver) (rank v487)
        then raw_settime_deprecated regmap kernel i zero_time
        else raw_settime regmap kernel i zero_time scsr_tod_wr_type_sel_absolute

  -- `register i` is what `ptp_clock_register` gives for a channel: 0, or the code of its error. The
  -- names of the pins and the table of operations, which depends on the firmware version alone, are
  -- left out.
  unfoldable pub idtcm_enable_channel : (ℕ → ℤ) → ℕ → M (Idtcm Dev) (Unit {0})
  idtcm_enable_channel register i = if leb max_tod i then throw einval else (do
    fresh ← get
    put (set_channel fresh i (record (fresh.channel i) { current_freq_scaled_ppm = pos 0 }))
    configure_channel_pll i
    configure_channel_tod i
    named ← get
    put (set_channel named i (record (named.channel i) { max_adj = max_ffo_ppb }))
    initialize_max_adj i
    initialize_dco_operating_mode regmap i
    idtcm_enable_tod i
    delay ← idtcm_get_dco_delay i
    idtcm ← get
    put (
        set_channel idtcm i
          (record (idtcm.channel i) { dco_delay = delay; ptp_clock = eqb_ℤ (register i) (pos 0) }))
    status (register i))

  unfoldable pub idtcm_enable_extts_channel : ℕ → M (Idtcm Dev) (Unit {0})
  idtcm_enable_extts_channel i = if leb max_tod i then throw einval else configure_channel_tod i

  -- `request_firmware` gives an error or the records of the image.
  unfoldable pub idtcm_load_firmware : ℤ ⊎ List Fwrc → M (Idtcm Dev) (Unit {0})
  idtcm_load_firmware (inl err) s = fail err s
  idtcm_load_firmware (inr recs) s =
      ((if contains_full_configuration s.fw_ver recs
            then ignore (idtcm_state_machine_reset regmap)
            else pure tt)
          >> load_records regmap s.fw_ver recs)
        s
