-- ===== src/Clockmatrix/Frequency.antt =====
-- drivers/ptp/ptp_clockmatrix.c: writing a frequency or a phase offset to a PLL. The functions that
-- the source calls `_idtcm_x`, under the lock, are `raw_x` here.
pub mod Bounds
pub mod Effect
use linux_ptp_driver_package.Clockmatrix.State.{
  Idtcm, PtpPllMode, write_frequency, write_phase, idtcm_write, set_channel,
}
use linux_ptp_driver_package.Prelude.Int.{ℤ, pos, quot, ◌*ℤ◌, s64, s32, ltb_ℤ, neg}
use linux_ptp_driver_package.Prelude.{ℕ, Bool, true, false, if◌then◌else◌}
use linux_ptp_driver_package.Bus.Regmap.{Regmap}
use linux_ptp_driver_package.Bus.{M, ◌>>=◌, get, ◌>>◌, pure, put}
use linux_ptp_driver_package.Clockmatrix.Pll.{configure_write_phase, configure_write_frequency}
use linux_ptp_driver_package.Clockmatrix.Registers.{dpll_wr_phase, dpll_wr_freq}
use linux_ptp_driver_package.Clockmatrix.Time.{le_bytes}

abbrev pub is_write_frequency : PtpPllMode → Bool
is_write_frequency write_frequency = true
is_write_frequency _ = false

abbrev pub is_write_phase : PtpPllMode → Bool
is_write_phase write_phase = true
is_write_phase _ = false

-- `fcw = scaled_ppm * 244140625ULL; fcw = div_s64(fcw, 1776);`
unfoldable pub frequency_control_word : ℤ → ℤ
frequency_control_word scaled_ppm = quot (s64 (scaled_ppm *ℤ pos 244140625)) 1776

abbrev pub max_abs_write_phase_picoseconds : ℕ
max_abs_write_phase_picoseconds = 107374182350

-- `delta_ns` as a number of steps of 50 ps, cut at the ends of the register.
unfoldable pub phase_50ps : ℤ → ℤ
phase_50ps delta_ns =
    let offset_ps = delta_ns *ℤ pos 1000 in
    let max = pos max_abs_write_phase_picoseconds in
    quot
      (if ltb_ℤ max offset_ps
        then max
        else if ltb_ℤ offset_ps (neg max)
        then neg max
        else offset_ps)
      50

module _ {Dev : Type 0} (regmap : Regmap Dev) (i : ℕ) where
  unfoldable pub raw_adjphase : ℤ → M (Idtcm Dev) (Unit {0})
  raw_adjphase delta_ns = do
    before ← get
    if is_write_phase (before.channel i).mode then pure tt else configure_write_phase regmap i
    idtcm ← get
    idtcm_write regmap (idtcm.channel i).dpll_phase dpll_wr_phase (le_bytes 4 (phase_50ps delta_ns))

  unfoldable pub raw_adjfine : ℤ → M (Idtcm Dev) (Unit {0})
  raw_adjfine scaled_ppm = do
    before ← get
    if is_write_frequency (before.channel i).mode
        then pure tt
        else configure_write_frequency regmap i
    idtcm ← get
    idtcm_write regmap (idtcm.channel i).dpll_freq dpll_wr_freq
        (le_bytes 6 (frequency_control_word scaled_ppm))

  -- `idtcm_adjphase` and `idtcm_adjfine`, called by the kernel. While a phase pull-in runs, a
  -- frequency is neither written nor remembered.
  unfoldable pub idtcm_adjphase : ℤ → M (Idtcm Dev) (Unit {0})
  idtcm_adjphase delta = raw_adjphase delta

  unfoldable pub idtcm_adjfine : ℤ → M (Idtcm Dev) (Unit {0})
  idtcm_adjfine scaled_ppm = do
    before ← get
    if (before.channel i).phase_pull_in then pure tt else (do
      raw_adjfine scaled_ppm
      idtcm ← get
      put (
          set_channel idtcm i
            (record (idtcm.channel i) { current_freq_scaled_ppm = s32 scaled_ppm })))
