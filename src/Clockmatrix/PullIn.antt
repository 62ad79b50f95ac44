-- ===== src/Clockmatrix/PullIn.antt =====
-- drivers/ptp/ptp_clockmatrix.c: pulling the phase in, by the chip's own engine or by a frequency
-- that a worker takes back after a while.
pub mod Halving
pub mod Lifecycle
use linux_ptp_driver_package.Clockmatrix.State.{
  Idtcm, unset, set_channel, idtcm_write, read_u8, request, by_pll_mode, write_u8, schedule_worker,
  by_manual_reference,
}
use linux_ptp_driver_package.Prelude.{
  ℕ, ◌*◌, ◌/◌, ◌%◌, ◌^◌, zero, suc, bit_and, ◌≡◌, refl, Bool, true, false, ◌||◌, if◌then◌else◌,
  ◌==◌, ltb,
}
use linux_ptp_driver_package.Prelude.Int.{ℤ, quot, ◌*ℤ◌, pos, abs, s32, ◌+ℤ◌, neg, ltb_ℤ, abs_s32}
use linux_ptp_driver_package.Bus.Regmap.{Regmap}
use linux_ptp_driver_package.Bus.{M, ◌>>=◌, ◌>>◌, ok, ignore, get, fail, pure, throw}
use linux_ptp_driver_package.Clockmatrix.Pll.{null_call}
use linux_ptp_driver_package.Clockmatrix.Frequency.{raw_adjfine}
use linux_ptp_driver_package.Clockmatrix.Registers.{
  pull_in_offset, pull_in_slope_limit, pull_in_ctrl,
}
use linux_ptp_driver_package.Clockmatrix.Time.{le_bytes}
use linux_ptp_driver_package.Bus.Errno.{ebusy}

abbrev pub phase_pull_in_max_ppb : ℕ
phase_pull_in_max_ppb = 144000

abbrev pub phase_pull_in_min_threshold_ns : ℕ
phase_pull_in_min_threshold_ns = 2

abbrev pub max_pull_in_scaled_ppm : ℕ
max_pull_in_scaled_ppm = 9437184

-- `max_scaled_ppm` of the source is the quotient that `max_pull_in_scaled_ppm` names.
max_pull_in_scaled_ppm_lem : max_pull_in_scaled_ppm ≡ phase_pull_in_max_ppb * 2 ^ 13 / 125
max_pull_in_scaled_ppm_lem = refl

unfoldable pub phase_pull_in_scaled_ppm : ℤ → ℤ → ℤ
phase_pull_in_scaled_ppm current_ppm phase_pull_in_ppb =
    let scaled_ppm = quot (phase_pull_in_ppb *ℤ pos (2 ^ 13)) 125 in
    let sum = s32 (current_ppm +ℤ scaled_ppm) in
    if ltb_ℤ (pos max_pull_in_scaled_ppm) sum
    then pos max_pull_in_scaled_ppm
    else if ltb_ℤ sum (neg (pos max_pull_in_scaled_ppm))
    then neg (pos max_pull_in_scaled_ppm)
    else sum

-- `max_ffo_ppb` is a `u32`, and so the test is one of unsigned numbers.
-- `while (abs(ppb) > max_ffo_ppb) { duration_ms *= 2; ppb /= 2; }`. The first argument bounds the
-- rounds; 32 are enough for an `s32`.
unfoldable pub halve : ℕ → ℕ → ℕ → ℤ → ℕ × ℤ
halve zero max_ffo_ppb duration_ms ppb = (duration_ms, ppb)
halve (suc rounds) max_ffo_ppb duration_ms ppb =
    let rest = halve rounds max_ffo_ppb (duration_ms * 2 % 2 ^ 32) (quot ppb 2) in
    if ltb max_ffo_ppb (abs ppb) then rest else (duration_ms, ppb)

abbrev pub msec_per_sec : ℕ
msec_per_sec = 1000

abbrev pub limit_ffo : ℕ → ℕ
limit_ffo max_ffo_ppb =
    if (max_ffo_ppb == 0) || ltb phase_pull_in_max_ppb max_ffo_ppb
    then phase_pull_in_max_ppb
    else max_ffo_ppb

module _ {Dev : Type 0} (regmap : Regmap Dev) (i : ℕ) where
  unfoldable pub idtcm_set_phase_pull_in_offset : ℤ → M (Idtcm Dev) (Unit {0})
  idtcm_set_phase_pull_in_offset offset_ns = do
    idtcm ← get
    idtcm_write regmap (idtcm.channel i).dpll_phase_pull_in pull_in_offset (le_bytes 4 offset_ns)

  unfoldable pub idtcm_set_phase_pull_in_slope_limit : ℕ → M (Idtcm Dev) (Unit {0})
  idtcm_set_phase_pull_in_slope_limit max_ffo_ppb = do
    idtcm ← get
    let limit = if bit_and max_ffo_ppb 0xff000000 == 0 then max_ffo_ppb else 0
    idtcm_write regmap (idtcm.channel i).dpll_phase_pull_in pull_in_slope_limit
        (le_bytes 3 (pos limit))

  unfoldable pub idtcm_start_phase_pull_in : M (Idtcm Dev) (Unit {0})
  idtcm_start_phase_pull_in = do
    idtcm ← get
    buf ← read_u8 regmap (idtcm.channel i).dpll_phase_pull_in pull_in_ctrl
    if buf == 0
        then write_u8 regmap (idtcm.channel i).dpll_phase_pull_in pull_in_ctrl 1
        else throw ebusy

  -- `-offset_ns` of an `s32`.
  unfoldable pub do_phase_pull_in_fw : ℤ → ℕ → M (Idtcm Dev) (Unit {0})
  do_phase_pull_in_fw offset_ns max_ffo_ppb = do
    idtcm_set_phase_pull_in_offset (s32 (neg offset_ns))
    idtcm_set_phase_pull_in_slope_limit max_ffo_ppb
    idtcm_start_phase_pull_in

  -- `channel->phase_pull_in = b;`.
  abbrev pub set_pull_in : Bool → M (Idtcm Dev) (Unit {0})
  set_pull_in b idtcm = ok tt (set_channel idtcm i (record (idtcm.channel i) { phase_pull_in = b }))

  -- `msecs_to_jiffies` is left to the kernel: the worker is asked for in milliseconds, less a tick.
  unfoldable pub do_phase_pull_in_sw : ℤ → ℕ → M (Idtcm Dev) (Unit {0})
  do_phase_pull_in_sw delta_ns max_ffo_ppb =
      if ltb_ℤ (abs_s32 delta_ns) (pos phase_pull_in_min_threshold_ns) then pure tt else (do
        idtcm ← get
        let pull = halve 32 (limit_ffo max_ffo_ppb) msec_per_sec delta_ns
        raw_adjfine regmap i
            (phase_pull_in_scaled_ppm (idtcm.channel i).current_freq_scaled_ppm pull.1)
        request (schedule_worker i pull.0)
        set_pull_in true)

  -- `channel->do_phase_pull_in(channel, offset_ns, max_ffo_ppb)`, which takes an `s32`.
  unfoldable pub do_phase_pull_in : ℤ → ℕ → M (Idtcm Dev) (Unit {0})
  do_phase_pull_in offset_ns max_ffo_ppb idtcm = elim (idtcm.channel i).operations [
    | unset ↦ fail null_call idtcm
    | by_pll_mode ↦ do_phase_pull_in_fw (s32 offset_ns) max_ffo_ppb idtcm
    | by_manual_reference ↦ do_phase_pull_in_sw (s32 offset_ns) max_ffo_ppb idtcm
  ]

  unfoldable pub idtcm_stop_phase_pull_in : M (Idtcm Dev) (Unit {0})
  idtcm_stop_phase_pull_in = do
    idtcm ← get
    raw_adjfine regmap i (idtcm.channel i).current_freq_scaled_ppm
    set_pull_in false

  -- The worker: it is not asked for again, whatever happened.
  unfoldable pub idtcm_work_handler : M (Idtcm Dev) (Unit {0})
  idtcm_work_handler = ignore idtcm_stop_phase_pull_in
