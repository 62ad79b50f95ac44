-- ===== src/Idt82p33/Frequency.antt =====
-- drivers/ptp/ptp_idt82p33.c: writing a frequency or a phase offset to a DPLL, and the double DCO
-- correction, a frequency that a worker takes back after a while.
pub mod Bounds
pub mod Effect
use linux_ptp_driver_package.Prelude.{
  ℕ, ◌*◌, ◌/◌, ◌%◌, ◌^◌, zero, suc, bit_and, bit_or, ◌≡◌, refl, true, false, ◌||◌, List, [], ◌∷◌,
  if◌then◌else◌, ltb,
}
use linux_ptp_driver_package.Prelude.Int.{
  ℤ, quot, s64, s32, low_bits, ◌*ℤ◌, ◌+ℤ◌, neg, asr, pos, ltb_ℤ, abs, eqb_ℤ, abs_s32,
}
use linux_ptp_driver_package.Idt82p33.State.{
  dco_max_ppb, Idt82p33, pll_mode_dco, modify_channel, pll_mode_wph, idt82p33_write, request,
  schedule_worker,
}
use linux_ptp_driver_package.Bus.Regmap.{Regmap}
use linux_ptp_driver_package.Bus.{M, ◌>>◌, ◌>>=◌, ignore, get, pure}
use linux_ptp_driver_package.Idt82p33.Mode.{dpll_set_mode}
use linux_ptp_driver_package.Clockmatrix.Time.{le_bytes}

abbrev pub ddco_threshold_ns : ℕ
ddco_threshold_ns = 5

abbrev pub write_phase_offset_limit : ℕ
write_phase_offset_limit = 20000052084

abbrev pub idt_t0dpll_phase_resol : ℕ
idt_t0dpll_phase_resol = 74506

abbrev pub ph_offset_en : ℕ
ph_offset_en = 0x80

-- `fcw = scaled_ppm * 762939453125ULL; fcw = div_s64(fcw, 8430756LL);`
unfoldable pub frequency_control_word : ℤ → ℤ
frequency_control_word scaled_ppm = quot (s64 (scaled_ppm *ℤ pos 762939453125)) 8430756

-- `max_scaled_ppm` of the source: the quotient of DCO_MAX_PPB << 13 by 125.
abbrev pub max_scaled_ppm : ℕ
max_scaled_ppm = 6029312

max_scaled_ppm_lem : max_scaled_ppm ≡ dco_max_ppb * 2 ^ 13 / 125
max_scaled_ppm_lem = refl

-- `current_ppm` is a `long`.
unfoldable pub ddco_scaled_ppm : ℤ → ℤ → ℤ
ddco_scaled_ppm current_ppm ddco_ppb =
    let sum = s64 (current_ppm +ℤ quot (ddco_ppb *ℤ pos (2 ^ 13)) 125) in
    s32 (
      if ltb_ℤ (pos max_scaled_ppm) sum
      then pos max_scaled_ppm
      else if ltb_ℤ sum (neg (pos max_scaled_ppm))
      then neg (pos max_scaled_ppm)
      else sum)

-- `while (abs(ppb) > DCO_MAX_PPB) { duration_ms *= 2; ppb /= 2; }`. The first argument bounds the
-- rounds; 32 are enough for an `s32`.
unfoldable pub halve_ppb : ℕ → ℕ → ℤ → ℕ × ℤ
halve_ppb zero duration_ms ppb = (duration_ms, ppb)
halve_ppb (suc rounds) duration_ms ppb =
    let rest = halve_ppb rounds (duration_ms * 2 % 2 ^ 32) (quot ppb 2) in
    if ltb_ℤ (pos dco_max_ppb) (abs_s32 ppb) then rest else (duration_ms, ppb)

-- The number of the phase register: the negated offset, cut at its ends, in steps of the register.
unfoldable pub phase_register : ℤ → ℤ
phase_register offset_ns =
    let offset_fs = s32 (neg offset_ns) *ℤ pos 1000000 in
    let limit = pos write_phase_offset_limit in
    let cut =
      if ltb_ℤ limit offset_fs
      then limit
      else if ltb_ℤ offset_fs (neg limit)
      then neg limit
      else offset_fs in
    quot (cut *ℤ pos 1000) idt_t0dpll_phase_resol

-- Its four bytes, with the bit that enables the offset.
unfoldable pub phase_bytes : ℤ → List ℕ
phase_bytes v =
    low_bits 8 v
    ∷ low_bits 8 (asr v 8)
    ∷ low_bits 8 (asr v 16)
    ∷ bit_or (bit_and (low_bits 8 (asr v 24)) 0x1F) ph_offset_en
    ∷ []

module _ {Dev : Type 0} (regmap : Regmap Dev) (i : ℕ) where
  unfoldable pub raw_adjfine : ℤ → M (Idt82p33 Dev) (Unit {0})
  raw_adjfine scaled_ppm = do
    dpll_set_mode regmap i pll_mode_dco
    s ← get
    idt82p33_write regmap (s.channel i).dpll_freq_cnfg
        (le_bytes 5 (frequency_control_word scaled_ppm))

  unfoldable pub idt82p33_stop_ddco : M (Idt82p33 Dev) (Unit {0})
  idt82p33_stop_ddco = do
    s ← get
    raw_adjfine (s.channel i).current_freq
    modify_channel i (λ c. record c { ddco = false })

  -- `delta_ns` is an `s32`. `msecs_to_jiffies` is left to the kernel: the worker is asked for in
  -- milliseconds, less a tick.
  unfoldable pub idt82p33_start_ddco : ℤ → M (Idt82p33 Dev) (Unit {0})
  idt82p33_start_ddco delta_ns =
      if ltb_ℤ (abs_s32 delta_ns) (pos ddco_threshold_ns) then pure tt else (do
        s ← get
        let pull = halve_ppb 32 1000 delta_ns
        raw_adjfine (ddco_scaled_ppm (s.channel i).current_freq pull.1)
        request (schedule_worker i pull.0)
        modify_channel i (λ c. record c { ddco = true }))

  -- The worker: it is not asked for again, whatever happened.
  unfoldable pub idt82p33_work_handler : M (Idt82p33 Dev) (Unit {0})
  idt82p33_work_handler = ignore idt82p33_stop_ddco

  unfoldable pub idt82p33_adjwritephase : ℤ → M (Idt82p33 Dev) (Unit {0})
  idt82p33_adjwritephase offset_ns = do
    dpll_set_mode regmap i pll_mode_wph
    s ← get
    idt82p33_write regmap (s.channel i).dpll_phase_cnfg (phase_bytes (phase_register offset_ns))

  -- While a double DCO correction runs, or at the frequency that is set, nothing is done.
  unfoldable pub idt82p33_adjfine : ℤ → M (Idt82p33 Dev) (Unit {0})
  idt82p33_adjfine scaled_ppm = do
    before ← get
    if (before.channel i).ddco || eqb_ℤ scaled_ppm (before.channel i).current_freq
        then pure tt
        else (do
          raw_adjfine scaled_ppm
          modify_channel i (λ c. record c { current_freq = s32 scaled_ppm }))
