-- ===== src/Idt82p33/Setup.antt =====
-- drivers/ptp/ptp_idt82p33.c: setting up the channels, and attaching to and leaving a chip.
pub mod Probe
use linux_ptp_driver_package.Prelude.{
  ℕ, ◌^◌, bit_and, bit_or, Bool, true, false, [], if◌then◌else◌, ◌==◌, replicate, ltb,
}
use linux_ptp_driver_package.Prelude.Int.{ℤ, pos, negsuc}
use linux_ptp_driver_package.Idt82p33.State.{
  Channel, Idt82p33, pll_mode_automatic, request, write_u8, tod_byte_count, modify_channel,
  cancel_adjtime, cancel_extts, max_phc_pll, read_u8, clock_unregister, pll_mode_dco,
}
use linux_ptp_driver_package.Bus.{M, ◌>>◌, ◌>>=◌, get, ignore, throw, pure, ok, fail}
use linux_ptp_driver_package.Bus.Regmap.{Regmap}
use linux_ptp_driver_package.Clockmatrix.Kernel.{Kernel}
use linux_ptp_driver_package.Idt82p33.Overhead.{measure_tod_write_overhead}
use linux_ptp_driver_package.Idt82p33.Firmware.{Image, idt82p33_load_firmware}
use linux_ptp_driver_package.Idt82p33.Tod.{raw_settime}
use linux_ptp_driver_package.Idt82p33.Output.{idt82p33_sync_tod}
use linux_ptp_driver_package.Bus.Errno.{einval, enotsupp, enodev}
use linux_ptp_driver_package.Idt82p33.Mode.{dpll_set_mode}
use linux_ptp_driver_package.Clockmatrix.Requests.{
  PinFunction, pf_none, pf_extts, pf_perout, pf_physync,
}

abbrev pub reg_soft_reset : ℕ
reg_soft_reset = 0x381

abbrev pub soft_reset_en : ℕ
soft_reset_en = 0x80

abbrev pub default_pll_mask : ℕ
default_pll_mask = 0x01

abbrev pub default_output_mask_pll0 : ℕ
default_output_mask_pll0 = 0xc0

unfoldable pub idt82p33_verify_pin : PinFunction → ℤ
idt82p33_verify_pin pf_none = pos 0
idt82p33_verify_pin pf_extts = pos 0
idt82p33_verify_pin pf_perout = negsuc 0
idt82p33_verify_pin pf_physync = negsuc 0

-- What `ptp_clock_register` gives: a clock, an error pointer, or NULL.
pub data Registration : Type 0 where
  registered : Registration
  refused : ℤ → Registration
  disabled : Registration

-- The fields of a channel that its number fixes.
abbrev pub channel_registers : ℕ → Channel → Channel
channel_registers index c =
    if index == 0
    then record c {
      dpll_tod_cnfg = 0x134;
      dpll_tod_trigger = 0x115;
      dpll_tod_sts = 0x10B;
      dpll_mode_cnfg = 0x120;
      dpll_freq_cnfg = 0x12C;
      dpll_phase_cnfg = 0x143;
      dpll_sync_cnfg = 0x140;
      dpll_input_mode_cnfg = 0x116;
    }
    else record c {
      dpll_tod_cnfg = 0x1B4;
      dpll_tod_trigger = 0x195;
      dpll_tod_sts = 0x18B;
      dpll_mode_cnfg = 0x1A0;
      dpll_freq_cnfg = 0x1AC;
      dpll_phase_cnfg = 0x1C3;
      dpll_sync_cnfg = 0x1C0;
      dpll_input_mode_cnfg = 0x196;
    }

-- A channel of the zeroed structure.
abbrev pub zeroed_channel : Channel
zeroed_channel = record {
  ptp_clock = false;
  pll_mode = pll_mode_automatic;
  current_freq = pos 0;
  ddco = false;
  output_mask = 0;
  tod_trigger = 0;
  discard_next_extts = false;
  plln = 0;
  extts_tod_sts = replicate tod_byte_count 0;
  dpll_tod_cnfg = 0;
  dpll_tod_trigger = 0;
  dpll_tod_sts = 0;
  dpll_mode_cnfg = 0;
  dpll_freq_cnfg = 0;
  dpll_phase_cnfg = 0;
  dpll_sync_cnfg = 0;
  dpll_input_mode_cnfg = 0;
}

-- The state that `idt82p33_probe` starts from.
abbrev pub initial : {Dev : Type 0} → Dev → Idt82p33 Dev
initial d = record {
  channel = λ i. record zeroed_channel { output_mask = default_output_mask_pll0 };
  pll_mask = default_pll_mask;
  extts_mask = 0;
  extts_single_shot = false;
  event_channel = λ i. 0;
  start_time = pos 0;
  calculate_overhead_flag = 0;
  tod_write_overhead_ns = pos 0;
  requests = [];
  dev = d;
}

module _ {Dev : Type 0} where
  unfoldable pub idt82p33_channel_init : ℕ → M (Idt82p33 Dev) (Unit {0})
  idt82p33_channel_init index =
      if ltb index 2
      then modify_channel index
          (λ c. record (channel_registers index c) { plln = index; current_freq = pos 0 })
      else throw einval

  -- One round of `idt82p33_ptp_clock_unregister_all`.
  unfoldable pub unregister_one : ℕ → M (Idt82p33 Dev) (Unit {0})
  unregister_one i = do
    request (cancel_adjtime i)
    s ← get
    if (s.channel i).ptp_clock then request (clock_unregister i) else pure tt

  unfoldable pub idt82p33_ptp_clock_unregister_all : M (Idt82p33 Dev) (Unit {0})
  idt82p33_ptp_clock_unregister_all = do unregister_one 0; unregister_one 1

  unfoldable pub idt82p33_remove : M (Idt82p33 Dev) (Unit {0})
  idt82p33_remove = do request cancel_extts; idt82p33_ptp_clock_unregister_all

module _ {Dev : Type 0} (regmap : Regmap Dev) (kernel : Kernel Dev) where
  unfoldable pub idt82p33_enable_tod : (ℕ → ℕ) → ℕ → M (Idt82p33 Dev) (Unit {0})
  idt82p33_enable_tod stale i = do
    measure_tod_write_overhead regmap kernel i stale
    raw_settime regmap kernel i (record { tv_sec = pos 0; tv_nsec = pos 0 })
    idt82p33_sync_tod regmap i true

  -- `ptp_clock_register` is what that function gives for each channel.
  unfoldable pub idt82p33_enable_channel :
      (ℕ → ℕ) → (ℕ → Registration) → ℕ → M (Idt82p33 Dev) (Unit {0})
  idt82p33_enable_channel stale ptp_clock_register index =
      if ltb index max_phc_pll
      then (do
        idt82p33_channel_init index
        elim (ptp_clock_register index) [
          | refused e ↦ (do modify_channel index (λ c. record c { ptp_clock = false }); throw e)
          | disabled ↦ (do
            modify_channel index (λ c. record c { ptp_clock = false })
            throw enotsupp)
          | registered ↦ (do
            modify_channel index (λ c. record c { ptp_clock = true })
            dpll_set_mode regmap index pll_mode_dco
            idt82p33_enable_tod stale index)
        ])
      else throw einval

  unfoldable pub idt82p33_reset : Bool → M (Idt82p33 Dev) (Unit {0})
  idt82p33_reset cold = if cold then write_u8 regmap reg_soft_reset soft_reset_en else (do
    cfg ← read_u8 regmap reg_soft_reset
    write_u8 regmap reg_soft_reset (bit_or cfg soft_reset_en))

  -- One round of the loop of `idt82p33_probe`.
  unfoldable pub set_up_channel : (ℕ → ℕ) → (ℕ → Registration) → ℕ → M (Idt82p33 Dev) (Unit {0})
  set_up_channel stale ptp_clock_register i = do
    s ← get
    if bit_and s.pll_mask (2 ^ i) == 0
        then idt82p33_channel_init i
        else idt82p33_enable_channel stale ptp_clock_register i

  unfoldable pub set_up_channels : (ℕ → ℕ) → (ℕ → Registration) → M (Idt82p33 Dev) (Unit {0})
  set_up_channels stale ptp_clock_register = do
    s ← get
    if s.pll_mask == 0 then throw enodev else (do
      set_up_channel stale ptp_clock_register 0
      set_up_channel stale ptp_clock_register 1)

  -- The state is the one that `initial` gives. A failure of the resets or of the firmware is only
  -- logged.
  unfoldable pub idt82p33_probe : (ℕ → ℕ) → (ℕ → Registration) → Image → M (Idt82p33 Dev) (Unit {0})
  idt82p33_probe stale ptp_clock_register image = do
    ignore (idt82p33_reset true)
    ignore (idt82p33_load_firmware regmap image)
    ignore (idt82p33_reset false)
    λ s. elim (set_up_channels stale ptp_clock_register s) [
      | ok u t ↦ ok u t
      | fail e t ↦ (do idt82p33_ptp_clock_unregister_all; throw e) t
    ]
