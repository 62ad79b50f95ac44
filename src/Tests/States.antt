-- ===== src/Tests/States.antt =====
-- Driver states, and a kernel, for the tests of the PTP drivers.
use linux_ptp_driver_package.Prelude.{ℕ, true, false, []}
use linux_ptp_driver_package.Clockmatrix.State.{
  Channel, write_frequency, Idtcm, write_frequency, v_default, by_pll_mode,
}
use linux_ptp_driver_package.Bus.{Outcome, ok, fail}
use linux_ptp_driver_package.Prelude.Int.{pos}
use linux_ptp_driver_package.Clockmatrix.Kernel.{Kernel}

-- The state that a call leaves behind.
abbrev pub left_by : {S A : Type 0} → Outcome S A → S
left_by (ok a s) = s
left_by (fail e s) = s

abbrev pub blank_channel : ℕ → Channel
blank_channel i = record {
  dpll_phase = 0x2010c818;
  dpll_freq = 0x2010c838;
  dpll_n = 0x2010c3b0;
  dpll_ctrl_n = 0x2010c600;
  dpll_phase_pull_in = 0x2010c880;
  tod_read_primary = 0x2010cc40;
  tod_read_secondary = 0x2010cc90;
  tod_write = 0x2010cc00;
  tod_n = 0x2010cbcc;
  hw_dpll_n = 0x20108a00;
  sync_src = 0;
  max_adj = 244000;
  ptp_clock = true;
  mode = write_frequency;
  operations = by_pll_mode;
  current_freq_scaled_ppm = pos 0;
  phase_pull_in = false;
  dco_delay = 0;
  refn = 0;
  pll = i;
  tod = i;
  output_mask = 1;
}

abbrev pub blank : Idtcm (ℕ → ℕ)
blank = record {
  channel = blank_channel;
  tod_mask = 1;
  fw_ver = v_default;
  extts_mask = 0;
  extts_single_shot = false;
  event_channel = λ i. 0;
  calculate_overhead_flag = 0;
  tod_write_overhead_ns = pos 0;
  start_time = pos 0;
  requests = [];
  dev = λ a. 3;
}

-- A kernel whose clock stands still, where each channel has its pin.
abbrev pub still : Kernel (ℕ → ℕ)
still = record {
  ktime_get_raw = λ d. (pos 0, d);
  timespec64_to_ns = λ ts. ts.tv_nsec;
  ns_to_timespec64 = λ n. record { tv_sec = pos 0; tv_nsec = n };
  timespec64_add_ns = λ ts n. ts;
  find_pin = λ i tod. pos tod;
}
