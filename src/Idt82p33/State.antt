-- ===== src/Idt82p33/State.antt =====
-- drivers/ptp/ptp_idt82p33.h and linux/mfd/idt82p33_reg.h: the driver's state and registers, and the
-- access functions of drivers/ptp/ptp_idt82p33.c.
use linux_ptp_driver_package.Prelude.{
  ℕ, ◌*◌, ◌%◌, ◌^◌, bit_and, bit_or, Bool, List, [], ◌∷◌, ◌++◌, if◌then◌else◌, ◌==◌, get_or,
}
use linux_ptp_driver_package.Prelude.Int.{ℤ}
use linux_ptp_driver_package.Bus.{M, ok, ◌>>=◌, fail, pure}
use linux_ptp_driver_package.Bus.Regmap.{Regmap}

-- `struct idt82p33_channel`. The function table is left out, the pointer back is the state itself;
-- `ptp_clock` is whether a clock is registered. `pll_mode` is a number of `enum pll_mode`.
pub record Channel : Type 0 where
  pub ptp_clock : Bool
  pub pll_mode : ℕ
  pub current_freq : ℤ
  pub ddco : Bool
  pub output_mask : ℕ
  pub tod_trigger : ℕ
  pub discard_next_extts : Bool
  pub plln : ℕ
  pub extts_tod_sts : List ℕ
  pub dpll_tod_cnfg : ℕ
  pub dpll_tod_trigger : ℕ
  pub dpll_tod_sts : ℕ
  pub dpll_mode_cnfg : ℕ
  pub dpll_freq_cnfg : ℕ
  pub dpll_phase_cnfg : ℕ
  pub dpll_sync_cnfg : ℕ
  pub dpll_input_mode_cnfg : ℕ

-- What the driver asked of the kernel: delayed work, which `cancel_` takes back, workers and events.
pub data Request : Type 0 where
  schedule_extts : ℕ → Request
  cancel_extts : Request
  schedule_worker : ℕ → ℕ → Request
  schedule_adjtime : ℕ → Request
  cancel_adjtime : ℕ → Request
  clock_unregister : ℕ → Request
  extts_event : ℕ → ℕ → ℤ → Request

-- `struct idt82p33`. `channel i` is used for `i` below `max_phc_pll`; `event_channel` holds indices.
pub record Idt82p33 (Dev : Type 0) : Type 0 where
  pub channel : ℕ → Channel
  pub pll_mask : ℕ
  pub extts_mask : ℕ
  pub extts_single_shot : Bool
  pub event_channel : ℕ → ℕ
  pub start_time : ℤ
  pub calculate_overhead_flag : ℕ
  pub tod_write_overhead_ns : ℤ
  pub requests : List Request
  pub dev : Dev

abbrev pub max_phc_pll : ℕ
max_phc_pll = 2

abbrev pub tod_byte_count : ℕ
tod_byte_count = 10

abbrev pub dco_max_ppb : ℕ
dco_max_ppb = 92000

abbrev pub pll_mode_mask : ℕ
pll_mode_mask = 0x1F

abbrev pub pll_mode_automatic : ℕ
pll_mode_automatic = 0

abbrev pub pll_mode_force_holdover : ℕ
pll_mode_force_holdover = 2

abbrev pub pll_mode_dco : ℕ
pll_mode_dco = 10

abbrev pub pll_mode_wph : ℕ
pll_mode_wph = 18

-- `REG_ADDR(page, offset)`.
abbrev pub reg_addr : ℕ → ℕ → ℕ
reg_addr page offset = bit_or (page * 2 ^ 7) (bit_and offset 0x7f)

-- An assignment to fields of one channel.
abbrev pub set_channel : {Dev : Type 0} → Idt82p33 Dev → ℕ → Channel → Idt82p33 Dev
set_channel s i c = record s { channel = λ j. if j == i then c else s.channel j }

module _ {Dev : Type 0} where
  abbrev pub request : Request → M (Idt82p33 Dev) (Unit {0})
  request r s = ok tt (record s { requests = s.requests ++ (r ∷ []) })

  abbrev pub modify_channel : ℕ → (Channel → Channel) → M (Idt82p33 Dev) (Unit {0})
  modify_channel i f s = ok tt (set_channel s i (f (s.channel i)))

module _ {Dev : Type 0} (regmap : Regmap Dev) where
  -- An access to the chip, which leaves the driver's own fields alone.
  abbrev pub on_chip : {A : Type 0} → M Dev A → M (Idt82p33 Dev) A
  on_chip m s = elim (m s.dev) [
    | ok a d ↦ ok a (record s { dev = d })
    | fail e d ↦ fail e (record s { dev = d })
  ]

  -- `regaddr` is a `u16`.
  unfoldable pub idt82p33_read : ℕ → ℕ → M (Idt82p33 Dev) (List ℕ)
  idt82p33_read regaddr count = on_chip (regmap.bulk_read (regaddr % 2 ^ 16) count)

  unfoldable pub idt82p33_write : ℕ → List ℕ → M (Idt82p33 Dev) (Unit {0})
  idt82p33_write regaddr buf = on_chip (regmap.bulk_write (regaddr % 2 ^ 16) buf)

  -- `&val, sizeof(val)` for a `u8 val`.
  unfoldable pub read_u8 : ℕ → M (Idt82p33 Dev) ℕ
  unfolding idt82p33_read
  read_u8 regaddr = do bs ← idt82p33_read regaddr 1; pure (get_or bs 0 0)

  unfoldable pub write_u8 : ℕ → ℕ → M (Idt82p33 Dev) (Unit {0})
  unfolding idt82p33_write
  write_u8 regaddr val = idt82p33_write regaddr (val ∷ [])
