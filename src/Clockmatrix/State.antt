-- ===== src/Clockmatrix/State.antt =====
-- drivers/ptp/ptp_clockmatrix.h and the access functions of drivers/ptp/ptp_clockmatrix.c: the
-- driver's state, with the chip behind the register map and what was asked of the kernel.
use linux_ptp_driver_package.Prelude.{
  ℕ, ◌+◌, ◌%◌, ◌^◌, Bool, List, [], ◌∷◌, ◌++◌, if◌then◌else◌, ltb, ◌==◌, get_or,
}
use linux_ptp_driver_package.Prelude.Int.{ℤ}
use linux_ptp_driver_package.Bus.{M, ok, ◌>>=◌, fail, pure}
use linux_ptp_driver_package.Bus.Regmap.{Regmap}

-- `enum fw_version`.
pub data FwVersion : Type 0 where
  v_default : FwVersion
  v487 : FwVersion
  v520 : FwVersion

abbrev pub rank : FwVersion → ℕ
rank v_default = 0
rank v487 = 1
rank v520 = 2

-- `IDTCM_FW_REG(fw, V520, reg)`: the first of two values below version 5.2.0, else the second.
abbrev pub fw_reg {ℓ} : {A : Type ℓ} → FwVersion → A → A → A
fw_reg fw old new = if ltb (rank fw) (rank v520) then old else new

-- `enum ptp_pll_mode`.
pub data PtpPllMode : Type 0 where
  write_frequency : PtpPllMode
  write_phase : PtpPllMode
  unsupported : PtpPllMode

-- The three function pointers of a channel: none yet, or those that were installed together.
pub data Operations : Type 0 where
  unset : Operations
  by_pll_mode : Operations
  by_manual_reference : Operations

-- `struct idtcm_channel`, without the pointer back. `ptp_clock` is whether a clock is registered.
pub record Channel : Type 0 where
  pub dpll_phase : ℕ
  pub dpll_freq : ℕ
  pub dpll_n : ℕ
  pub dpll_ctrl_n : ℕ
  pub dpll_phase_pull_in : ℕ
  pub tod_read_primary : ℕ
  pub tod_read_secondary : ℕ
  pub tod_write : ℕ
  pub tod_n : ℕ
  pub hw_dpll_n : ℕ
  pub sync_src : ℕ
  pub max_adj : ℕ
  pub ptp_clock : Bool
  pub mode : PtpPllMode
  pub operations : Operations
  pub current_freq_scaled_ppm : ℤ
  pub phase_pull_in : Bool
  pub dco_delay : ℕ
  pub refn : ℕ
  pub pll : ℕ
  pub tod : ℕ
  pub output_mask : ℕ

-- What the driver asked of the kernel: work to be done later, and events for user space.
pub data Request : Type 0 where
  schedule_extts : ℕ → Request
  cancel_extts : Request
  schedule_worker : ℕ → ℕ → Request
  clock_unregister : ℕ → Request
  extts_event : ℕ → ℕ → ℤ → Request

-- `struct idtcm`. `channel i` is used for `i` below `max_tod`; `event_channel` holds indices.
pub record Idtcm (Dev : Type 0) : Type 0 where
  pub channel : ℕ → Channel
  pub tod_mask : ℕ
  pub fw_ver : FwVersion
  pub extts_mask : ℕ
  pub extts_single_shot : Bool
  pub event_channel : ℕ → ℕ
  pub calculate_overhead_flag : ℕ
  pub tod_write_overhead_ns : ℤ
  pub start_time : ℤ
  pub requests : List Request
  pub dev : Dev

abbrev pub max_tod : ℕ
max_tod = 4

abbrev pub max_pll : ℕ
max_pll = 8

-- An assignment to fields of one channel.
abbrev pub set_channel : {Dev : Type 0} → Idtcm Dev → ℕ → Channel → Idtcm Dev
set_channel s i c = record s { channel = λ j. if j == i then c else s.channel j }

abbrev pub request : {Dev : Type 0} → Request → M (Idtcm Dev) (Unit {0})
request r s = ok tt (record s { requests = s.requests ++ (r ∷ []) })

module _ {Dev : Type 0} (regmap : Regmap Dev) where
  -- An access to the chip, which leaves the driver's own fields alone.
  abbrev pub on_chip : {A : Type 0} → M Dev A → M (Idtcm Dev) A
  on_chip m s = elim (m s.dev) [
    | ok a d ↦ ok a (record s { dev = d })
    | fail e d ↦ fail e (record s { dev = d })
  ]

  unfoldable pub idtcm_read : ℕ → ℕ → ℕ → M (Idtcm Dev) (List ℕ)
  idtcm_read module_addr regaddr count =
      on_chip (regmap.bulk_read ((module_addr + regaddr) % 2 ^ 32) count)

  unfoldable pub idtcm_write : ℕ → ℕ → List ℕ → M (Idtcm Dev) (Unit {0})
  idtcm_write module_addr regaddr buf =
      on_chip (regmap.bulk_write ((module_addr + regaddr) % 2 ^ 32) buf)

  -- `&val, sizeof(val)` for a `u8 val`.
  unfoldable pub read_u8 : ℕ → ℕ → M (Idtcm Dev) ℕ
  unfolding idtcm_read
  read_u8 module_addr regaddr = do bs ← idtcm_read module_addr regaddr 1; pure (get_or bs 0 0)

  unfoldable pub write_u8 : ℕ → ℕ → ℕ → M (Idtcm Dev) (Unit {0})
  unfolding idtcm_write
  write_u8 module_addr regaddr val = idtcm_write module_addr regaddr (val ∷ [])
