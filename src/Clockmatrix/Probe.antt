-- ===== src/Clockmatrix/Probe.antt =====
-- drivers/ptp/ptp_clockmatrix.c: reading the version of a chip, and attaching to it and leaving it.
use Prim.Native.String.{String}
use linux_ptp_driver_package.Prelude.{ℕ, ◌/◌, ◌^◌, bit_and, ◌⊎◌, List, if◌then◌else◌, ◌==◌}
use linux_ptp_driver_package.Bus.{M, ◌>>=◌, ◌>>◌, get, ok, fail, put, pure, throw, ignore}
use linux_ptp_driver_package.Bus.Regmap.{Regmap}
use linux_ptp_driver_package.Clockmatrix.State.{
  Idtcm, read_u8, request, cancel_extts, clock_unregister, idtcm_read,
}
use linux_ptp_driver_package.Clockmatrix.Kernel.{Kernel}
use linux_ptp_driver_package.Clockmatrix.Version.{Scan, idtcm_fw_version}
use linux_ptp_driver_package.Prelude.Int.{ℤ, eqb_ℤ}
use linux_ptp_driver_package.Clockmatrix.Registers.{general_status, maj_rel, min_rel, hotfix_rel}
use linux_ptp_driver_package.Clockmatrix.Boot.{wait_for_chip_ready}
use linux_ptp_driver_package.Clockmatrix.Firmware.{Fwrc}
use linux_ptp_driver_package.Clockmatrix.Setup.{
  set_default_masks, idtcm_enable_extts_channel, idtcm_load_firmware, idtcm_enable_channel,
}
use linux_ptp_driver_package.Bus.Errno.{enodev, enoent, eprobe_defer}

abbrev pub product_id : ℕ
product_id = 0x001e

abbrev pub otp_scsr_config_select : ℕ
otp_scsr_config_select = 0x0022

abbrev pub hw_revision : ℕ
hw_revision = 0x20108180

abbrev pub rev_id : ℕ
rev_id = 0x007a

module _ {Dev : Type 0} where
  -- One round of `ptp_clock_unregister_all`.
  unfoldable pub unregister_one : ℕ → M (Idtcm Dev) (Unit {0})
  unregister_one i = do
    s ← get
    if (s.channel i).ptp_clock then request (clock_unregister i) else pure tt

  unfoldable pub ptp_clock_unregister_all : M (Idtcm Dev) (Unit {0})
  ptp_clock_unregister_all = do
    unregister_one 0
    unregister_one 1
    unregister_one 2
    unregister_one 3

  unfoldable pub idtcm_remove : M (Idtcm Dev) (Unit {0})
  idtcm_remove = do
    s ← get
    put (record s { extts_mask = 0 })
    ptp_clock_unregister_all
    request cancel_extts

module _ {Dev : Type 0} (regmap : Regmap Dev) (kernel : Kernel Dev) where
  -- A byte that is read, or what the variable holds where the read fails.
  abbrev pub read_or_keep : ℕ → ℕ → ℕ → M (Idtcm Dev) ℕ
  read_or_keep base reg val s = elim (read_u8 regmap base reg s) [
    | ok v t ↦ ok v t
    | fail e t ↦ ok val t
  ]

  -- The variable is set to 0 first.
  unfoldable pub idtcm_read_major_release : M (Idtcm Dev) ℕ
  idtcm_read_major_release = do buf ← read_or_keep general_status maj_rel 0; pure (buf / 2)

  -- The version is printed and scanned again. `stale` is what the variables for the minor and the
  -- hotfix number hold. What else is read is only logged.
  unfoldable pub idtcm_set_version_info :
      Scan → (ℕ → ℕ → ℕ → String) → ℕ × ℕ → M (Idtcm Dev) (Unit {0})
  idtcm_set_version_info sscanf snprintf stale = do
    major ← idtcm_read_major_release
    minor ← read_or_keep general_status min_rel stale.0
    hotfix ← read_or_keep general_status hotfix_rel stale.1
    ignore (idtcm_read regmap general_status product_id 2)
    ignore (read_u8 regmap hw_revision rev_id)
    ignore (read_u8 regmap general_status otp_scsr_config_select)
    s ← get
    put (record s { fw_ver = idtcm_fw_version sscanf (snprintf major minor hotfix) })

  -- One round of the loop of `idtcm_probe`.
  unfoldable pub set_up_channel : (ℕ → ℤ) → ℕ → M (Idtcm Dev) (Unit {0})
  set_up_channel register i = do
    s ← get
    if bit_and s.tod_mask (2 ^ i) == 0
        then idtcm_enable_extts_channel regmap kernel i
        else idtcm_enable_channel regmap kernel register i

  unfoldable pub set_up_channels : (ℕ → ℤ) → M (Idtcm Dev) (Unit {0})
  set_up_channels register = do
    s ← get
    if s.tod_mask == 0 then throw enodev else (do
      set_up_channel register 0
      set_up_channel register 1
      set_up_channel register 2
      set_up_channel register 3)

  -- What follows the firmware: a failure unregisters the clocks.
  unfoldable pub bring_up : ℕ → (ℕ → ℤ) → M (Idtcm Dev) (Unit {0})
  bring_up polls register = do
    wait_for_chip_ready regmap polls
    λ s. elim (set_up_channels register s) [
      | ok u t ↦ ok u t
      | fail e t ↦ (do ptp_clock_unregister_all; throw e) t
    ]

  -- The state is the zeroed one. Where there is no image the attempt is put off, with nothing undone;
  -- any other failure of the firmware is only logged.
  unfoldable pub idtcm_probe :
      Scan → (ℕ → ℕ → ℕ → String) → ℕ × ℕ → ℕ → (ℕ → ℤ) → ℤ ⊎ List Fwrc → M (Idtcm Dev) (Unit {0})
  idtcm_probe sscanf snprintf stale polls register image = do
    zeroed ← get
    put (set_default_masks (record zeroed { calculate_overhead_flag = 0 }))
    idtcm_set_version_info sscanf snprintf stale
    λ s. elim (idtcm_load_firmware regmap kernel image s) [
      | ok u t ↦ bring_up polls register t
      | fail e t ↦ if eqb_ℤ e enoent then fail eprobe_defer t else bring_up polls register t
    ]
