-- ===== src/Clockmatrix/Boot.antt =====
-- drivers/ptp/ptp_clockmatrix.c: waiting for the chip to be up, and resetting it. Sleeps are left
-- out; the time that a poll takes is the kernel's.
use linux_ptp_driver_package.Clockmatrix.State.{
  Idtcm, idtcm_write, read_u8, idtcm_read, write_u8, fw_reg,
}
use linux_ptp_driver_package.Prelude.{
  ◌*◌, ◌^◌, ℕ, zero, suc, bit_and, bit_or, ◌&&◌, ◌||◌, List, get_or, if◌then◌else◌, replicate, ◌==◌,
}
use linux_ptp_driver_package.Bus.Regmap.{Regmap}
use linux_ptp_driver_package.Bus.{M, ◌>>=◌, throw, ◌>>◌, pure, ignore, ok, get, fail}
use linux_ptp_driver_package.Clockmatrix.Registers.{
  general_status, status, boot_status, dpll_sys_apll_status, dpll_sys_status, reset_ctrl, sm_reset,
  sm_reset_v520,
}
use linux_ptp_driver_package.Bus.Errno.{ebusy, etime, eperm}

abbrev pub boot_done : ℕ
boot_done = 0xA0

abbrev pub sm_reset_cmd : ℕ
sm_reset_cmd = 0x5A

abbrev pub sys_apll_loss_lock_live_mask : ℕ
sys_apll_loss_lock_live_mask = 0x1

abbrev pub dpll_sys_state_mask : ℕ
dpll_sys_state_mask = 0xf

-- `enum dpll_state`, numbers as they are read from the register.
abbrev pub dpll_state_freerun : ℕ
dpll_state_freerun = 0

abbrev pub dpll_state_locked : ℕ
dpll_state_locked = 3

abbrev pub dpll_state_holdover : ℕ
dpll_state_holdover = 4

abbrev pub dpll_state_open_loop : ℕ
dpll_state_open_loop = 5

-- `(buf[3] << 24) | (buf[2] << 16) | (buf[1] << 8) | buf[0]`.
abbrev pub word_of : List ℕ → ℕ
word_of buf =
    bit_or
      (bit_or (bit_or (get_or buf 3 0 * 2 ^ 24) (get_or buf 2 0 * 2 ^ 16)) (get_or buf 1 0 * 2 ^ 8))
      (get_or buf 0 0)

module _ {Dev : Type 0} (regmap : Regmap Dev) where
  unfoldable pub clear_boot_status : M (Idtcm Dev) (Unit {0})
  clear_boot_status = idtcm_write regmap general_status boot_status (replicate 4 0)

  unfoldable pub read_boot_status : M (Idtcm Dev) ℕ
  read_boot_status = do buf ← idtcm_read regmap general_status boot_status 4; pure (word_of buf)

  -- The loop, with the given number of rounds to go; the source starts with 30.
  unfoldable pub poll_boot_status : ℕ → M (Idtcm Dev) (Unit {0})
  poll_boot_status zero = throw ebusy
  poll_boot_status (suc rounds) =
      let rest = poll_boot_status rounds in
      (do word ← read_boot_status; if word == boot_done then pure tt else rest)

  unfoldable pub wait_for_boot_status_ready : M (Idtcm Dev) (Unit {0})
  wait_for_boot_status_ready = poll_boot_status 30

  unfoldable pub read_sys_apll_status : M (Idtcm Dev) ℕ
  read_sys_apll_status = read_u8 regmap status dpll_sys_apll_status

  unfoldable pub read_sys_dpll_status : M (Idtcm Dev) ℕ
  read_sys_dpll_status = read_u8 regmap status dpll_sys_status

  -- The loop, for as many rounds as fit in the two seconds; at least one.
  unfoldable pub poll_lock : ℕ → M (Idtcm Dev) (Unit {0})
  poll_lock zero = throw etime
  poll_lock (suc rounds) =
      let rest = poll_lock rounds in
      (do
        apll_status ← read_sys_apll_status
        dpll_status ← read_sys_dpll_status
        let apll = bit_and apll_status sys_apll_loss_lock_live_mask
        let dpll = bit_and dpll_status dpll_sys_state_mask
        if (apll == 0) && (dpll == dpll_state_locked)
            then pure tt
            else if (dpll == dpll_state_freerun)
                || ((dpll == dpll_state_holdover) || (dpll == dpll_state_open_loop))
            then throw eperm
            else rest)

  unfoldable pub wait_for_sys_apll_dpll_lock : ℕ → M (Idtcm Dev) (Unit {0})
  wait_for_sys_apll_dpll_lock polls = poll_lock (suc polls)

  unfoldable pub wait_for_chip_ready : ℕ → M (Idtcm Dev) (Unit {0})
  wait_for_chip_ready polls = do
    ignore wait_for_boot_status_ready
    ignore (wait_for_sys_apll_dpll_lock polls)

  -- The loop after a reset, which goes on over errors: a read that fails leaves a `status` of 0,
  -- since its buffer starts at 0.
  unfoldable pub poll_reset : ℕ → M (Idtcm Dev) (Unit {0})
  poll_reset zero s = ok tt s
  poll_reset (suc rounds) s =
      let rest = poll_reset rounds in
      elim (read_boot_status s) [
        | ok word t ↦ if word == boot_done then ok tt t else rest t
        | fail e t ↦ rest t
      ]

  unfoldable pub idtcm_state_machine_reset : M (Idtcm Dev) (Unit {0})
  idtcm_state_machine_reset = do
    ignore clear_boot_status
    idtcm ← get
    write_u8 regmap reset_ctrl (fw_reg idtcm.fw_ver sm_reset sm_reset_v520) sm_reset_cmd
    poll_reset 30
