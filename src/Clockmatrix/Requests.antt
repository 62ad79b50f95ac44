-- ===== src/Clockmatrix/Requests.antt =====
-- drivers/ptp/ptp_clockmatrix.c: the requests of the kernel that switch a function on or off.
use linux_ptp_driver_package.Prelude.{ℕ, Bool, ◌&&◌, ◌==◌, true, false, not, if◌then◌else◌}
use linux_ptp_driver_package.Prelude.Int.{ℤ, eqb_ℤ, pos, negsuc}
use linux_ptp_driver_package.Clockmatrix.Extts.{ExttsRequest, idtcm_extts_enable}
use linux_ptp_driver_package.Bus.Regmap.{Regmap}
use linux_ptp_driver_package.Clockmatrix.Kernel.{Kernel}
use linux_ptp_driver_package.Bus.{M, throw}
use linux_ptp_driver_package.Clockmatrix.State.{Idtcm}
use linux_ptp_driver_package.Clockmatrix.Output.{idtcm_perout_enable}
use linux_ptp_driver_package.Bus.Errno.{erange, eopnotsupp}

-- `struct ptp_perout_request`, of which the drivers read these.
pub record PeroutRequest : Type 0 where
  pub index : ℕ
  pub start_nsec : ℕ
  pub period_sec : ℤ
  pub period_nsec : ℕ

-- `struct ptp_clock_request`.
pub data ClockRequest : Type 0 where
  perout : PeroutRequest → ClockRequest
  extts : ExttsRequest → ClockRequest
  other : ClockRequest

-- Only a pulse per second that is aligned to the second is accepted.
abbrev pub is_one_pps : PeroutRequest → Bool
is_one_pps p = (p.start_nsec == 0) && (eqb_ℤ p.period_sec (pos 1) && (p.period_nsec == 0))

-- `enum ptp_pin_function` of the kernel.
pub data PinFunction : Type 0 where
  pf_none : PinFunction
  pf_extts : PinFunction
  pf_perout : PinFunction
  pf_physync : PinFunction

module _ {Dev : Type 0} (regmap : Regmap Dev) (kernel : Kernel Dev) where
  unfoldable pub idtcm_enable : ℕ → ClockRequest → Bool → M (Idtcm Dev) (Unit {0})
  idtcm_enable i (perout p) on =
      if not on
      then idtcm_perout_enable regmap kernel i p.index false
      else if is_one_pps p
      then idtcm_perout_enable regmap kernel i p.index true
      else throw erange
  idtcm_enable i (extts rq) on = idtcm_extts_enable regmap kernel i rq on
  idtcm_enable i other on = throw eopnotsupp

unfoldable pub idtcm_verify_pin : PinFunction → ℤ
idtcm_verify_pin pf_none = pos 0
idtcm_verify_pin pf_extts = pos 0
idtcm_verify_pin pf_perout = negsuc 0
idtcm_verify_pin pf_physync = negsuc 0
