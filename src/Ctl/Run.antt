-- ===== src/Ctl/Run.antt =====
-- rsmu_ctl/rsmu_ctl.c: the loop that runs the commands, and what the program returns.
pub mod Ends
use linux_ptp_driver_package.Prelude.{
  ℕ, zero, suc, Option, none, some, List, [], ◌∷◌, Bool, drop, length, true, false,
}
use linux_ptp_driver_package.Misc.Cdev.{Ioctl, Result}
use linux_ptp_driver_package.Prelude.Int.{ℤ, negsuc, pos}
use linux_ptp_driver_package.Ctl.Arguments.{
  Command, get_command_function, codes, get_current_clock_index, get_ffo,
  get_reference_monitor_status, get_state, rd, set_clock_priorities, set_combo_mode,
  set_holdover_mode, set_output_tdc_go,
}
use linux_ptp_driver_package.Ctl.Commands.{
  Run, returns, hangs, do_get_current_clock_index, do_get_ffo, do_get_reference_monitor_status,
  do_get_state, do_rd, do_set_clock_priorities, do_set_combo_mode, do_set_holdover_mode,
  do_set_output_tdc_go, do_wait, do_wr,
}

-- The test of the result after a round: a negative one ends the loop, any other goes on.
abbrev pub continue : {S : Type 0} → (ℕ → S → Option (Run S)) → Run S → Option (Run S)
continue next hangs = some hangs
continue next (returns (pos n) t) = next n t
continue next (returns (negsuc n) t) = some (returns (negsuc n) t)

-- What `main` returns after the loop.
abbrev pub exit_code : ℤ → ℤ
exit_code (pos n) = pos 0
exit_code (negsuc zero) = pos 0
exit_code (negsuc (suc n)) = negsuc (suc n)

abbrev pub exit : {S : Type 0} → Option (Run S) → Option (Run S)
exit none = none
exit (some hangs) = some hangs
exit (some (returns result t)) = some (returns (exit_code result) t)

-- The commands after the name of the device.
abbrev pub commands_of : List (List ℕ) → List (List ℕ)
commands_of [] = codes "get_state" ∷ []
commands_of (arg ∷ args) = arg ∷ args

module _ {S : Type 0} (ioctl : Ioctl → S → Result S Ioctl) (wait_of : List ℕ → Option Bool) where
  abbrev pub action : Command → List (List ℕ) → S → Run S
  action Command.get_current_clock_index = do_get_current_clock_index ioctl wait_of
  action Command.get_ffo = do_get_ffo ioctl wait_of
  action Command.get_reference_monitor_status = do_get_reference_monitor_status ioctl wait_of
  action Command.get_state = do_get_state ioctl wait_of
  action Command.rd = do_rd ioctl wait_of
  action Command.set_clock_priorities = do_set_clock_priorities ioctl wait_of
  action Command.set_combo_mode = do_set_combo_mode ioctl wait_of
  action Command.set_holdover_mode = do_set_holdover_mode ioctl wait_of
  action Command.set_output_tdc_go = do_set_output_tdc_go ioctl wait_of
  action Command.wait = do_wait ioctl wait_of
  action Command.wr = do_wr ioctl wait_of

  -- After an unknown name the result is still that of the round before.
  abbrev pub optional_action : ℕ → Option Command → List (List ℕ) → S → Run S
  optional_action result none args s = returns (pos result) s
  optional_action result (some cmd) args s = action cmd args s

  -- The loop from the result of the round before; `none` where the rounds run out, which is not an
  -- outcome of the program.
  unfoldable pub run_from : ℕ → ℕ → List (List ℕ) → S → Option (Run S)
  run_from fuel result [] s = some (returns (pos 0) s)
  run_from zero result (arg ∷ args) s = none
  run_from (suc fuel) result (arg ∷ args) s =
      continue (λ n t. run_from fuel n (drop n args) t)
        (optional_action result (get_command_function arg) args s)

  unfoldable pub run_cmds : List (List ℕ) → S → Option (Run S)
  run_cmds cmdv = run_from (length cmdv) 0 cmdv

  -- From the opening of the device, which may fail.
  unfoldable pub main : Bool → List (List ℕ) → S → Option (Run S)
  main false cmdv s = some (returns (negsuc 0) s)
  main true cmdv s = exit (run_cmds (commands_of cmdv) s)
