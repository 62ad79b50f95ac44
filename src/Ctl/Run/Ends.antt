-- ===== src/Ctl/Run/Ends.antt =====
-- rsmu_ctl/rsmu_ctl.c: how the commands, the loop over them and the program end.
use linux_ptp_driver_package.Prelude.{
  ℕ, zero, suc, Option, none, some, List, [], ◌∷◌, Bool, true, false, drop, length, ◌≡◌, ◌≤◌, arith,
  refl,
}
use linux_ptp_driver_package.Misc.Cdev.{Ioctl, Result}
use linux_ptp_driver_package.Prelude.Int.{ℤ, negsuc, pos}
use linux_ptp_driver_package.Ctl.Arguments.{
  Command, get_command_function, find_command, starts_with,
}
use linux_ptp_driver_package.Ctl.Commands.{Run, returns, hangs}
use linux_ptp_driver_package.Ctl.Run.{
  action, optional_action, run_from, exit_code, continue, main, run_cmds, exit, commands_of,
}
use linux_ptp_driver_package.Ctl.Commands.Returns.{
  Returns, do_get_current_clock_index-Returns, do_get_ffo-Returns,
  do_get_reference_monitor_status-Returns, do_get_state-Returns, do_rd-Returns,
  do_set_combo_mode-Returns, do_set_holdover_mode-Returns, do_set_output_tdc_go-Returns,
  do_wr-Returns,
}

-- The program, once the device is open, ends with 0, -2 or -3.
abbrev pub IsExit : ℤ → Type 0
IsExit (pos n) = n ≡ 0
IsExit (negsuc n) = (1 ≤ n) × (n ≤ 2)

abbrev pub Exits : {S : Type 0} → Option (Run S) → Type 0
Exits none = ⊥
Exits (some hangs) = ⊥
Exits (some (returns e t)) = IsExit e

-- The loop returns a number that `main` turns into such an exit.
abbrev EndsAtExit : {S : Type 0} → Option (Run S) → Type 0
EndsAtExit {S} outcome = (r : ℤ) × (t : S) × (outcome ≡ some (returns r t)) × IsExit (exit_code r)

abbrev pub may_hang : Option Command → Bool
may_hang (some Command.set_clock_priorities) = true
may_hang (some Command.wait) = true
may_hang other = false

-- No argument begins with the name of a command that may not return.
abbrev pub Without : List (List ℕ) → Type 0
Without [] = Unit
Without (arg ∷ args) = (may_hang (get_command_function arg) ≡ false) × Without args

Without-drop : (n : ℕ) (args : List (List ℕ)) → Without args → Without (drop n args)
Without-drop zero args w = w
Without-drop (suc n) [] w = w
Without-drop (suc n) (arg ∷ args) (first, w) = Without-drop n args w

length-drop : (n m : ℕ) (args : List (List ℕ)) → length args ≤ m → length (drop n args) ≤ m
length-drop zero m args h = h
length-drop (suc n) m [] h = h
length-drop (suc n) m (arg ∷ args) h = length-drop n m args (omega (arith, h))

commands_of-Without : (cmdv : List (List ℕ)) → Without cmdv → Without (commands_of cmdv)
unfolding get_command_function find_command starts_with
commands_of-Without [] w = (refl, tt)
commands_of-Without (arg ∷ args) w = w

exit-some : {S : Type 0} (outcome : Option (Run S)) → ¬ (outcome ≡ none) → ¬ (exit outcome ≡ none)
exit-some none h = h
exit-some (some hangs) h = λ e. cc
exit-some (some (returns r t)) h = λ e. cc

exit-Exits : {S : Type 0} (outcome : Option (Run S)) → EndsAtExit outcome → Exits (exit outcome)
exit-Exits outcome (r, t, e, h) = rw e h

module _ {S : Type 0} (ioctl : Ioctl → S → Result S Ioctl) (wait_of : List ℕ → Option Bool) where
  action-Returns :
      (cmd : Command) (args : List (List ℕ)) (s : S)
      → may_hang (some cmd) ≡ false
      → Returns (action ioctl wait_of cmd args s)
  action-Returns Command.get_current_clock_index args s other =
      do_get_current_clock_index-Returns ioctl wait_of args s
  action-Returns Command.get_ffo args s other = do_get_ffo-Returns ioctl wait_of args s
  action-Returns Command.get_reference_monitor_status args s other =
      do_get_reference_monitor_status-Returns ioctl wait_of args s
  action-Returns Command.get_state args s other = do_get_state-Returns ioctl wait_of args s
  action-Returns Command.rd args s other = do_rd-Returns ioctl wait_of args s
  action-Returns Command.set_clock_priorities args s other = absurd (cc)
  action-Returns Command.set_combo_mode args s other =
      do_set_combo_mode-Returns ioctl wait_of args s
  action-Returns Command.set_holdover_mode args s other =
      do_set_holdover_mode-Returns ioctl wait_of args s
  action-Returns Command.set_output_tdc_go args s other =
      do_set_output_tdc_go-Returns ioctl wait_of args s
  action-Returns Command.wait args s other = absurd (cc)
  action-Returns Command.wr args s other = do_wr-Returns ioctl wait_of args s

  optional_action-Returns :
      (n : ℕ) (cmd : Option Command) (args : List (List ℕ)) (s : S)
      → may_hang cmd ≡ false
      → Returns (optional_action ioctl wait_of n cmd args s)
  optional_action-Returns n none args s h = tt
  optional_action-Returns n (some cmd) args s h = action-Returns cmd args s h

  continue-EndsAtExit :
      (next : ℕ → S → Option (Run S)) (run : Run S)
      → Returns run
      → ((n : ℕ) (t : S) → EndsAtExit (next n t))
      → EndsAtExit (continue next run)
  continue-EndsAtExit next hangs h k = absurd h
  continue-EndsAtExit next (returns (pos n) t) h k = k n t
  continue-EndsAtExit next (returns (negsuc zero) t) h k = (negsuc zero, t, refl, refl)
  continue-EndsAtExit next (returns (negsuc (suc n)) t) h k =
      (negsuc (suc n), t, refl, (omega arith, h))

  run_from-EndsAtExit :
      (fuel n : ℕ) (args : List (List ℕ)) (s : S)
      → length args ≤ fuel
      → Without args
      → EndsAtExit (run_from ioctl wait_of fuel n args s)
  unfolding run_from
  run_from-EndsAtExit fuel n [] s h w = (pos 0, s, refl, refl)
  run_from-EndsAtExit zero n (arg ∷ args) s h w = absurd (omega (arith, h))
  run_from-EndsAtExit (suc fuel) n (arg ∷ args) s h (first, w) =
      continue-EndsAtExit _ _ (optional_action-Returns n (get_command_function arg) args s first)
        λ m t.
          run_from-EndsAtExit fuel m (drop m args) t (length-drop m fuel args (omega (arith, h)))
            (Without-drop m args w)

  continue-some :
      (next : ℕ → S → Option (Run S)) (run : Run S)
      → ((n : ℕ) (t : S) → ¬ (next n t ≡ none))
      → ¬ (continue next run ≡ none)
  continue-some next hangs k = λ e. cc
  continue-some next (returns (pos n) t) k = k n t
  continue-some next (returns (negsuc n) t) k = λ e. cc

  run_from-some :
      (fuel n : ℕ) (args : List (List ℕ)) (s : S)
      → length args ≤ fuel
      → ¬ (run_from ioctl wait_of fuel n args s ≡ none)
  unfolding run_from
  run_from-some fuel n [] s h = λ e. cc
  run_from-some zero n (arg ∷ args) s h = absurd (omega (arith, h))
  run_from-some (suc fuel) n (arg ∷ args) s h =
      continue-some _ _
        λ m t. run_from-some fuel m (drop m args) t (length-drop m fuel args (omega (arith, h)))

  -- The rounds of the loop are enough, whatever the arguments and the device do.
  main-some : (cmdv : List (List ℕ)) (s : S) → ¬ (main ioctl wait_of true cmdv s ≡ none)
  unfolding main run_cmds
  main-some cmdv s =
      exit-some _ (run_from-some (length (commands_of cmdv)) 0 (commands_of cmdv) s (omega arith))

  -- Where the device opens and no argument begins with set_clock_priorities or with wait, which may
  -- never return, the program returns if the calls of the device do, whatever the arguments are and the
  -- device answers, and what it returns is 0, -2 or -3.
  pub main-Exits :
      (cmdv : List (List ℕ)) (s : S) → Without cmdv → Exits (main ioctl wait_of true cmdv s)
  unfolding main run_cmds
  main-Exits cmdv s w = exit-Exits _ (
      run_from-EndsAtExit (length (commands_of cmdv)) 0 (commands_of cmdv) s (omega arith)
        (commands_of-Without cmdv w))
