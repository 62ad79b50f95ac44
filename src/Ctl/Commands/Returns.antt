-- ===== src/Ctl/Commands/Returns.antt =====
-- rsmu_ctl/rsmu_ctl.c: how the commands that always return end.
use linux_ptp_driver_package.Prelude.{
  ℕ, Option, none, some, List, [], ◌∷◌, Bool, true, false, drop, length, ◌≤◌, arith, ◌+◌, ◌||◌,
  if◌then◌else◌, ltb,
}
use linux_ptp_driver_package.Misc.Cdev.{
  Ioctl, Result, rsmu_get_current_clock_index_cmd, rsmu_get_ffo_cmd,
  rsmu_get_reference_monitor_status_cmd, rsmu_get_state_cmd,
}
use linux_ptp_driver_package.Prelude.Int.{negsuc, pos, eqb_ℤ}
use linux_ptp_driver_package.Ctl.Arguments.{
  name_is_a_command, handle_count_arg, handle_mode_arg, handle_enable_arg, handle_dpll_arg,
  handle_clock_index_arg,
}
use linux_ptp_driver_package.Ctl.Commands.{
  Run, returns, hangs, call, with_first, missing_argument, do_rd, do_wr, do_set_combo_mode,
  do_set_output_tdc_go, do_set_holdover_mode, do_get_current_clock_index, optional, do_get_ffo,
  do_get_reference_monitor_status, collect_bytes, do_get_state, holdover_mode,
}

-- A command ends with the number of arguments it used, or with -1, -2 or -3.
abbrev pub Returns : {S : Type 0} → Run S → Type 0
Returns hangs = ⊥
Returns (returns (pos n) t) = Unit
Returns (returns (negsuc n) t) = n ≤ 2

if-Returns :
    {S : Type 0} (b : Bool) (x y : Run S) → Returns x → Returns y → Returns (if b then x else y)
if-Returns true x y h k = h
if-Returns false x y h k = k

-- A handler that may refuse its argument.
elim-Returns :
    {S : Type 0} {A : Type 0} (o : Option A) (run : A → Run S) (s : S)
    → ((a : A) → Returns (run a))
    → Returns (elim o [ none ↦ returns missing_argument s | some a ↦ run a ])
elim-Returns none run s h = omega arith
elim-Returns (some a) run s h = h a

module _ {S : Type 0} (ioctl : Ioctl → S → Result S Ioctl) (wait_of : List ℕ → Option Bool) where
  call-Returns : (request : Ioctl) (used : ℕ) (s : S) → Returns (call ioctl wait_of request used s)
  call-Returns request used s =
      let (err, answer, t) = ioctl request s in outcome (eqb_ℤ err (pos 0)) t
    where
      outcome : (b : Bool) (t : S) → Returns (returns (if b then pos used else negsuc 0) t)
      outcome true t = tt
      outcome false t = omega arith

  with_first-Returns :
      (least : ℕ) (handle : List ℕ → Option ℕ) (run : ℕ → List (List ℕ) → S → Run S)
      → ((v : ℕ) (args : List (List ℕ)) (s : S) → Returns (run v args s))
      → (args : List (List ℕ)) (s : S) → Returns (with_first ioctl wait_of least handle run args s)
  with_first-Returns least handle run h [] s = omega arith
  with_first-Returns least handle run h (arg ∷ args) s =
      if-Returns (ltb (length (arg ∷ args)) least || name_is_a_command arg) _ _ (omega arith)
        (elim-Returns (handle arg) (λ v. run v args s) s (λ v. h v args s))

  get-Returns :
      (handle : List ℕ → Option ℕ) (request : ℕ → Ioctl) (args : List (List ℕ)) (s : S)
      → Returns
          (with_first ioctl wait_of 1 handle (λ v args. call ioctl wait_of (request v) 1) args s)
  get-Returns handle request =
      with_first-Returns 1 handle _ λ v args s. call-Returns (request v) 1 s

  pub do_get_current_clock_index-Returns :
      (args : List (List ℕ)) (s : S) → Returns (do_get_current_clock_index ioctl wait_of args s)
  unfolding do_get_current_clock_index
  do_get_current_clock_index-Returns =
      get-Returns handle_dpll_arg
        (λ v. rsmu_get_current_clock_index_cmd (record { dpll = v; clock_index = pos 0 }))

  pub do_get_ffo-Returns :
      (args : List (List ℕ)) (s : S) → Returns (do_get_ffo ioctl wait_of args s)
  unfolding do_get_ffo
  do_get_ffo-Returns =
      get-Returns handle_dpll_arg (λ v. rsmu_get_ffo_cmd (record { dpll = v; ffo = pos 0 }))

  pub do_get_reference_monitor_status-Returns :
      (args : List (List ℕ)) (s : S)
      → Returns (do_get_reference_monitor_status ioctl wait_of args s)
  unfolding do_get_reference_monitor_status
  do_get_reference_monitor_status-Returns =
      get-Returns handle_clock_index_arg (λ v.
        rsmu_get_reference_monitor_status_cmd (record { clock_index = v; alarms = (0, 0, 0) }))

  pub do_get_state-Returns :
      (args : List (List ℕ)) (s : S) → Returns (do_get_state ioctl wait_of args s)
  unfolding do_get_state
  do_get_state-Returns =
      get-Returns handle_dpll_arg (λ v. rsmu_get_state_cmd (record { dpll = v; state = 0 }))

  pub do_rd-Returns : (args : List (List ℕ)) (s : S) → Returns (do_rd ioctl wait_of args s)
  unfolding do_rd
  do_rd-Returns =
      with_first-Returns 1 _ _
        λ v args s. elim-Returns (optional handle_count_arg 1 args) _ s λ x. call-Returns _ _ s

  pub do_wr-Returns : (args : List (List ℕ)) (s : S) → Returns (do_wr ioctl wait_of args s)
  unfolding do_wr
  do_wr-Returns = with_first-Returns 2 _ _ λ v args s.
      elim-Returns (optional handle_count_arg 1 args) _ s λ x.
        if-Returns (ltb (1 + length args) (x.0 + 2)) _ _ (omega arith)
          (elim-Returns (collect_bytes x.0 (drop 1 args)) _ s (λ vs. call-Returns _ _ s))

  pub do_set_combo_mode-Returns :
      (args : List (List ℕ)) (s : S) → Returns (do_set_combo_mode ioctl wait_of args s)
  unfolding do_set_combo_mode
  do_set_combo_mode-Returns =
      with_first-Returns 2 _ _
        λ v args s. elim-Returns (optional handle_mode_arg 0 args) _ s λ x. call-Returns _ _ s

  pub do_set_output_tdc_go-Returns :
      (args : List (List ℕ)) (s : S) → Returns (do_set_output_tdc_go ioctl wait_of args s)
  unfolding do_set_output_tdc_go
  do_set_output_tdc_go-Returns =
      with_first-Returns 2 _ _
        λ v args s. elim-Returns (optional handle_enable_arg 0 args) _ s λ x. call-Returns _ _ s

  pub do_set_holdover_mode-Returns :
      (args : List (List ℕ)) (s : S) → Returns (do_set_holdover_mode ioctl wait_of args s)
  unfolding do_set_holdover_mode
  do_set_holdover_mode-Returns = with_first-Returns 3 _ _ λ v args s.
      elim-Returns (optional handle_enable_arg 0 args) _ s
        λ x. elim-Returns (holdover_mode args) _ s λ y. call-Returns _ _ s
