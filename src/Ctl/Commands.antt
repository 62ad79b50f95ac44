-- ===== src/Ctl/Commands.antt =====
-- rsmu_ctl/rsmu_ctl.c: the commands. What is printed is left out.
pub mod Returns
use mathlib.Core.Option
use linux_ptp_driver_package.Prelude.{
  ℕ, Option, none, some, ◌+◌, ◌-◌, ◌/◌, zero, suc, Bool, ◌||◌, List, [], ◌∷◌, ◌++◌, if◌then◌else◌,
  drop, ltb, length, take, replicate, ◌==◌, get_or, true, false,
}
use linux_ptp_driver_package.Misc.Cdev.{
  Ioctl, Result, rsmu_get_current_clock_index_cmd, rsmu_get_ffo_cmd,
  rsmu_get_reference_monitor_status_cmd, rsmu_get_state_cmd, rsmu_set_clock_priorities_cmd,
  rsmu_reg_read_cmd, rsmu_set_combomode_cmd, rsmu_set_output_tdc_go_cmd, rsmu_reg_write_cmd,
  rsmu_set_holdover_mode_cmd,
}
use linux_ptp_driver_package.Prelude.Int.{ℤ, negsuc, eqb_ℤ, pos}
use linux_ptp_driver_package.Misc.Cm.{PriorityEntry}
use linux_ptp_driver_package.Ctl.Arguments.{
  handle_dpll_arg, handle_clock_index_arg, handle_offset_arg, handle_tdc_arg, name_is_a_command,
  handle_count_arg, handle_mode_arg, handle_enable_arg, handle_pri_arg, handle_write_val_arg,
  handle_num_entries_arg,
}

-- How a command or the loop over them ends: it returns a number, with the device's state, or never
-- returns.
pub data Run (S : Type 0) : Type 0 where
  returns : ℤ → S → Run S
  hangs : Run S

-- What the loop over the entries of `do_set_clock_priorities` finds. It does not move on from the name
-- of a command.
pub data Collected : Type 0 where
  entries : List PriorityEntry → Collected
  refused : Collected
  stuck : Collected

abbrev pub missing_argument : ℤ
missing_argument = negsuc 1

abbrev pub add_entry : PriorityEntry → Collected → Collected
add_entry e (entries es) = entries (e ∷ es)
add_entry e refused = refused
add_entry e stuck = stuck

-- From the third argument on: clock indices and priorities in turn. A last clock index has priority 0.
unfoldable pub collect_entries : List (List ℕ) → Collected
collect_entries [] = entries []
collect_entries (clk ∷ []) =
    if name_is_a_command clk then stuck else elim (handle_clock_index_arg clk) [
      | none ↦ refused
      | some c ↦ entries (record { clock_index = c; priority = 0 } ∷ [])
    ]
collect_entries (clk ∷ pri ∷ args) =
    let rest = collect_entries args in
    if name_is_a_command clk then stuck else elim (handle_clock_index_arg clk) [
      | none ↦ refused
      | some c ↦ if name_is_a_command pri then stuck else elim (handle_pri_arg pri) [
        | none ↦ refused
        | some p ↦ add_entry (record { clock_index = c; priority = p }) rest
      ]
    ]

-- The bytes of `do_wr`; `none` is the return of -2.
unfoldable pub collect_bytes : ℕ → List (List ℕ) → Option (List ℕ)
collect_bytes zero args = some []
collect_bytes (suc n) [] = none
collect_bytes (suc n) (arg ∷ args) =
    let rest = collect_bytes n args in
    if name_is_a_command arg
    then none
    else elim (handle_write_val_arg arg) [ none ↦ none | some v ↦ Option.map (λ vs. v ∷ vs) rest ]

-- An argument that may be left out: its value and how many arguments it takes, or `none` for -2.
abbrev pub optional : (List ℕ → Option ℕ) → ℕ → List (List ℕ) → Option (ℕ × ℕ)
optional handle default [] = some (default, 0)
optional handle default (arg ∷ args) =
    if name_is_a_command arg then some (default, 0) else Option.map (λ v. (v, 1)) (handle arg)

-- The mode of `do_set_holdover_mode`, from the second argument on: where the third argument is not a
-- command, the mode is read from the second one.
abbrev pub holdover_mode : List (List ℕ) → Option (ℕ × ℕ)
holdover_mode args = elim (optional (λ third. some 0) 0 (drop 1 args)) [
  | none ↦ none
  | some (unused, zero) ↦ some (0, 0)
  | some (unused, suc n) ↦ Option.map (λ v. (v, 1)) (handle_mode_arg (get_or args 0 []))
]

module _ {S : Type 0} (ioctl : Ioctl → S → Result S Ioctl) (wait_of : List ℕ → Option Bool) where
  -- The call of the device, and the number of arguments that the command returns.
  abbrev pub call : Ioctl → ℕ → S → Run S
  call request used s =
      let (err, answer, t) = ioctl request s in
      returns (if eqb_ℤ err (pos 0) then pos used else negsuc 0) t

  -- The first argument, where enough of them are there and it is not the name of a command.
  abbrev pub with_first :
      ℕ → (List ℕ → Option ℕ) → (ℕ → List (List ℕ) → S → Run S) → List (List ℕ) → S → Run S
  with_first least handle run [] s = returns missing_argument s
  with_first least handle run (arg ∷ args) s =
      if ltb (length (arg ∷ args)) least || name_is_a_command arg
      then returns missing_argument s
      else elim (handle arg) [ none ↦ returns missing_argument s | some v ↦ run v args s ]

  unfoldable pub do_get_current_clock_index : List (List ℕ) → S → Run S
  do_get_current_clock_index = with_first 1 handle_dpll_arg λ dpll args.
      call (rsmu_get_current_clock_index_cmd (record { dpll = dpll; clock_index = pos 0 })) 1

  unfoldable pub do_get_ffo : List (List ℕ) → S → Run S
  do_get_ffo =
      with_first 1 handle_dpll_arg
        λ dpll args. call (rsmu_get_ffo_cmd (record { dpll = dpll; ffo = pos 0 })) 1

  unfoldable pub do_get_reference_monitor_status : List (List ℕ) → S → Run S
  do_get_reference_monitor_status = with_first 1 handle_clock_index_arg λ clock_index args.
      call
        (rsmu_get_reference_monitor_status_cmd
          (record { clock_index = clock_index; alarms = (0, 0, 0) }))
        1

  unfoldable pub do_get_state : List (List ℕ) → S → Run S
  do_get_state =
      with_first 1 handle_dpll_arg
        λ dpll args. call (rsmu_get_state_cmd (record { dpll = dpll; state = 0 })) 1

  unfoldable pub do_rd : List (List ℕ) → S → Run S
  do_rd = with_first 1 handle_offset_arg λ offset args s. elim (optional handle_count_arg 1 args) [
    | none ↦ returns missing_argument s
    | some (count, used) ↦
        call
          (rsmu_reg_read_cmd
            (record { offset = offset; byte_count = count; bytes = replicate 256 0 }))
          (1 + used) s
  ]

  -- `args` begin with the second argument. The array of the request has 32 entries; what is stored past
  -- them is left out.
  abbrev pub ask_priorities : ℕ → ℕ → List (List ℕ) → S → Run S
  ask_priorities dpll num_entries args s = elim (collect_entries (drop 1 args)) [
    | refused ↦ returns missing_argument s
    | stuck ↦ hangs
    | entries es ↦
        let blank : PriorityEntry = record { clock_index = 0; priority = 0 } in
        call
          (rsmu_set_clock_priorities_cmd (record {
            dpll = dpll;
            num_entries = num_entries;
            priority_entry = take 32 (es ++ replicate 32 blank);
          }))
          (1 + length args) s
  ]

  unfoldable pub do_set_clock_priorities : List (List ℕ) → S → Run S
  do_set_clock_priorities = with_first 4 handle_dpll_arg λ dpll args s.
      let count = length args - 1 in
      elim (optional handle_num_entries_arg 0 args) [
        | none ↦ returns missing_argument s
        | some (num_entries, zero) ↦ ask_priorities dpll num_entries args s
        | some (num_entries, suc used) ↦
            if num_entries == count / 2
            then ask_priorities dpll num_entries args s
            else returns missing_argument s
      ]

  unfoldable pub do_set_combo_mode : List (List ℕ) → S → Run S
  do_set_combo_mode = with_first 2 handle_dpll_arg λ dpll args s.
      elim (optional handle_mode_arg 0 args) [
        | none ↦ returns missing_argument s
        | some (mode, used) ↦
            call (rsmu_set_combomode_cmd (record { dpll = dpll; mode = mode })) (1 + used) s
      ]

  unfoldable pub do_set_holdover_mode : List (List ℕ) → S → Run S
  do_set_holdover_mode = with_first 3 handle_dpll_arg λ dpll args s.
      elim (optional handle_enable_arg 0 args) [
        | none ↦ returns missing_argument s
        | some (enable, used) ↦ elim (holdover_mode args) [
          | none ↦ returns missing_argument s
          | some (m, used') ↦
              call (rsmu_set_holdover_mode_cmd (record { dpll = dpll; enable = enable; mode = m }))
                (1 + used + used') s
        ]
      ]

  -- The first argument is not counted.
  unfoldable pub do_set_output_tdc_go : List (List ℕ) → S → Run S
  do_set_output_tdc_go = with_first 2 handle_tdc_arg λ tdc args s.
      elim (optional handle_enable_arg 0 args) [
        | none ↦ returns missing_argument s
        | some (enable, used) ↦
            call (rsmu_set_output_tdc_go_cmd (record { tdc = tdc; enable = enable })) used s
      ]

  -- `wait_of` is what the kernel and `strtod` make of the time: none for a text that is no time, and else
  -- whether `pause` returns. It never does where the alarm is not armed, as for a time of 0, or goes off
  -- before it.
  unfoldable pub do_wait : List (List ℕ) → S → Run S
  do_wait =
      with_first 1
        (λ arg. elim (wait_of arg) [ none ↦ none | some true ↦ some 1 | some false ↦ some 0 ])
        λ woken args s. if woken == 1 then returns (pos 1) s else hangs

  unfoldable pub do_wr : List (List ℕ) → S → Run S
  do_wr = with_first 2 handle_offset_arg λ offset args s. elim (optional handle_count_arg 1 args) [
    | none ↦ returns missing_argument s
    | some (count, used) ↦
        if ltb (1 + length args) (count + 2)
        then returns (negsuc 2) s
        else elim (collect_bytes count (drop 1 args)) [
          | none ↦ returns missing_argument s
          | some vs ↦
              call
                (rsmu_reg_write_cmd (record {
                  offset = offset;
                  byte_count = count;
                  bytes = take 256 (vs ++ replicate 256 0);
                }))
                (1 + used + count) s
        ]
  ]
