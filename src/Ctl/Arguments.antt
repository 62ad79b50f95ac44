-- ===== src/Ctl/Arguments.antt =====
-- rsmu_ctl/rsmu_ctl.c: the arguments of commands, and the names of commands.
use Prim.Native.String.{String}
use Prim.Native.Char.{code}
use linux_ptp_driver_package.Prelude.{
  ℕ, Option, none, some, Bool, true, false, ◌&&◌, List, [], ◌∷◌, ◌==◌, if◌then◌else◌,
}
use linux_ptp_driver_package.Ctl.Parse.{get_ranged_uint, parsed_ok, malformed, out_of_range}

-- The base that `strtoul` finds out by itself.
abbrev pub base_decimal : ℕ
base_decimal = 0

abbrev pub base_hexadecimal : ℕ
base_hexadecimal = 16

-- `none` is the return of -2.
abbrev pub handle_uint : ℕ → ℕ → ℕ → List ℕ → Option ℕ
handle_uint min max base arg = elim (get_ranged_uint arg min max base) [
  | parsed_ok n ↦ some n
  | malformed ↦ none
  | out_of_range ↦ none
]

unfoldable pub handle_dpll_arg : List ℕ → Option ℕ
handle_dpll_arg = handle_uint 0 7 base_decimal

unfoldable pub handle_clock_index_arg : List ℕ → Option ℕ
handle_clock_index_arg = handle_uint 0 15 base_decimal

unfoldable pub handle_offset_arg : List ℕ → Option ℕ
handle_offset_arg = handle_uint 0 0x20120000 base_hexadecimal

unfoldable pub handle_count_arg : List ℕ → Option ℕ
handle_count_arg = handle_uint 1 255 base_decimal

unfoldable pub handle_num_entries_arg : List ℕ → Option ℕ
handle_num_entries_arg = handle_uint 0 19 base_decimal

unfoldable pub handle_pri_arg : List ℕ → Option ℕ
handle_pri_arg = handle_uint 0 18 base_decimal

unfoldable pub handle_mode_arg : List ℕ → Option ℕ
handle_mode_arg = handle_uint 0 3 base_decimal

unfoldable pub handle_enable_arg : List ℕ → Option ℕ
handle_enable_arg = handle_uint 0 1 base_decimal

unfoldable pub handle_tdc_arg : List ℕ → Option ℕ
handle_tdc_arg = handle_uint 0 3 base_decimal

unfoldable pub handle_write_val_arg : List ℕ → Option ℕ
handle_write_val_arg = handle_uint 0 255 base_hexadecimal

-- The entries of `all_commands`.
pub data Command : Type 0 where
  get_current_clock_index : Command
  get_ffo : Command
  get_reference_monitor_status : Command
  get_state : Command
  rd : Command
  set_clock_priorities : Command
  set_combo_mode : Command
  set_holdover_mode : Command
  set_output_tdc_go : Command
  wait : Command
  wr : Command

-- The bytes of an ASCII text.
abbrev pub codes : String → List ℕ
codes String.[] = []
codes (String.◌∷◌ c s) = code c ∷ codes s

abbrev pub all_commands : List (List ℕ × Command)
all_commands =
    (codes "get_current_clock_index", get_current_clock_index)
    ∷ (codes "get_ffo", get_ffo)
    ∷ (codes "get_reference_monitor_status", get_reference_monitor_status)
    ∷ (codes "get_state", get_state)
    ∷ (codes "rd", rd)
    ∷ (codes "set_clock_priorities", set_clock_priorities)
    ∷ (codes "set_combo_mode", set_combo_mode)
    ∷ (codes "set_holdover_mode", set_holdover_mode)
    ∷ (codes "set_output_tdc_go", set_output_tdc_go)
    ∷ (codes "wait", wait)
    ∷ (codes "wr", wr)
    ∷ []

-- `!strncmp(name, command, strlen(command))`.
unfoldable pub starts_with : List ℕ → List ℕ → Bool
starts_with name [] = true
starts_with [] (c ∷ cs) = false
starts_with (a ∷ name) (c ∷ cs) = let rest = starts_with name cs in (a == c) && rest

-- The loop of `get_command_function`: the last entry that the name starts with.
unfoldable pub find_command : List ℕ → List (List ℕ × Command) → Option Command → Option Command
find_command name [] cmd = cmd
find_command name ((entry, function) ∷ entries) cmd =
    find_command name entries (if starts_with name entry then some function else cmd)

unfoldable pub get_command_function : List ℕ → Option Command
get_command_function name = find_command name all_commands none

unfoldable pub name_is_a_command : List ℕ → Bool
name_is_a_command name = elim (get_command_function name) [ none ↦ false | some cmd ↦ true ]
