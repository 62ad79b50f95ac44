-- ===== src/Tests/Ctl.antt =====
-- The theorems of the command line tool, on texts, and on a device that counts its calls.
use linux_ptp_driver_package.Prelude.{ℕ, suc, List, [], ◌∷◌, ◌≡◌, refl, true, arith, none}
use linux_ptp_driver_package.Prelude.Int.{pos}
use linux_ptp_driver_package.Misc.Cdev.{Ioctl, Result}
use linux_ptp_driver_package.Ctl.Arguments.{codes, get_command_function, find_command, starts_with}
use linux_ptp_driver_package.Ctl.Run.{main}
use linux_ptp_driver_package.Ctl.Run.Ends.{Exits, Without, main-Exits}
use linux_ptp_driver_package.Ctl.Parse.{
  get_ranged_uint, decimal, parsed_ok, get_ranged_uint-decimal,
}

get_ranged_uint-decimal_example : get_ranged_uint (decimal 208) 1 255 0 ≡ parsed_ok 208
get_ranged_uint-decimal_example =
    get_ranged_uint-decimal 1 255 208 (omega arith) (omega arith) (omega arith)

abbrev counting_device : Ioctl → ℕ → Result ℕ Ioctl
counting_device request calls = (pos 0, request, suc calls)

-- An unknown name, and two commands.
abbrev line : List (List ℕ)
line = codes "hello" ∷ codes "rd" ∷ codes "c024" ∷ codes "2" ∷ codes "get_state" ∷ codes "1" ∷ []

line-Without : Without line
unfolding get_command_function find_command starts_with
line-Without = (refl, (refl, (refl, (refl, (refl, (refl, tt))))))

main-Exits_example : Exits (main counting_device (λ text. none) true line 0)
main-Exits_example = main-Exits counting_device (λ text. none) line 0 line-Without
