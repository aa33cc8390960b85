-- ===== src/Tests/Args.antt =====
-- A command line that spells the flags in several ways, and ones that are refused.
use ovm.Base.{bytes, bytes_dec, true, false, List, [], ◌∷◌, none, some, ◌≡◌, refl, arith}
use ovm.Base.Int.{negsuc}
use ovm.Text.Integer.{parse_uint, parse_int, max_uint}
use ovm.Cli.Args.{parse, parsed, refused, invalid_value, undefined_flag, needs_argument, defaults}
use ovm.Cli.Args.Spelling.{
  Spelling, joined, apart, bare, text_is, number_is, switch_is, bind_pid_is, name, cpus, log_path,
  cli, kernel_debug, args_of, give_all,
}
use ovm.Cli.Args.Spelling.Laws.{parse-args_of}

abbrev spelt : List Spelling
spelt =
    record { form = joined; double = true; setting = text_is name (bytes "a=b") }
    ∷ record { form = apart; double = false; setting = text_is log_path (bytes "-x") }
    ∷ record { form = bare; double = false; setting = switch_is cli true }
    ∷ record { form = joined; double = true; setting = switch_is kernel_debug false }
    ∷ record { form = apart; double = true; setting = number_is cpus 4 }
    ∷ record { form = joined; double = false; setting = bind_pid_is (negsuc 0) }
    ∷ record { form = joined; double = false; setting = number_is cpus 8 }
    ∷ []

parse-args_of_example : parse (args_of spelt) defaults ≡ parsed (give_all spelt defaults)
parse-args_of_example = parse-args_of spelt defaults (
  (tt, tt),
  (
    (tt, tt),
    ((tt, refl), ((tt, tt), ((omega arith, tt), ((omega arith, tt), ((omega arith, tt), tt))))),
  ),
)

unknown_flag :
    parse (bytes "-disk-path=/d" ∷ []) defaults ≡ refused (undefined_flag (bytes "disk-path"))
unfolding parse bytes_dec
unknown_flag = refl

missing_value : parse (bytes "--name" ∷ []) defaults ≡ refused (needs_argument (bytes "name"))
unfolding parse bytes_dec
missing_value = refl

not_a_number :
    parse (bytes "-cpus" ∷ bytes "-1" ∷ []) defaults
    ≡ refused (invalid_value (bytes "-1") (bytes "cpus"))
unfolding parse bytes_dec
not_a_number = refl

-- A value behind a switch ends the flags.
stopped :
    parse (bytes "-cli" ∷ bytes "true" ∷ bytes "-name=x" ∷ []) defaults
    ≡ parsed (record defaults { cli_mode = true })
unfolding parse bytes_dec defaults
stopped = refl

hexadecimal : parse_uint max_uint (bytes "0x1_F") ≡ some 31
unfolding parse_uint
hexadecimal = refl

octal : parse_int (bytes "-017") ≡ some (negsuc 14)
unfolding parse_int
octal = refl

misplaced : parse_uint max_uint (bytes "1__0") ≡ none
unfolding parse_uint
misplaced = refl

too_large : parse_uint max_uint (bytes "18446744073709551616") ≡ none
unfolding parse_uint
too_large = refl
