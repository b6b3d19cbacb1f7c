-- ===== src/Cmd/Tests.antt =====
-- Command lines that are read.
use tinyboot.Text.Decimal.{from_str_radix}
use tinyboot.Prelude.{[], ◌∷◌, some, ◌≡◌, refl, arith}
use tinyboot.Result.{ok, err}
use tinyboot.Text.{codes, equal, split_whitespace, join}
use tinyboot.Cmd.{
  parse_dmesg, parse_command, parse_boot, number_of, boot, parse_input, invalid_number,
}
use tinyboot.Cmd.Laws.{words_of, parse_input-join}

boot_1_2 : parse_input (codes " boot 1  2\n") ≡ ok (some (boot (some 1) (some 2)))
unfolding parse_input split_whitespace equal parse_command parse_boot number_of from_str_radix
boot_1_2 = refl

too_large : parse_input (codes "dmesg 256") ≡ err invalid_number
unfolding parse_input split_whitespace equal parse_command parse_dmesg number_of from_str_radix
too_large = refl

parse_input-join_example :
    parse_input (join (b' ' ∷ []) (words_of (boot (some 1) (some 2))))
    ≡ ok (some (boot (some 1) (some 2)))
parse_input-join_example = parse_input-join (boot (some 1) (some 2)) (omega arith, omega arith)
