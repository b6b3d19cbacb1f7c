-- ===== src/Cmd.antt =====
-- tboot-loader/src/cmd.rs: the commands of the interactive shell.
pub mod Laws
mod Tests
use tinyboot.Prelude.{
  ℕ, Bool, true, false, List, [], ◌∷◌, ◌++◌, Option, none, some, if◌then◌else◌, ◌^◌, ◌-◌,
}
use tinyboot.Result.{Result, ok, err, ok_or, ◌>>=◌}
use tinyboot.Text.{Text, codes, equal, split_whitespace}
use tinyboot.Text.Decimal.{u8_max, u64_max, from_str_radix}
use tinyboot.BootLoader.{LoaderType, loader_type_from_str}

pub data Command : Type 0 where
  loader : Option LoaderType → Command
  help : Option Text → Command
  list : Command
  boot : Option ℕ → Option ℕ → Command
  reboot poweroff : Command
  dmesg : ℕ → Command
  rescan shell : Command

pub data ParseError : Type 0 where
  invalid_number : ParseError
  invalid_loader : Text → ParseError
  unknown_command : Text → ParseError

-- `iter.next()` and what is left of the words
abbrev pub next : List Text → Option Text × List Text
next [] = (none, [])
next (w ∷ ws) = (some w, ws)

-- `map(from_str_radix).transpose()?`; a `usize` has 64 bits.
pub number_of : ℕ → Option Text → Result (Option ℕ) ParseError
number_of max none = ok none
number_of max (some w) = do n ← ok_or (from_str_radix max w) invalid_number; ok (some n)

abbrev pub or_info : Option ℕ → ℕ
or_info none = 6
or_info (some level) = level

pub parse_dmesg : List Text → Result Command ParseError
parse_dmesg iter = do level ← number_of u8_max (next iter).0; ok (dmesg (or_info level))

abbrev loader_of : Result LoaderType Text → Result Command ParseError
loader_of (ok t) = ok (loader (some t))
loader_of (err s) = err (invalid_loader s)

unfoldable pub parse_loader : List Text → Result Command ParseError
parse_loader [] = ok (loader none)
parse_loader (w ∷ ws) = loader_of (loader_type_from_str w)

pub parse_boot : List Text → Result Command ParseError
parse_boot iter = do
  dev ← number_of u64_max (next iter).0
  entry ← number_of u64_max (next (next iter).1).0
  ok (boot dev entry)

-- The `match` on the first word.
unfoldable pub parse_command : Text → Text → List Text → Result Command ParseError
parse_command input cmd iter =
    if equal cmd (codes "boot")
    then parse_boot iter
    else if equal cmd (codes "help")
    then ok (help (next iter).0)
    else if equal cmd (codes "loader")
    then parse_loader iter
    else if equal cmd (codes "list")
    then ok list
    else if equal cmd (codes "rescan")
    then ok rescan
    else if equal cmd (codes "poweroff")
    then ok poweroff
    else if equal cmd (codes "reboot")
    then ok reboot
    else if equal cmd (codes "dmesg")
    then parse_dmesg iter
    else if equal cmd (codes "shell")
    then ok shell
    else err (unknown_command input)

abbrev some_of : Result Command ParseError → Result (Option Command) ParseError
some_of (ok c) = ok (some c)
some_of (err e) = err e

-- A line of white space is no command. (`cmd.is_empty()` never holds of a word.)
pub parse_words : Text → List Text → Result (Option Command) ParseError
parse_words input [] = ok none
parse_words input (cmd ∷ iter) =
    if equal cmd [] then ok none else some_of (parse_command input cmd iter)

unfoldable pub parse_input : Text → Result (Option Command) ParseError
unfolding parse_words
parse_input input = parse_words input (split_whitespace input)

pub data Topic : Type 0 where
  list_usage boot_usage reboot_usage poweroff_usage loader_usage dmesg_usage rescan_usage : Topic
  all_usage no_usage : Topic

-- Which text `print_help` prints.
unfoldable pub print_help : Option Text → Topic
print_help none = all_usage
print_help (some cmd) =
    if equal cmd (codes "list")
    then list_usage
    else if equal cmd (codes "boot")
    then boot_usage
    else if equal cmd (codes "reboot")
    then reboot_usage
    else if equal cmd (codes "poweroff")
    then poweroff_usage
    else if equal cmd (codes "loader")
    then loader_usage
    else if equal cmd (codes "dmesg")
    then dmesg_usage
    else if equal cmd (codes "rescan")
    then rescan_usage
    else no_usage
