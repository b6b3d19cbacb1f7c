-- ===== src/Shell/Tests.antt =====
-- Sessions on a machine with nothing on it.
use tinyboot.Cmd.{parse_loader, parse_input, parse_command}
use tinyboot.Prelude.{ℕ, false, List, [], ◌∷◌, none, some, ◌≡◌, refl}
use tinyboot.Result.{err}
use tinyboot.Text.{split_whitespace, equal, Text, codes}
use tinyboot.FilePath.{named}
use tinyboot.Fs.{not_found}
use tinyboot.BootLoader.{loader_type_from_str, disk, Platform}
use tinyboot.Main.Messages.{reboot, Host}
use tinyboot.Main.Commands.{handle_loader, handle_list, handle, no_loader, handle_commands}
use tinyboot.Shell.{truncate, command_of, waits_for_server, waits_for_input, run_shell}
use tinyboot.Shell.Session.{
  typed, reads_of, Ended, run_shell-open, run_shell-deadlock, run_shell-Ended,
}

abbrev bare : Platform
bare = record {
  State = ℕ;
  Entry = Text;
  fresh = λ s. s;
  loader_type = λ s. disk;
  setup = λ s. (false, s);
  probe = λ s. ([], s);
  teardown = λ s. s;
  is_default = λ e. false;
  show = λ e. e;
  select = λ e s. (record { linux = named e; initrd = none; cmdline = none }, s);
}

abbrev host : Host bare
host = record { kexec_load = λ parts s. (false, s); busybox = λ s. s }

abbrev listing : List Text
listing = codes "loader disk\n" ∷ codes "\n" ∷ codes "list\n" ∷ []

abbrev leaving : List Text
leaving = codes "list\n" ∷ codes "reboot\n" ∷ codes "list\n" ∷ []

listing_goes_on : (handle_commands bare host (typed listing) (no_loader 0)).1 ≡ none
unfolding handle_commands command_of parse_input split_whitespace truncate equal parse_command
    parse_loader loader_type_from_str handle handle_loader handle_list
listing_goes_on = refl

leaving_reboots : (handle_commands bare host (typed leaving) (no_loader 0)).1 ≡ some reboot
unfolding handle_commands command_of parse_input split_whitespace truncate equal parse_command
    handle handle_list
leaving_reboots = refl

run_shell-open_example :
    run_shell (reads_of listing []) (handle_commands bare host (typed listing) (no_loader 0)).0
    ≡ (typed listing, waits_for_input)
run_shell-open_example = run_shell-open bare host listing (no_loader 0) listing_goes_on

run_shell-deadlock_example :
    run_shell
      (reads_of listing (err not_found ∷ []))
      (handle_commands bare host (typed listing) (no_loader 0)).0
    ≡ (typed listing, waits_for_server)
run_shell-deadlock_example =
    run_shell-deadlock bare host listing not_found [] (no_loader 0) listing_goes_on

run_shell-Ended_example :
    Ended bare host
      (handle_commands bare host (typed leaving) (no_loader 0))
      (no_loader 0)
      (run_shell (reads_of leaving []) (handle_commands bare host (typed leaving) (no_loader 0)).0)
run_shell-Ended_example = run_shell-Ended bare host leaving [] (no_loader 0) reboot leaving_reboots
