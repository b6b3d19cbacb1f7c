-- ===== src/Bls/Tests.antt =====
-- The source's own tests of the parser.
use tinyboot.Prelude.{◌↔◌, ◌++◌, ◌≡◌, refl, none, some}
use tinyboot.Result.{ok, err}
use tinyboot.Text.{Text, codes, strip_suffix, split_once}
use tinyboot.Text.Decimal.{from_str_radix}
use tinyboot.Bls.Named.{Named, conf, parse_entry_filename_iff}
use tinyboot.Bls.{missing_conf_suffix, invalid_tries_syntax, parse_entry_filename}

error_cases :
    (parse_entry_filename (codes "my-entry") ≡ err missing_conf_suffix)
    × (parse_entry_filename (codes "my-entry+foo.conf") ≡ err invalid_tries_syntax)
    × (parse_entry_filename (codes "my-entry+foo-bar.conf") ≡ err invalid_tries_syntax)
unfolding parse_entry_filename strip_suffix split_once from_str_radix
error_cases = (refl, refl, refl)

happy_path :
    (parse_entry_filename (codes "my-entry-1.conf") ≡ ok (codes "my-entry-1", none, none))
    × (parse_entry_filename (codes "my-entry+0-3.conf") ≡ ok (codes "my-entry", some 0, some 3))
    × (parse_entry_filename (codes "my-entry-3+2.conf") ≡ ok (codes "my-entry-3", some 2, none))
unfolding parse_entry_filename strip_suffix split_once from_str_radix
happy_path = (refl, refl, refl)

parse_entry_filename_iff_example :
    (parse_entry_filename (codes "nixos+2-1.conf") ≡ ok (codes "nixos", some 2, some 1)) ↔ (
      (stem : Text) × (codes "nixos+2-1.conf" ≡ stem ++ conf)
      × Named stem (codes "nixos", some 2, some 1))
parse_entry_filename_iff_example =
    parse_entry_filename_iff (codes "nixos+2-1.conf") (codes "nixos", some 2, some 1)
