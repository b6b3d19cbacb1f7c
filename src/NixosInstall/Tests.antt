-- ===== src/NixosInstall/Tests.antt =====
-- A generation that is installed twice, and what the boot loader reads of it.
use mathlib.Core.Option
use mathlib.Core.Path.{subst}
use tinyboot.Prelude.{
  length, drop, ◌≤◌, some-injective, ◌∙◌, true, false, [], ◌∷◌, some, ◌≡◌, refl, arith, inr,
}
use tinyboot.Result.{to_option, ok}
use tinyboot.Text.{
  codes, equal, contains, starts_with, trim, trim_end_matches, is_whitespace, trim_matches_for,
  join,
}
use tinyboot.Text.Decimal.{from_str_radix, to_string}
use tinyboot.FilePath.{
  FilePath, append, from_text, named, parent, file_name, display, equal_path, equal_parts,
}
use tinyboot.Fs.{
  Fs, file, dir, lookup, is_file, entries_of, read_to_string, write, create_dir_all, create_dirs,
  create_new, insert, without, remove_file, read_dir,
}
use tinyboot.BootLoader.Conf.{parse_loader_conf}
use tinyboot.BootLoader.Entry.{default, parse_entry_conf}
use tinyboot.Text.Words.{literal, is_word}
use tinyboot.Text.Lines.{literal_line}
use tinyboot.NixosInstall.{
  text_or_empty, entries_dir, entry_filename, entry_contents, entry_number_of, loader_conf_text,
  install_generation, install_file, install_initrd, install_specialisations, install_system,
  install_profile, install_profiles, prepare, write_entry, match_entry, match_entries, write_over,
  glob_pattern, store_name, clean_paths, main, clean, is_known,
}
use tinyboot.NixosInstall.Clean.{is_in, there, is_known-entries_of}
use tinyboot.NixosInstall.LoaderConf.{generation_name, parse-write_over}
use tinyboot.NixosInstall.EntryFile.{IsReadable, installed}
use tinyboot.NixosInstall.ReadBack.{parse_entry_conf-entry_contents}
use tinyboot.NixosInstall.Installed.{IsEntryOf, HasEntry, Signs, Globs}
use tinyboot.NixosInstall.Forgets.{main-lost}
use tinyboot.NixosInstall.Example.{
  p, args, generation, system_1, sign, glob, from_json, run, or_empty, once, entry_1, returns,
  returns-some,
}

first_run :
    read_to_string entry_1 once
    ≡ ok (
        codes
          "title NixOS\nversion 24.05\nlinux /EFI/nixos/k1-linux-bzImage\ninitrd /EFI/nixos/i1-initrd-initrd\noptions init=/nix/store/s1/init quiet loglevel=4\nmachine-id 0123\n")
unfolding main install_profiles install_profile install_system install_specialisations
    install_generation install_initrd install_file write_entry prepare clean clean_paths
    match_entries match_entry write_over entry_contents entry_filename glob_pattern loader_conf_text
    store_name entry_number_of read_to_string write create_new create_dir_all create_dirs read_dir
    entries_of remove_file lookup insert without is_file append parent file_name display equal_path
    equal_parts equal from_text join contains starts_with trim trim_end_matches to_string
    from_str_radix
first_run = refl

-- The second run removes the entry.
second_run : is_file entry_1 (or_empty (run once)) ≡ false
unfolding main install_profiles install_profile install_system install_specialisations
    install_generation install_initrd install_file write_entry prepare clean clean_paths
    match_entries match_entry write_over entry_contents entry_filename glob_pattern loader_conf_text
    store_name entry_number_of read_to_string write create_new create_dir_all create_dirs read_dir
    entries_of remove_file lookup insert without is_file append parent file_name display equal_path
    equal_parts equal from_text join contains starts_with trim trim_end_matches to_string
    from_str_radix
second_run = refl

sign-Signs : Signs sign
sign-Signs path fs fs' h q is_there = subst (λ x. is_file q x ≡ true) (some-injective h) is_there

there-file : (q : FilePath) (fs : Fs) → is_file q fs ≡ true → there q fs ≡ true
unfolding there is_file
there-file q fs h = ground arith

glob-Globs : Globs args glob
glob-Globs n fs es q h e =
    subst (λ x. is_known q x ≡ true) (some-injective h)
      (is_known-entries_of (entries_dir args) q fs
        ∙ ground (arith, e.inside, there-file q fs e.there))

entry_1-IsEntryOf : IsEntryOf args 1 once entry_1
unfolding main install_profiles install_profile install_system install_specialisations
    install_generation install_initrd install_file write_entry prepare clean clean_paths
    match_entries match_entry write_over entry_contents entry_filename glob_pattern loader_conf_text
    store_name entry_number_of read_to_string write create_new create_dir_all create_dirs read_dir
    entries_of remove_file lookup insert without is_file append parent file_name display equal_path
    equal_parts equal from_text join contains starts_with trim trim_end_matches to_string
    from_str_radix is_in
entry_1-IsEntryOf = record {
  rest = codes "+3";
  inside = refl;
  there = refl;
  is_named = refl;
  no_specialisation = refl;
}

system_1-HasEntry : HasEntry args once system_1
unfolding entry_number_of trim_end_matches from_str_radix
system_1-HasEntry = record {
  number = 1;
  path = entry_1;
  is_numbered = refl;
  entry = entry_1-IsEntryOf;
}

abbrev twice : Fs
twice = or_empty (run once)

run_again-returns : returns (run once) ≡ true
unfolding main install_profiles install_profile install_system install_specialisations
    install_generation install_initrd install_file write_entry prepare clean clean_paths
    match_entries match_entry write_over entry_contents entry_filename glob_pattern loader_conf_text
    store_name entry_number_of read_to_string write create_new create_dir_all create_dirs read_dir
    entries_of remove_file lookup insert without is_file append parent file_name display equal_path
    equal_parts equal from_text join contains starts_with trim trim_end_matches to_string
    from_str_radix
run_again-returns = refl

run_again : run once ≡ some twice
run_again = returns-some (run once) run_again-returns

entry_1-inside : is_in (entries_dir args) entry_1 ≡ true
unfolding is_in entry_filename from_text parent append equal_path
entry_1-inside = refl

main-lost_example : is_file entry_1 twice ≡ false
main-lost_example =
    main-lost sign glob args sign-Signs glob-Globs (codes "boot.json") from_json (system_1 ∷ [])
      once twice (inr system_1-HasEntry, tt) run_again entry_1 entry_1-inside

abbrev boot_conf : FilePath
unfolding from_text
boot_conf = p (codes "/boot/loader.conf")

abbrev only_boot : Fs
unfolding from_text
only_boot = (p (codes "/boot"), dir) ∷ []

abbrev conf_written : Fs
conf_written =
    (p (codes "/boot"), dir)
    ∷ (boot_conf, file (codes "timeout 10\ndefault nixos-generation-1\n"))
    ∷ []

conf_short :
    length (text_or_empty (read_to_string boot_conf only_boot))
    ≤ length (loader_conf_text args 1 (p (codes "/nix/store/s1")))
unfolding main install_profiles install_profile install_system install_specialisations
    install_generation install_initrd install_file write_entry prepare clean clean_paths
    match_entries match_entry write_over entry_contents entry_filename glob_pattern loader_conf_text
    store_name entry_number_of read_to_string write create_new create_dir_all create_dirs read_dir
    entries_of remove_file lookup insert without is_file append parent file_name display equal_path
    equal_parts equal from_text join contains starts_with trim trim_end_matches to_string
    from_str_radix
conf_short = omega arith

conf_write :
    write_over boot_conf (loader_conf_text args 1 (p (codes "/nix/store/s1"))) only_boot
    ≡ some conf_written
unfolding main install_profiles install_profile install_system install_specialisations
    install_generation install_initrd install_file write_entry prepare clean clean_paths
    match_entries match_entry write_over entry_contents entry_filename glob_pattern loader_conf_text
    store_name entry_number_of read_to_string write create_new create_dir_all create_dirs read_dir
    entries_of remove_file lookup insert without is_file append parent file_name display equal_path
    equal_parts equal from_text join contains starts_with trim trim_end_matches to_string
    from_str_radix drop
conf_write = refl

parse-write_over_example :
    Option.map parse_loader_conf (to_option (read_to_string boot_conf conf_written))
    ≡ some (record { default_entry = some (generation_name 1); timeout = 10 })
unfolding equal_path from_text
parse-write_over_example =
    parse-write_over args 1 (p (codes "/nix/store/s1")) boot_conf only_boot conf_written
      (omega arith) conf_short conf_write

plain :
    IsReadable generation
      (some (codes "debug"))
      (codes "k1-linux-bzImage")
      (some (codes "i1-initrd-initrd"))
      (ok (codes "0123\n"))
unfolding equal is_word is_whitespace from_text display append join trim trim_matches_for
plain = record {
  title_line = literal_line (codes " (debug)") refl;
  label_line = literal_line (codes "24.05") refl;
  kernel_is_name = record { ne_nil = refl; ne_dot = refl; ne_dots = refl; no_slash = ground arith };
  kernel_line = literal_line (codes "k1-linux-bzImage") refl;
  initrd_is_plain = (
    record { ne_nil = refl; ne_dot = refl; ne_dots = refl; no_slash = ground arith },
    (literal (codes "i1-initrd-initrd") refl).free,
  );
  init_word = (literal (codes "/nix/store/s1/init") refl).free;
  params_words = (literal (codes "quiet") refl, (literal (codes "loglevel=4") refl, tt));
  machine_id_one_line = literal_line (codes "machine-id 0123") refl;
}

abbrev debug_entry : FilePath
debug_entry = append (entries_dir args) (named (entry_filename 1 (some (codes "debug")) 3))

parse_entry_conf-entry_contents_example :
    parse_entry_conf args.efi_sys_mount_point debug_entry (
      entry_contents generation
        (some (codes "debug"))
        (installed (codes "k1-linux-bzImage"))
        (some (installed (codes "i1-initrd-initrd")))
        (ok (codes "0123\n")))
    ≡ ok (record default {
      entry_path = debug_entry;
      name = codes "nixos-generation-1-specialisation-debug";
      tries_left = some 3;
      pretty_name = codes "NixOS (debug) 24.05";
      title = some (codes "NixOS (debug)");
      version = some (codes "24.05");
      linux = some (append args.efi_sys_mount_point (installed (codes "k1-linux-bzImage")));
      initrd = some (append args.efi_sys_mount_point (installed (codes "i1-initrd-initrd")) ∷ []);
      options = codes "init=/nix/store/s1/init" ∷ codes "quiet" ∷ codes "loglevel=4" ∷ [];
      machine_id = some (codes "0123");
    })
unfolding trim is_whitespace display join from_text append to_string
parse_entry_conf-entry_contents_example =
    parse_entry_conf-entry_contents (entries_dir args) args.efi_sys_mount_point 1 3 generation
      (some (codes "debug")) (codes "k1-linux-bzImage") (some (codes "i1-initrd-initrd"))
      (ok (codes "0123\n")) plain (ground arith) (ground arith) (omega arith)
