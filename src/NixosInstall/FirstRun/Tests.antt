-- ===== src/NixosInstall/FirstRun/Tests.antt =====
-- A generation that is installed for the first time.
use tinyboot.NixosInstall.FirstEntry.{SignsOnly, GlobsThere}
use tinyboot.NixosInstall.Vacant.{IsVacant}
use tinyboot.NixosInstall.EntryPath.{equal_path_refl}
use tinyboot.FilePath.Laws.{equal_path_iff, IsFileName}
use mathlib.Core.Path.{subst}
use tinyboot.Prelude.{
  not, ◌&&◌, ap, sym, Bool-cases, inl, some-injective, Bool, true, false, [], ◌∷◌, some, ◌≡◌, refl,
  arith, inr,
}
use tinyboot.Text.{codes, equal, contains, starts_with, trim, trim_end_matches, join}
use tinyboot.Text.Decimal.{from_str_radix, to_string}
use tinyboot.FilePath.{
  FilePath, append, from_text, parent, file_name, display, equal_path, equal_parts,
}
use tinyboot.Fs.{
  Fs, file, lookup, is_file, entries_of, read_to_string, write, create_dir_all, create_dirs,
  create_new, insert, without, remove_file, read_dir,
}
use tinyboot.NixosInstall.{
  entries_srel, entries_dir, entry_filename, entry_contents, entry_number_of, loader_conf_text,
  install_generation, install_file, install_initrd, install_specialisations, install_system,
  install_profile, install_profiles, prepare, write_entry, match_entry, match_entries, write_over,
  glob_pattern, store_name, clean_paths, main, clean,
}
use tinyboot.NixosInstall.Clean.{entries_of-cons, is_in}
use tinyboot.NixosInstall.Installed.{is_system}
use tinyboot.NixosInstall.FirstRun.{LeadsTo, HoldsOnly, main-first_run}
use tinyboot.NixosInstall.Example.{
  p, args, generation, system_1, at_start, sign, glob, from_json, run, once, returns, returns-some,
}

entries_of-IsVacant : (d : FilePath) (fs : Fs) → IsVacant d fs → entries_of d fs ≡ []
unfolding lookup
entries_of-IsVacant d [] vacant = unfold entries_of in refl
entries_of-IsVacant d ((r, n) ∷ fs) vacant = elim (Bool-cases (is_in d r)) [
  | inl inside ↦ cc (rw (equal_path_refl r) at (vacant r inside))
  | inr outside ↦
      rw (entries_of-cons d r n fs, outside)
        (entries_of-IsVacant d fs (λ q inside. elim (Bool-cases (equal_path r q)) [
          | inl same ↦
              let e : is_in d r ≡ is_in d q = ap (is_in d) ((equal_path_iff r q).0 same) in
              cc (e, inside, outside)
          | inr other ↦ rw other at (vacant q inside)
        ]))
]

glob-GlobsThere : GlobsThere args glob
glob-GlobsThere n fs vacant = ap some (entries_of-IsVacant (entries_dir args) fs vacant)

sign-SignsOnly : SignsOnly sign
sign-SignsOnly path fs fs' h q other = ap (lookup q) (sym (some-injective h))

at_start-returns : returns (run at_start) ≡ true
unfolding main install_profiles install_profile install_system install_specialisations
    install_generation install_initrd install_file write_entry prepare clean clean_paths
    match_entries match_entry write_over entry_contents entry_filename glob_pattern loader_conf_text
    store_name entry_number_of read_to_string write create_new create_dir_all create_dirs read_dir
    entries_of remove_file lookup insert without is_file append parent file_name display equal_path
    equal_parts equal from_text join contains starts_with trim trim_end_matches to_string
    from_str_radix
at_start-returns = refl

system_1-number : entry_number_of system_1.name ≡ some 1
unfolding entry_number_of trim_end_matches from_str_radix
system_1-number = refl

system_1-is_system : is_system system_1 ≡ true
unfolding starts_with
system_1-is_system = refl

abbrev boot_json : FilePath
unfolding from_text
boot_json = p (codes "/nix/store/s1/boot.json")

abbrev closure_1 : FilePath
unfolding from_text
closure_1 = p (codes "/nix/store/s1")

kernel_is_name : IsFileName (codes "k1-linux-bzImage")
unfolding equal
kernel_is_name = record { ne_nil = refl; ne_dot = refl; ne_dots = refl; no_slash = ground arith }

initrd_is_name : IsFileName (codes "i1-initrd-initrd")
unfolding equal
initrd_is_name = record { ne_nil = refl; ne_dot = refl; ne_dots = refl; no_slash = ground arith }

system_1-LeadsTo :
    LeadsTo (codes "boot.json") from_json system_1 1 generation boot_json (codes "{}")
unfolding store_name from_text append parent file_name equal
system_1-LeadsTo = record {
  closure = closure_1;
  on = system_1-is_system;
  is_number = system_1-number;
  resolves = refl;
  is_path = refl;
  parses = refl;
  kernel_named = λ name h. subst IsFileName (some-injective h) kernel_is_name;
  initrd_named = λ name h. subst IsFileName (some-injective h) initrd_is_name;
}

abbrev none_in : FilePath → Fs → Bool
none_in d [] = true
none_in d ((r, n) ∷ fs) = not (is_in d r) && none_in d fs

none_in-IsVacant : (d : FilePath) (fs : Fs) → none_in d fs ≡ true → IsVacant d fs
unfolding lookup
none_in-IsVacant d [] h q inside = refl
none_in-IsVacant d ((r, n) ∷ fs) h q inside =
    ground (arith, equal_path_iff r q, none_in-IsVacant d fs (ground arith) q inside)

at_start-IsVacant : IsVacant (entries_dir args) at_start
unfolding is_in parent append from_text equal_path equal equal_parts
at_start-IsVacant = none_in-IsVacant (entries_dir args) at_start refl

at_start-boot_json : lookup boot_json at_start ≡ some (file (codes "{}"))
unfolding lookup equal_path equal equal_parts from_text
at_start-boot_json = refl

at_start-apart : equal_path (append args.efi_sys_mount_point entries_srel) boot_json ≡ false
unfolding equal_path equal equal_parts append from_text
at_start-apart = refl

main-first_run_example : HoldsOnly args 1 generation once
main-first_run_example =
    main-first_run sign glob args sign-SignsOnly glob-GlobsThere (codes "boot.json") from_json
      system_1 1 generation boot_json (codes "{}") system_1-LeadsTo at_start once at_start-boot_json
      at_start-apart at_start-IsVacant (returns-some (run at_start) at_start-returns)
