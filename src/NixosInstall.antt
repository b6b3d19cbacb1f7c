-- ===== src/NixosInstall.antt =====
-- tboot-nixos-install/src/main.rs: writes a boot entry for each NixOS generation, with its files.
pub mod Clean
pub mod LoaderConf
pub mod EntryFile
pub mod EntryName
pub mod ReadBack
pub mod Keeps
pub mod Installed
pub mod Lost
pub mod Forgets
pub mod EntryPath
pub mod Vacant
pub mod FirstEntry
pub mod FirstRun
mod Example
mod Tests
use mathlib.Core.Option
use tinyboot.Prelude.{
  ℕ, Bool, true, false, not, ◌&&◌, ◌||◌, List, [], ◌∷◌, ◌++◌, Option, none, some, if◌then◌else◌,
  ◌>>=◌, length, drop,
}
use tinyboot.Result.{Result, ok, err, to_option}
use tinyboot.Text.{
  Text, codes, contains, starts_with, trim, join, trim_start_matches, trim_end_matches,
}
use tinyboot.Text.Decimal.{u32_max, from_str_radix, to_string}
use tinyboot.FilePath.{FilePath, append, from_text, named, parent, file_name, display, equal_path}
use tinyboot.Fs.{
  IoError, Fs, lookup, read_to_string, write, remove_file, read_dir, create_dir_all, is_file, file,
  dir,
}

-- `Args`, but for the keys and the program that signs.
pub record Args : Type 0 where
  pub efi_sys_mount_point : FilePath
  pub max_tries : ℕ
  pub timeout : ℕ
  pub default_nixos_system_closure : FilePath

pub record State : Type 0 where
  pub fs : Fs
  pub known_efi_files : List FilePath
  pub known_entry_files : List FilePath

-- What the crate bootspec reads of a generation.
pub record Bootspec : Type 0 where
  pub label : Text
  pub kernel : FilePath
  pub kernel_params : List Text
  pub init : FilePath
  pub initrd : Option FilePath

-- `GenerationV1`, with its specialisations in the order of the map.
pub record Generation : Type 0 where
  pub bootspec : Bootspec
  pub specialisations : List (Text × Bootspec)

-- `unwrap` of an operation on files: `none` is the panic.
abbrev pub unwrap : Result (Unit {0}) IoError × Fs → Option Fs
unwrap (ok _, fs) = some fs
unwrap (err _, fs) = none

abbrev pub is_known : FilePath → List FilePath → Bool
is_known p [] = false
is_known p (q ∷ qs) = equal_path q p || is_known p qs

-- `{}-{}` of the last two names in a path of the Nix store.
unfoldable pub store_name : FilePath → Option Text
store_name path = do
  dir_path ← parent path
  dir_name ← file_name dir_path
  name ← file_name path
  some (dir_name ++ (b'-' ∷ name))

abbrev pub efi_nixos : FilePath
efi_nixos = record { absolute = false; parts = codes "EFI" ∷ codes "nixos" ∷ [] }

abbrev pub root_dir : FilePath
root_dir = record { absolute = true; parts = [] }

abbrev pub loader_entries : FilePath
loader_entries = record { absolute = false; parts = codes "loader" ∷ codes "entries" ∷ [] }

abbrev pub machine_id_path : FilePath
machine_id_path = record { absolute = true; parts = codes "etc" ∷ codes "machine-id" ∷ [] }

-- `specialisation.map(…).unwrap_or_default()`
abbrev pub or_default : (Text → Text) → Option Text → Text
or_default f none = []
or_default f (some s) = f s

abbrev pub title_suffix : Text → Text
title_suffix s = codes " (" ++ (s ++ codes ")")

abbrev pub name_suffix : Text → Text
name_suffix s = codes "-specialisation-" ++ s

abbrev pub newline : Text
newline = 10 ∷ []

abbrev pub initrd_line : Option FilePath → Text
initrd_line none = []
initrd_line (some initrd) = codes "initrd " ++ display (append root_dir initrd)

abbrev pub machine_id_line : Result Text IoError → Text
machine_id_line (err e) = []
machine_id_line (ok machine_id) = codes "machine-id " ++ trim machine_id

-- What `entry_contents` holds in the end, by its lines.
unfoldable pub entry_contents :
    Bootspec → Option Text → FilePath → Option FilePath → Result Text IoError → Text
entry_contents g specialisation linux initrd machine_id =
    (codes "title NixOS" ++ or_default title_suffix specialisation)
    ++ (newline
        ++ ((codes "version " ++ g.label)
            ++ (newline
                ++ ((codes "linux " ++ display (append root_dir linux))
                    ++ (newline
                        ++ (initrd_line initrd
                            ++ (newline
                                ++ ((codes "options init="
                                      ++ (display g.init
                                          ++ (b' ' ∷ join (codes " ") g.kernel_params)))
                                    ++ (newline ++ (machine_id_line machine_id ++ newline))))))))))

unfoldable pub entry_filename : ℕ → Option Text → ℕ → Text
entry_filename entry_number specialisation max_tries =
    (codes "nixos-generation-" ++ (to_string entry_number ++ or_default name_suffix specialisation))
    ++ (b'+' ∷ (to_string max_tries ++ codes ".conf"))

abbrev pub entries_dir : Args → FilePath
entries_dir args = append args.efi_sys_mount_point loader_entries

abbrev pub efi_dir : Args → FilePath
efi_dir args = append args.efi_sys_mount_point efi_nixos

unfoldable pub glob_pattern : Args → ℕ → Text
glob_pattern args entry_number =
    display (entries_dir args)
    ++ (codes "/nixos-generation-" ++ (to_string entry_number ++ codes "*.conf"))

-- One round of the loop over what the glob matches: has it matched, and what is known.
unfoldable pub match_entry : FilePath → Bool × List FilePath → Option (Bool × List FilePath)
match_entry entry (has_matches, known) = elim (file_name entry) [
  | none ↦ none
  | some name ↦
      if contains (codes "specialisation") name
      then some (has_matches, known)
      else some (true, entry ∷ known)
]

unfoldable pub match_entries : List FilePath → Bool × List FilePath → Option (Bool × List FilePath)
match_entries [] s = some s
match_entries (entry ∷ entries) s = match_entry entry s >>= match_entries entries

abbrev pub loader_conf : FilePath
loader_conf = record { absolute = false; parts = codes "loader" ∷ codes "loader.conf" ∷ [] }

abbrev pub entries_srel : FilePath
entries_srel = record { absolute = false; parts = codes "loader" ∷ codes "entries.srel" ∷ [] }

-- What a file holds that is opened for writing, and made if there is none.
abbrev pub text_or_empty : Result Text IoError → Text
text_or_empty (ok s) = s
text_or_empty (err e) = []

-- A file that is opened without truncation keeps what lies behind the text that is written.
unfoldable pub write_over : FilePath → Text → Fs → Option Fs
write_over p s fs = unwrap (write p (s ++ drop (length s) (text_or_empty (read_to_string p fs))) fs)

unfoldable pub loader_conf_text : Args → ℕ → FilePath → Text
loader_conf_text args entry_number closure =
    (codes "timeout " ++ (to_string args.timeout ++ newline))
    ++ (if equal_path closure args.default_nixos_system_closure
        then codes "default nixos-generation-" ++ (to_string entry_number ++ newline)
        else [])

-- An entry of the directory of profiles, with what `canonicalize` gives for it.
pub record Profile : Type 0 where
  pub name : Text
  pub is_symlink : Bool
  pub closure : Option FilePath

unfoldable pub entry_number_of : Text → Option ℕ
entry_number_of name =
    from_str_radix u32_max
      (trim_end_matches (codes "-link") (trim_start_matches (codes "system-") name))

-- The loops at the end: a file that is not known is removed.
unfoldable pub clean_paths : List FilePath → List FilePath → Fs → Option Fs
clean_paths known [] fs = some fs
clean_paths known (path ∷ paths) fs =
    let rest = clean_paths known paths in
    if not (is_known path known) && is_file path fs
    then unwrap (remove_file path fs) >>= rest
    else rest fs

unfoldable pub clean : FilePath → List FilePath → Fs → Option Fs
clean d known fs = elim (read_dir d fs) [ err _ ↦ none | ok paths ↦ clean_paths known paths fs ]

-- The directories that the program needs, and what says that the entries are of the first type.
unfoldable pub prepare : Args → Fs → Option Fs
prepare args fs = do
  fs1 ← unwrap (create_dir_all (efi_dir args) fs)
  fs2 ← unwrap (create_dir_all (entries_dir args) fs1)
  unwrap (write (append args.efi_sys_mount_point entries_srel) (codes "type1\n") fs2)

-- The program that signs a file, and the crate glob: what it matches, or an error of the pattern.
-- An error on a path that matches is passed over.
module _ (sign : FilePath → Fs → Option Fs) (glob : Text → Fs → Option (List FilePath)) where
  -- A file is copied to the EFI system partition, is known, and is signed.
  unfoldable pub install_file : Args → FilePath → FilePath → State → Option State
  install_file args source target st =
      let path = append args.efi_sys_mount_point target in
      elim (read_to_string source st.fs) [
        | err _ ↦ none
        | ok contents ↦ do
          fs ← unwrap (write path contents st.fs)
          signed ← sign path fs
          some (record st { fs = signed; known_efi_files = path ∷ st.known_efi_files })
      ]

  unfoldable pub install_initrd : Args → Option FilePath → State → Option (Option FilePath × State)
  install_initrd args none st = some (none, st)
  install_initrd args (some source) st = do
    name ← store_name source
    let initrd = append efi_nixos (from_text name)
    st' ← install_file args source initrd st
    some (some initrd, st')

  -- The entry is written only if none of its generation is there.
  unfoldable pub write_entry : FilePath → Text → Bool × List FilePath → State → Option State
  write_entry entry_path contents (has_matches, known) st =
      if has_matches then some (record st { known_efi_files = known }) else do
        fs ← unwrap (write entry_path contents st.fs)
        some (record {
          fs = fs;
          known_efi_files = known;
          known_entry_files = entry_path ∷ st.known_entry_files;
        })

  unfoldable pub install_generation : Args → ℕ → Bootspec → Option Text → State → Option State
  install_generation args entry_number g specialisation st = do
    kernel_name ← store_name g.kernel
    let linux = append efi_nixos (from_text kernel_name)
    st1 ← install_file args g.kernel linux st
    (initrd, st2) ← install_initrd args g.initrd st1
    let contents =
        entry_contents g specialisation linux initrd (read_to_string machine_id_path st2.fs)
    entries ← glob (glob_pattern args entry_number) st2.fs
    matched ← match_entries entries (false, st2.known_efi_files)
    write_entry
        (append (entries_dir args)
          (from_text (entry_filename entry_number specialisation args.max_tries)))
        contents matched st2

  unfoldable pub install_specialisations : Args → ℕ → List (Text × Bootspec) → State → Option State
  install_specialisations args n [] st = some st
  install_specialisations args n ((name, g) ∷ gs) st =
      install_generation args n g (some name) st >>= install_specialisations args n gs

  -- The crates bootspec and serde_json: the name of the file, and what its text stands for, which is
  -- no generation if it is of another version.
  module _ (json_filename : Text) (from_json : Text → Option (Option Generation)) where
    abbrev pub install_v1 : Args → ℕ → Option Generation → State → Option State
    install_v1 args entry_number none st = some st
    install_v1 args entry_number (some g) st = do
      st' ← install_specialisations args entry_number g.specialisations st
      install_generation args entry_number g.bootspec none st'

    unfoldable pub install_system : Args → Profile → State → Option State
    install_system args profile st = do
      entry_number ← entry_number_of profile.name
      closure ← profile.closure
      boot_json ← to_option (read_to_string (append closure (from_text json_filename)) st.fs)
      generation ← from_json boot_json
      fs ←
          write_over (append args.efi_sys_mount_point loader_conf)
            (loader_conf_text args entry_number closure) st.fs
      install_v1 args entry_number generation (record st { fs = fs })

    unfoldable pub install_profile : Args → Profile → State → Option State
    install_profile args profile st =
        if profile.is_symlink && starts_with (codes "system-") profile.name
        then install_system args profile st
        else some st

    unfoldable pub install_profiles : Args → List Profile → State → Option State
    install_profiles args [] st = some st
    install_profiles args (p ∷ ps) st = install_profile args p st >>= install_profiles args ps

    unfoldable pub main : Args → List Profile → Fs → Option Fs
    main args profiles fs = do
      ready ← prepare args fs
      st ←
          install_profiles args profiles
            (record { fs = ready; known_efi_files = []; known_entry_files = [] })
      cleaned ← clean (efi_dir args) st.known_efi_files st.fs
      clean (entries_dir args) st.known_entry_files cleaned
