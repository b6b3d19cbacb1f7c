-- ===== src/NixosInstall/FirstRun.antt =====
-- The installer run for the first time, for one generation.
mod Tests
use tinyboot.NixosInstall.FirstEntry.{
  target, IsNamed, IsNamedOption, SignsOnly, GlobsThere, IsWritten, read_to_string-lookup,
  install_generation-IsWritten,
}
use tinyboot.NixosInstall.Vacant.{
  IsVacant, write-IsVacant, is_in-mounted, is_in-machine_id, prepare-IsVacant, prepare-lookup,
}
use tinyboot.FilePath.Laws.{equal_path_iff}
use mathlib.Core.Path.{subst}
use tinyboot.Prelude.{
  arith, Bool-cases, ℕ, true, false, List, [], ◌∷◌, Option, none, some, ◌>>=◌, ◌≡◌, refl, ap, sym,
  ◌∙◌, inl, inr, some-injective,
}
use tinyboot.Result.{ok, Result, Result-cases, to_option}
use tinyboot.Text.{codes, Text}
use tinyboot.FilePath.{equal_path, FilePath, append, from_text}
use tinyboot.Fs.{IoError, Fs, file, lookup, is_file, read_to_string, write}
use tinyboot.NixosInstall.{
  entries_srel, Args, State, Bootspec, Generation, Profile, unwrap, store_name, efi_nixos,
  entries_dir, efi_dir, machine_id_path, entry_contents, glob_pattern, match_entries,
  entry_number_of, loader_conf, loader_conf_text, write_over, clean, prepare, install_file,
  install_initrd, write_entry, install_generation, install_specialisations, install_system,
  install_profile, install_profiles, main,
}
use tinyboot.NixosInstall.Clean.{lookup-clean, is_in}
use tinyboot.NixosInstall.Keeps.{lookup-write, >>=-some}
use tinyboot.NixosInstall.Installed.{is_system}
use tinyboot.NixosInstall.EntryPath.{
  is_in-entry_path, entry_path, equal_path_refl, cleaned-entry, cleaned-only,
}

-- The directory of the entries holds the entry of the generation, and no other file.
pub record HoldsOnly (args : Args) (n : ℕ) (g : Bootspec) (fs : Fs) : Type 0 where
  pub linux : FilePath
  pub is_kernel : target g.kernel ≡ some linux
  pub there :
      lookup (entry_path args n none) fs
      ≡ some (
          file
            (entry_contents g none linux (g.initrd >>= target) (read_to_string machine_id_path fs)))
  pub no_other :
      (q : FilePath)
      → is_in (entries_dir args) q ≡ true
      → is_file q fs ≡ true
      → q ≡ entry_path args n none

-- What the profile leads to: the file of its closure that describes one generation, with no
-- specialisations, whose files have names to be copied under.
pub record LeadsTo (json_filename : Text) (from_json : Text → Option (Option Generation))
    (p : Profile) (n : ℕ) (g : Bootspec) (path : FilePath) (json : Text) : Type 0 where
  pub closure : FilePath
  pub on : is_system p ≡ true
  pub is_number : entry_number_of p.name ≡ some n
  pub resolves : p.closure ≡ some closure
  pub is_path : append closure (from_text json_filename) ≡ path
  pub parses : from_json json ≡ some (some (record { bootspec = g; specialisations = [] }))
  pub kernel_named : IsNamed g.kernel
  pub initrd_named : IsNamedOption g.initrd

read_to_string-file :
    (q : FilePath) (s : Text) (fs : Fs) → lookup q fs ≡ some (file s) → read_to_string q fs ≡ ok s
unfolding read_to_string
read_to_string-file q s fs h = rw (h, read_to_string)

entry_path-ne-machine_id :
    (args : Args) (n : ℕ) → equal_path (entry_path args n none) machine_id_path ≡ false
entry_path-ne-machine_id args n =
    elim (Bool-cases (equal_path (entry_path args n none) machine_id_path)) [
      | inl same ↦
          let e : is_in (entries_dir args) (entry_path args n none)
              ≡ is_in (entries_dir args) machine_id_path =
            ap (is_in (entries_dir args)) ((equal_path_iff _ _).0 same) in
          cc (
            e,
            is_in-machine_id args (codes "loader") (codes "entries"),
            is_in-entry_path args n (entries_dir args),
            equal_path_refl (entries_dir args),
          )
      | inr other ↦ other
    ]

-- The last loops leave the id of the machine.
cleaned-machine_id :
    (args : Args) (a b : Text) (known : List FilePath) (fs fs' : Fs)
    → clean
        (append args.efi_sys_mount_point (record { absolute = false; parts = a ∷ b ∷ [] }))
        known
        fs
      ≡ some fs'
    → lookup machine_id_path fs' ≡ lookup machine_id_path fs
cleaned-machine_id args a b known fs fs' h =
    ground (arith, lookup-clean _ known fs h machine_id_path, is_in-machine_id args a b)

HoldsOnly-cleaned :
    (args : Args) (n : ℕ) (g : Bootspec) (mid st : State) (cleaned fs : Fs)
    → IsWritten args n g none mid st
    → mid.known_entry_files ≡ []
    → clean (efi_dir args) st.known_efi_files st.fs ≡ some cleaned
    → clean (entries_dir args) st.known_entry_files cleaned ≡ some fs
    → HoldsOnly args n g fs
HoldsOnly-cleaned args n g mid st cleaned fs written unknown efi entries =
    let known : st.known_entry_files ≡ entry_path args n none ∷ [] =
      written.known ∙ ap (λ x. entry_path args n none ∷ x) unknown in
    let k : clean (entries_dir args) (entry_path args n none ∷ []) cleaned ≡ some fs =
      subst (λ ks. clean (entries_dir args) ks cleaned ≡ some fs) known entries in
    let id : read_to_string machine_id_path st.fs ≡ read_to_string machine_id_path fs =
      read_to_string-lookup machine_id_path st.fs fs (
        cleaned-machine_id args (codes "loader") (codes "entries") _ cleaned fs k
        ∙ cleaned-machine_id args (codes "EFI") (codes "nixos") _ st.fs cleaned efi) in
    record {
      linux = written.linux;
      is_kernel = written.is_kernel;
      there =
          cleaned-entry args n st.known_efi_files st.fs cleaned fs efi k
          ∙ written.there
          ∙ ap (λ x. some (file (entry_contents g none written.linux (g.initrd >>= target) x))) id;
      no_other = λ q. cleaned-only (entries_dir args) (entry_path args n none) q cleaned fs k;
    }

module _ (sign : FilePath → Fs → Option Fs) (glob : Text → Fs → Option (List FilePath))
    (args : Args) (signs : SignsOnly sign) (globs : GlobsThere args glob) (json_filename : Text)
    (from_json : Text → Option (Option Generation)) (p : Profile) (n : ℕ) (g : Bootspec)
    (path : FilePath) (json : Text) (leads : LeadsTo json_filename from_json p n g path json) where
  install_system-IsWritten :
      (st st' : State)
      → lookup path st.fs ≡ some (file json)
      → IsVacant (entries_dir args) st.fs
      → install_system sign glob json_filename from_json args p st ≡ some st'
      → (mid : State) × IsWritten args n g none mid st'
        × (mid.known_entry_files ≡ st.known_entry_files)
  unfolding install_system install_specialisations write_over
  install_system-IsWritten st st' there vacant h =
      let found : read_to_string (append leads.closure (from_text json_filename)) st.fs ≡ ok json =
        ap (λ (q : FilePath). read_to_string q st.fs) leads.is_path
        ∙ read_to_string-file path json st.fs there in
      let (fs, written, rest) =
        >>=-some
          (write_over (append args.efi_sys_mount_point loader_conf)
            (loader_conf_text args n leads.closure) st.fs)
          _ (rw (leads.is_number, leads.resolves, found, leads.parses, install_system) at h) in
      let mid : State = record st { fs = fs } in
      (
        mid,
        install_generation-IsWritten sign glob args signs globs n g none mid st' leads.kernel_named
            leads.initrd_named
            (write-IsVacant _ _ _ st.fs (is_in-mounted args (codes "loader") (codes "loader.conf"))
              written vacant)
            (entry_path-ne-machine_id args n) rest,
        refl,
      )

  -- A run that succeeds, for one system profile whose generation has no specialisations, from a tree
  -- with nothing in the directory of the entries, leaves there the entry of the generation, and no
  -- other file. The entry has the contents that the generation, the copied kernel and initrd and the
  -- id of the machine give.
  -- The conditions are that the file that describes the generation is there at the start, and is not
  -- `loader/entries.srel` of the EFI system partition; that a kernel or an initrd that has a name to
  -- be copied under has the name of a file; that the program that signs a file changes no other; and
  -- that the glob of the entries matches none where the directory of the entries holds nothing.
  pub main-first_run :
      (fs fs' : Fs)
      → lookup path fs ≡ some (file json)
      → equal_path (append args.efi_sys_mount_point entries_srel) path ≡ false
      → IsVacant (entries_dir args) fs
      → main sign glob json_filename from_json args (p ∷ []) fs ≡ some fs'
      → HoldsOnly args n g fs'
  unfolding main install_profiles install_profile
  main-first_run fs fs' there apart vacant h =
      let (ready, prepared, h1) = >>=-some (prepare args fs) _ h in
      let st : State = record { fs = ready; known_efi_files = []; known_entry_files = [] } in
      let (st', installed, h2) =
        >>=-some (install_profiles sign glob json_filename from_json args (p ∷ []) st) _ h1 in
      let (st1, first, last) =
        >>=-some (install_profile sign glob json_filename from_json args p st) _ installed in
      let (mid, written, unknown) =
        install_system-IsWritten st st1 (prepare-lookup args fs path json prepared apart there)
          (prepare-IsVacant args fs prepared vacant) (rw (leads.on, install_profile) at first) in
      let (cleaned, efi, h3) = >>=-some (clean (efi_dir args) st'.known_efi_files st'.fs) _ h2 in
      let same : st1 ≡ st' = some-injective last in
      let written' : IsWritten args n g none mid st' =
        subst (IsWritten args n g none mid) same written in
      HoldsOnly-cleaned args n g mid st' cleaned fs' written' unknown efi h3
