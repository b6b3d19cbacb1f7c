-- ===== src/NixosInstall/Forgets.antt =====
-- The installer run again: what it does to the entries that it finds.
use mathlib.Core.Path.{subst}
use tinyboot.Prelude.{
  ℕ, true, false, List, [], ◌∷◌, Option, none, some, ◌≡◌, refl, arith, sym, ◌∙◌, Bool-cases, inl,
  inr, All, some-injective,
}
use tinyboot.Result.{to_option}
use tinyboot.Text.{Text}
use tinyboot.FilePath.{FilePath, append, from_text}
use tinyboot.Fs.{Fs, is_file, read_to_string, create_dir_all}
use tinyboot.NixosInstall.{
  Args, State, Generation, Profile, unwrap, entries_dir, efi_dir, install_specialisations,
  install_v1, install_system, install_profile, install_profiles, prepare, main, clean,
  entry_number_of, write_over, loader_conf, loader_conf_text,
}
use tinyboot.NixosInstall.Clean.{is_in, lookup-clean}
use tinyboot.NixosInstall.Keeps.{
  KeepsFiles, write-KeepsFiles, create_dir_all-KeepsFiles, write_over-KeepsFiles, >>=-some,
}
use tinyboot.NixosInstall.Installed.{
  IsEntryOf, KeepsState, KeepsState-trans, IsEntryOf-KeepsFiles, HasEntry, is_system, IsInstalled,
  IsInstalled-KeepsFiles, Signs, Globs,
}
use tinyboot.NixosInstall.Lost.{install_generation-KeepsState, install_specialisations-KeepsState}

prepare-KeepsFiles :
    (args : Args) (fs : Fs) {fs' : Fs} → prepare args fs ≡ some fs' → KeepsFiles fs fs'
unfolding prepare
prepare-KeepsFiles args fs h q is_there =
    let (fs1, first, h1) = >>=-some (unwrap (create_dir_all (efi_dir args) fs)) _ h in
    let (fs2, second, h2) = >>=-some (unwrap (create_dir_all (entries_dir args) fs1)) _ h1 in
    write-KeepsFiles _ _ fs2 h2 q
      (create_dir_all-KeepsFiles _ fs1 second q (create_dir_all-KeepsFiles _ fs first q is_there))

module _ (sign : FilePath → Fs → Option Fs) (glob : Text → Fs → Option (List FilePath))
    (args : Args) (signs : Signs sign) (globs : Globs args glob) (json_filename : Text)
    (from_json : Text → Option (Option Generation)) where
  install_v1-KeepsState :
      (n : ℕ) (g : Option Generation) (st st' : State) (q : FilePath)
      → IsEntryOf args n st.fs q
      → install_v1 sign glob json_filename from_json args n g st ≡ some st'
      → KeepsState st st'
  install_v1-KeepsState n none st st' q e h =
      subst (KeepsState st) (some-injective h) ((λ r there. there), refl)
  install_v1-KeepsState n (some g) st st' q e h =
      let (st1, first, last) =
        >>=-some (install_specialisations sign glob args n g.specialisations st) _ h in
      let keep : KeepsState st st1 =
        install_specialisations-KeepsState sign glob args signs globs n g.specialisations st st1 q e
          first in
      KeepsState-trans st st1 st' keep (
        install_generation-KeepsState sign glob args signs globs n g.bootspec none st1 st' q
          (IsEntryOf-KeepsFiles args n st.fs st1.fs q keep.0 e) last)

  install_system-KeepsState :
      (p : Profile) (st st' : State)
      → HasEntry args st.fs p
      → install_system sign glob json_filename from_json args p st ≡ some st'
      → KeepsState st st'
  unfolding install_system
  install_system-KeepsState p st st' e h =
      let (n, numbered, h1) = >>=-some (entry_number_of p.name) _ h in
      let same : e.number ≡ n = some-injective (sym e.is_numbered ∙ numbered) in
      let (closure, target, h2) = >>=-some p.closure _ h1 in
      let (json, read, h3) =
        >>=-some (to_option (read_to_string (append closure (from_text json_filename)) st.fs)) _
          h2 in
      let (g, parsed, h4) = >>=-some (from_json json) _ h3 in
      let (fs, written, h5) =
        >>=-some
          (write_over (append args.efi_sys_mount_point loader_conf)
            (loader_conf_text args n closure) st.fs)
          _ h4 in
      let keep : KeepsFiles st.fs fs = write_over-KeepsFiles _ _ st.fs written in
      let mid : State = record st { fs = fs } in
      KeepsState-trans st mid st' (keep, refl)
        (install_v1-KeepsState n g mid st' e.path
          (IsEntryOf-KeepsFiles args n st.fs fs e.path keep
            (subst (λ m. IsEntryOf args m st.fs e.path) same e.entry))
          h5)

  install_profile-KeepsState :
      (p : Profile) (st st' : State)
      → IsInstalled args st.fs p
      → install_profile sign glob json_filename from_json args p st ≡ some st'
      → KeepsState st st'
  unfolding install_profile
  install_profile-KeepsState p st st' i h = elim (Bool-cases (is_system p)) [
    | inl on ↦ elim i [
      | inl off ↦ cc
      | inr e ↦ install_system-KeepsState p st st' e (rw (on, install_profile) at h)
    ]
    | inr off ↦
        subst (KeepsState st) (some-injective (rw (off, install_profile) at h))
          ((λ r there. there), refl)
  ]

  install_profiles-KeepsState :
      (ps : List Profile) (st st' : State)
      → All (IsInstalled args st.fs) ps
      → install_profiles sign glob json_filename from_json args ps st ≡ some st'
      → KeepsState st st'
  unfolding install_profiles
  install_profiles-KeepsState [] st st' is_installed h =
      subst (KeepsState st) (some-injective h) ((λ r there. there), refl)
  install_profiles-KeepsState (p ∷ ps) st st' (i, is_installed) h =
      let (st1, first, rest) =
        >>=-some (install_profile sign glob json_filename from_json args p st) _ h in
      let keep : KeepsState st st1 = install_profile-KeepsState p st st1 i first in
      KeepsState-trans st st1 st' keep (
        install_profiles-KeepsState ps st1 st'
          (IsInstalled-KeepsFiles args st.fs st1.fs ps keep.0 is_installed) rest)

  -- The end of a run in which no entry is known.
  clean-none :
      (d : FilePath) (fs : Fs) {fs' : Fs}
      → clean d [] fs ≡ some fs'
      → (q : FilePath) → is_in d q ≡ true
      → is_file q fs' ≡ false
  unfolding is_file
  clean-none d fs h q inside = ground (arith, lookup-clean d [] fs h q)

  -- A run that returns leaves no file in the directory of the entries if each system profile has
  -- there, before the run, an entry of its generation: where the program that signs a file removes
  -- none, and the glob matches all entries that fit the pattern of a generation.
  pub main-lost :
      (profiles : List Profile) (fs fs' : Fs)
      → All (IsInstalled args fs) profiles
      → main sign glob json_filename from_json args profiles fs ≡ some fs'
      → (q : FilePath) → is_in (entries_dir args) q ≡ true
      → is_file q fs' ≡ false
  unfolding main
  main-lost profiles fs fs' is_installed h q inside =
      let (ready, prepared, h1) = >>=-some (prepare args fs) _ h in
      let st : State = record { fs = ready; known_efi_files = []; known_entry_files = [] } in
      let (st', installed, h2) =
        >>=-some (install_profiles sign glob json_filename from_json args profiles st) _ h1 in
      let keep : KeepsState st st' =
        install_profiles-KeepsState profiles st st'
          (IsInstalled-KeepsFiles args fs ready profiles (prepare-KeepsFiles args fs prepared)
            is_installed)
          installed in
      let (cleaned, efi, h3) = >>=-some (clean (efi_dir args) st'.known_efi_files st'.fs) _ h2 in
      clean-none (entries_dir args) cleaned
        (subst (λ known. clean (entries_dir args) known cleaned ≡ some fs') keep.1 h3) q inside
