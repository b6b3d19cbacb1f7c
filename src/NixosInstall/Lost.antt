-- ===== src/NixosInstall/Lost.antt =====
-- The installer on a generation whose entry is there.
use mathlib.Core.Path.{subst}
use tinyboot.Prelude.{
  ℕ, Bool, true, false, List, [], ◌∷◌, Option, none, some, ◌≡◌, refl, inl, inr, some-injective,
}
use tinyboot.Result.{Result-cases}
use tinyboot.Text.{Text}
use tinyboot.FilePath.{FilePath, append, from_text, named}
use tinyboot.Fs.{Fs, write, read_to_string}
use tinyboot.NixosInstall.{
  Args, State, Bootspec, unwrap, glob_pattern, match_entries, install_file, install_initrd,
  write_entry, install_generation, install_specialisations, store_name, efi_nixos,
}
use tinyboot.NixosInstall.Keeps.{write-KeepsFiles, >>=-some, match_entries-found}
use tinyboot.NixosInstall.Installed.{
  IsEntryOf, KeepsState, KeepsState-trans, IsEntryOf-KeepsFiles, Signs, Globs,
}

module _ (sign : FilePath → Fs → Option Fs) (glob : Text → Fs → Option (List FilePath))
    (args : Args) (signs : Signs sign) (globs : Globs args glob) where
  install_file-KeepsState :
      (source target : FilePath) (st st' : State)
      → install_file sign glob args source target st ≡ some st'
      → KeepsState st st'
  unfolding install_file
  install_file-KeepsState source target st st' h =
      elim (Result-cases (read_to_string source st.fs)) [
        | inl (contents, found) ↦
            let path : FilePath = append args.efi_sys_mount_point target in
            let (written, by_write, h1) =
              >>=-some (unwrap (write path contents st.fs)) _ (rw (found, install_file) at h) in
            let (signed, by_sign, h2) = >>=-some (sign path written) _ h1 in
            subst (KeepsState st) (some-injective h2) (
              (λ q there.
                  signs path written signed by_sign q
                    (write-KeepsFiles path contents st.fs by_write q there)),
              refl,
            )
        | inr (e, failed) ↦ cc (rw (failed, install_file) at h)
      ]

  install_initrd-KeepsState :
      (source : Option FilePath) (st : State) {r : Option FilePath × State}
      → install_initrd sign glob args source st ≡ some r
      → KeepsState st r.1
  unfolding install_initrd
  install_initrd-KeepsState none st h =
      subst (λ (r : Option FilePath × State). KeepsState st r.1) (some-injective h)
        ((λ q there. there), refl)
  install_initrd-KeepsState (some source) st h =
      let (name, named, h1) = >>=-some (store_name source) _ h in
      let (st', installed, h2) =
        >>=-some (install_file sign glob args source (append efi_nixos (from_text name)) st) _ h1 in
      subst (λ (r : Option FilePath × State). KeepsState st r.1) (some-injective h2)
        (install_file-KeepsState source _ st st' installed)

  write_entry-true :
      (path : FilePath) (contents : Text) (matched : Bool × List FilePath) (st : State)
      {st' : State}
      → matched.0 ≡ true
      → write_entry sign glob path contents matched st ≡ some st'
      → KeepsState st st'
  unfolding write_entry
  write_entry-true path contents (true, known) st found h =
      subst (KeepsState st) (some-injective h) ((λ q there. there), refl)
  write_entry-true path contents (false, known) st found h = cc

  -- Where the entry of a generation is there, nothing is written for it.
  pub install_generation-KeepsState :
      (n : ℕ) (g : Bootspec) (specialisation : Option Text) (st st' : State) (q : FilePath)
      → IsEntryOf args n st.fs q
      → install_generation sign glob args n g specialisation st ≡ some st'
      → KeepsState st st'
  unfolding install_generation write_entry
  install_generation-KeepsState n g specialisation st st' q e h =
      let (kernel_name, named, h1) = >>=-some (store_name g.kernel) _ h in
      let (st1, kernel, h2) =
        >>=-some
          (install_file sign glob args g.kernel (append efi_nixos (from_text kernel_name)) st) _
          h1 in
      let ((initrd, st2), initrds, h3) =
        >>=-some (install_initrd sign glob args g.initrd st1) _ h2 in
      let keep : KeepsState st st2 =
        KeepsState-trans st st1 st2 (install_file-KeepsState g.kernel _ st st1 kernel)
          (install_initrd-KeepsState g.initrd st1 initrds) in
      let (es, matches, h4) = >>=-some (glob (glob_pattern args n) st2.fs) _ h3 in
      let (matched, by_match, h5) = >>=-some (match_entries es (false, st2.known_efi_files)) _ h4 in
      let found : matched.0 ≡ true =
        match_entries-found q _ es st2.known_efi_files false e.is_named e.no_specialisation
          (globs n st2.fs es q matches (IsEntryOf-KeepsFiles args n st.fs st2.fs q keep.0 e))
          by_match in
      KeepsState-trans st st2 st' keep (write_entry-true _ _ matched st2 found h5)

  pub install_specialisations-KeepsState :
      (n : ℕ) (gs : List (Text × Bootspec)) (st st' : State) (q : FilePath)
      → IsEntryOf args n st.fs q
      → install_specialisations sign glob args n gs st ≡ some st'
      → KeepsState st st'
  unfolding install_specialisations
  install_specialisations-KeepsState n [] st st' q e h =
      subst (KeepsState st) (some-injective h) ((λ r there. there), refl)
  install_specialisations-KeepsState n ((name, g) ∷ gs) st st' q e h =
      let (st1, first, rest) =
        >>=-some (install_generation sign glob args n g (some name) st) _ h in
      let keep : KeepsState st st1 =
        install_generation-KeepsState n g (some name) st st1 q e first in
      KeepsState-trans st st1 st' keep (
        install_specialisations-KeepsState n gs st1 st' q
          (IsEntryOf-KeepsFiles args n st.fs st1.fs q keep.0 e) rest)
