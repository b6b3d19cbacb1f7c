-- ===== src/NixosInstall/FirstEntry.antt =====
-- A generation whose entry is not there: its files and its entry are written.
use tinyboot.NixosInstall.Vacant.{IsVacant, write-IsVacant}
use tinyboot.FilePath.Laws.{IsFileName, equal_path_iff, from_text-named, parent-append}
use mathlib.Core.Path.{subst}
use tinyboot.Prelude.{
  append_assoc, Bool-cases, ℕ, false, List, [], ◌∷◌, Option, none, some, ◌>>=◌, ◌≡◌, refl, ap, sym,
  ◌∙◌, inl, inr, some-injective,
}
use tinyboot.Result.{Result, Result-cases}
use tinyboot.Text.{Text}
use tinyboot.FilePath.{named, equal_path, FilePath, append, from_text}
use tinyboot.Fs.{IoError, Fs, file, lookup, read_to_string, write}
use tinyboot.NixosInstall.{
  Args, State, Bootspec, unwrap, store_name, efi_nixos, entries_dir, efi_dir, machine_id_path,
  entry_contents, glob_pattern, match_entries, install_file, install_initrd, write_entry,
  install_generation,
}
use tinyboot.NixosInstall.Clean.{is_in}
use tinyboot.NixosInstall.Keeps.{lookup-write, >>=-some}
use tinyboot.NixosInstall.EntryPath.{entries_dir-ne-efi_dir, entry_path, equal_path_refl}

-- Where a file of the store is copied to, from the mount point of the EFI system partition.
abbrev pub target : FilePath → Option FilePath
target source = store_name source >>= λ name. some (append efi_nixos (from_text name))

-- The name under which a file of the store is copied, if it has one, is that of a file.
abbrev pub IsNamed : FilePath → Type 0
IsNamed source = (name : Text) → store_name source ≡ some name → IsFileName name

abbrev pub IsNamedOption : Option FilePath → Type 0
IsNamedOption none = Unit
IsNamedOption (some source) = IsNamed source

-- The program that signs a file changes no other.
abbrev pub SignsOnly : (FilePath → Fs → Option Fs) → Type 0
SignsOnly sign =
    (p : FilePath) (fs fs' : Fs)
    → sign p fs ≡ some fs'
    → (q : FilePath) → equal_path p q ≡ false
    → lookup q fs' ≡ lookup q fs

-- A glob gives paths that are there: it matches no entry of a directory that holds nothing.
abbrev pub GlobsThere : Args → (Text → Fs → Option (List FilePath)) → Type 0
GlobsThere args glob =
    (n : ℕ) (fs : Fs) → IsVacant (entries_dir args) fs → glob (glob_pattern args n) fs ≡ some []

-- The directory of the entries holds nothing, and the files that are known are known.
abbrev pub KeepsVacant : Args → State → State → Type 0
KeepsVacant args st st' =
    IsVacant (entries_dir args) st'.fs × (st'.known_entry_files ≡ st.known_entry_files)

-- The entry of a generation is there with its contents, and is known.
pub record IsWritten (args : Args) (n : ℕ) (g : Bootspec) (specialisation : Option Text)
    (st st' : State) : Type 0 where
  pub linux : FilePath
  pub is_kernel : target g.kernel ≡ some linux
  pub there :
      lookup (entry_path args n specialisation) st'.fs
      ≡ some (
          file (
            entry_contents g specialisation linux
              (g.initrd >>= target)
              (read_to_string machine_id_path st'.fs)))
  pub known : st'.known_entry_files ≡ entry_path args n specialisation ∷ st.known_entry_files

target-some :
    (source : FilePath) (name : Text)
    → store_name source ≡ some name
    → target source ≡ some (append efi_nixos (from_text name))
target-some source name h = ap (λ o. o >>= λ name'. some (append efi_nixos (from_text name'))) h

sign-IsVacant :
    (sign : FilePath → Fs → Option Fs) (d p : FilePath) (fs fs' : Fs)
    → SignsOnly sign
    → is_in d p ≡ false
    → sign p fs ≡ some fs'
    → IsVacant d fs
    → IsVacant d fs'
sign-IsVacant sign d p fs fs' signs outside h vacant q inside = elim (Bool-cases (equal_path p q)) [
  | inl same ↦
      let moved : is_in d p ≡ is_in d q = ap (is_in d) ((equal_path_iff p q).0 same) in
      cc (moved, inside, outside)
  | inr other ↦ signs p fs fs' h q other ∙ vacant q inside
]

append-efi_nixos :
    (m : FilePath) (name : Text)
    → append m (append efi_nixos (named name)) ≡ append (append m efi_nixos) (named name)
unfolding append
append-efi_nixos m name =
    ap (λ ps. record { absolute = m.absolute; parts = ps })
      (sym (append_assoc m.parts efi_nixos.parts (name ∷ [])))

efi_dir-ne-entries_dir : (args : Args) → equal_path (efi_dir args) (entries_dir args) ≡ false
efi_dir-ne-entries_dir args = elim (Bool-cases (equal_path (efi_dir args) (entries_dir args))) [
  | inl same ↦
      let e : efi_dir args ≡ entries_dir args = (equal_path_iff _ _).0 same in
      cc (entries_dir-ne-efi_dir args, (equal_path_iff (entries_dir args) (efi_dir args)).1 (sym e))
  | inr other ↦ other
]

-- What is copied is not put among the entries.
is_in-copied :
    (args : Args) (name : Text)
    → IsFileName name
    → is_in (entries_dir args) (append args.efi_sys_mount_point (append efi_nixos (from_text name)))
      ≡ false
unfolding is_in
is_in-copied args name is_name =
    let m : FilePath = args.efi_sys_mount_point in
    rw
      (
        ap (λ x. append m (append efi_nixos x)) (from_text-named name is_name)
            ∙ append-efi_nixos m name,
        is_in,
        parent-append (efi_dir args) name,
      )
      (efi_dir-ne-entries_dir args)

pub read_to_string-lookup :
    (p : FilePath) (fs fs' : Fs)
    → lookup p fs' ≡ lookup p fs
    → read_to_string p fs ≡ read_to_string p fs'
unfolding read_to_string
read_to_string-lookup p fs fs' h = rw (h, read_to_string)

module _ (sign : FilePath → Fs → Option Fs) (glob : Text → Fs → Option (List FilePath))
    (args : Args) (signs : SignsOnly sign) (globs : GlobsThere args glob) where
  install_file-KeepsVacant :
      (source : FilePath) (name : Text) (st st' : State)
      → IsFileName name
      → install_file sign glob args source (append efi_nixos (from_text name)) st ≡ some st'
      → IsVacant (entries_dir args) st.fs
      → KeepsVacant args st st'
  unfolding install_file
  install_file-KeepsVacant source name st st' is_name h vacant =
      elim (Result-cases (read_to_string source st.fs)) [
        | inl (contents, found) ↦
            let p : FilePath =
              append args.efi_sys_mount_point (append efi_nixos (from_text name)) in
            let (written, by_write, h1) =
              >>=-some (unwrap (write p contents st.fs)) _ (rw (found, install_file) at h) in
            let (signed, by_sign, h2) = >>=-some (sign p written) _ h1 in
            let outside = is_in-copied args name is_name in
            let empty : IsVacant (entries_dir args) signed =
              sign-IsVacant sign _ p written signed signs outside by_sign
                (write-IsVacant _ p contents st.fs outside by_write vacant) in
            (
              subst (λ (s : State). IsVacant (entries_dir args) s.fs) (some-injective h2) empty,
              sym (ap (λ (s : State). s.known_entry_files) (some-injective h2)),
            )
        | inr (e, failed) ↦ cc (rw (failed, install_file) at h)
      ]

  install_initrd-target :
      (source : Option FilePath) (st : State) {r : Option FilePath × State}
      → IsNamedOption source
      → install_initrd sign glob args source st ≡ some r
      → IsVacant (entries_dir args) st.fs
      → (r.0 ≡ (source >>= target)) × KeepsVacant args st r.1
  unfolding install_initrd
  install_initrd-target none st {r} is_named h vacant =
      subst (λ (x : Option FilePath × State). (x.0 ≡ none) × KeepsVacant args st x.1)
        (some-injective h) (refl, (vacant, refl))
  install_initrd-target (some source) st {r} is_named h vacant =
      let (name, is_name, h1) = >>=-some (store_name source) _ h in
      let (st', copied, h2) =
        >>=-some (install_file sign glob args source (append efi_nixos (from_text name)) st) _ h1 in
      subst (λ (x : Option FilePath × State). (x.0 ≡ target source) × KeepsVacant args st x.1)
        (some-injective h2)
        (
          sym (target-some source name is_name),
          install_file-KeepsVacant source name st st' (is_named name is_name) copied vacant,
        )

  write_entry-false :
      (path : FilePath) (contents : Text) (known : List FilePath) (st : State) {st' : State}
      → write_entry sign glob path contents (false, known) st ≡ some st'
      → (lookup path st'.fs ≡ some (file contents))
        × ((st'.known_entry_files ≡ path ∷ st.known_entry_files)
            × ((q : FilePath) → equal_path path q ≡ false → lookup q st'.fs ≡ lookup q st.fs))
  unfolding write_entry
  write_entry-false path contents known st h =
      let (fs, written, h1) = >>=-some (unwrap (write path contents st.fs)) _ h in
      (
        ap (λ (s : State). lookup path s.fs) (sym (some-injective h1))
            ∙ lookup-write path contents st.fs written path
            ∙ rw (equal_path_refl path),
        (
          sym (ap (λ (s : State). s.known_entry_files) (some-injective h1)),
          λ q other.
              ap (λ (s : State). lookup q s.fs) (sym (some-injective h1))
              ∙ lookup-write path contents st.fs written q
              ∙ rw other,
        ),
      )

  -- In a directory of entries that holds nothing, the entry of a generation is written.
  pub install_generation-IsWritten :
      (n : ℕ) (g : Bootspec) (specialisation : Option Text) (st st' : State)
      → IsNamed g.kernel
      → IsNamedOption g.initrd
      → IsVacant (entries_dir args) st.fs
      → equal_path (entry_path args n specialisation) machine_id_path ≡ false
      → install_generation sign glob args n g specialisation st ≡ some st'
      → IsWritten args n g specialisation st st'
  unfolding install_generation match_entries
  install_generation-IsWritten n g specialisation st st' kernel_named initrd_named vacant apart h =
      let (kernel_name, is_name, h1) = >>=-some (store_name g.kernel) _ h in
      let linux : FilePath = append efi_nixos (from_text kernel_name) in
      let (st1, kernel, h2) = >>=-some (install_file sign glob args g.kernel linux st) _ h1 in
      let ((initrd, st2), initrds, h3) =
        >>=-some (install_initrd sign glob args g.initrd st1) _ h2 in
      let (vacant1, unknown1) =
        install_file-KeepsVacant g.kernel kernel_name st st1 (kernel_named kernel_name is_name)
          kernel vacant in
      let (is_target, (vacant2, unknown2)) =
        install_initrd-target g.initrd st1 initrd_named initrds vacant1 in
      let id : Result Text IoError = read_to_string machine_id_path st2.fs in
      let (there, (known, others)) =
        write_entry-false (entry_path args n specialisation)
          (entry_contents g specialisation linux initrd id) st2.known_efi_files st2
          (rw (globs n st2.fs vacant2) at h3) in
      let same_id : id ≡ read_to_string machine_id_path st'.fs =
        read_to_string-lookup machine_id_path st2.fs st'.fs (others machine_id_path apart) in
      record {
        linux = linux;
        is_kernel = target-some g.kernel kernel_name is_name;
        there =
            there
            ∙ ap (λ x. some (file (entry_contents g specialisation linux x id))) is_target
            ∙ ap (λ x. some (file (entry_contents g specialisation linux (g.initrd >>= target) x)))
                same_id;
        known = known ∙ ap (λ x. entry_path args n specialisation ∷ x) (unknown2 ∙ unknown1);
      }
