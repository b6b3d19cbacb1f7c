-- ===== src/NixosInstall/EntryPath.antt =====
-- The path of the entry of a generation, and what the last loops of the installer do to it.
use tinyboot.Prelude.{
  ℕ, true, false, List, [], ◌∷◌, ◌++◌, Option, none, some, ◌≡◌, refl, arith, ap, sym, ◌∙◌,
  Bool-cases, inl, inr,
}
use tinyboot.Text.{Text, equal}
use tinyboot.Text.Cut.{equal_refl}
use tinyboot.FilePath.{FilePath, append, from_text, parent, equal_parts, equal_path}
use tinyboot.FilePath.Laws.{equal_path_iff, parent-append, from_text-named}
use tinyboot.Fs.{Fs, lookup, is_file}
use tinyboot.NixosInstall.{
  Args, efi_nixos, loader_entries, entries_dir, efi_dir, entry_filename, clean,
}
use tinyboot.NixosInstall.Clean.{is_in, lookup-clean}
use tinyboot.NixosInstall.EntryName.{entry_filename-IsFileName}

abbrev pub entry_path : Args → ℕ → Option Text → FilePath
entry_path args n specialisation =
    append (entries_dir args) (from_text (entry_filename n specialisation args.max_tries))

pub equal_path_refl : (p : FilePath) → equal_path p p ≡ true
equal_path_refl p = (equal_path_iff p p).1 refl

equal_parts-append : (ps qs rs : List Text) → equal_parts (ps ++ qs) (ps ++ rs) ≡ equal_parts qs rs
unfolding equal_parts
equal_parts-append [] qs rs = refl
equal_parts-append (p ∷ ps) qs rs = rw (equal_refl p) (equal_parts-append ps qs rs)

loader_entries-ne-efi_nixos : equal_parts loader_entries.parts efi_nixos.parts ≡ false
unfolding equal_parts equal
loader_entries-ne-efi_nixos = refl

pub entries_dir-ne-efi_dir : (args : Args) → equal_path (entries_dir args) (efi_dir args) ≡ false
unfolding equal_path append
entries_dir-ne-efi_dir args = ground (
  arith,
  equal_parts-append args.efi_sys_mount_point.parts loader_entries.parts efi_nixos.parts,
  loader_entries-ne-efi_nixos,
)

entry_path-parent :
    (args : Args) (n : ℕ) → parent (entry_path args n none) ≡ some (entries_dir args)
entry_path-parent args n =
    ap (λ x. parent (append (entries_dir args) x))
      (from_text-named (entry_filename n none args.max_tries)
        (entry_filename-IsFileName n args.max_tries none tt))
    ∙ parent-append (entries_dir args) (entry_filename n none args.max_tries)

pub is_in-entry_path :
    (args : Args) (n : ℕ) (d : FilePath)
    → is_in d (entry_path args n none) ≡ equal_path (entries_dir args) d
unfolding is_in
is_in-entry_path args n d = rw (entry_path-parent args n, is_in)

-- What the last two loops leave where one entry is known.
pub cleaned-entry :
    (args : Args) (n : ℕ) (known : List FilePath) (fs fs1 fs2 : Fs)
    → clean (efi_dir args) known fs ≡ some fs1
    → clean (entries_dir args) (entry_path args n none ∷ []) fs1 ≡ some fs2
    → lookup (entry_path args n none) fs2 ≡ lookup (entry_path args n none) fs
cleaned-entry args n known fs fs1 fs2 h k =
    lookup-clean (entries_dir args) (entry_path args n none ∷ []) fs1 k (entry_path args n none)
    ∙ rw
        (
          equal_path_refl (entry_path args n none),
          is_in-entry_path args n (entries_dir args),
          equal_path_refl (entries_dir args),
        )
        (lookup-clean (efi_dir args) known fs h (entry_path args n none)
          ∙ rw (is_in-entry_path args n (efi_dir args), entries_dir-ne-efi_dir args))

-- A file that is left is known.
pub cleaned-only :
    (d : FilePath) (p q : FilePath) (fs fs' : Fs)
    → clean d (p ∷ []) fs ≡ some fs'
    → is_in d q ≡ true
    → is_file q fs' ≡ true
    → q ≡ p
unfolding is_file
cleaned-only d p q fs fs' h inside there = elim (Bool-cases (equal_path p q)) [
  | inl hit ↦ sym ((equal_path_iff p q).0 hit)
  | inr miss ↦ ground (arith, lookup-clean d (p ∷ []) fs h q, miss)
]
