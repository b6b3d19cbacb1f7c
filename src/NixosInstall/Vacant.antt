-- ===== src/NixosInstall/Vacant.antt =====
-- A directory that holds nothing, while the installer writes elsewhere.
use mathlib.Core.Path.{subst}
use tinyboot.Prelude.{
  Bool, ◌≤◌, ◌+◌, suc, true, false, List, [], ◌∷◌, none, some, ◌≡◌, refl, arith, ap, ◌∙◌, length,
  length-append, inl, inr, Bool-cases, Option-cases, some-injective,
}
use tinyboot.Text.{Text, codes}
use tinyboot.FilePath.{FilePath, append, named, parent, parent_of, init, equal_path}
use tinyboot.FilePath.Laws.{equal_path_iff}
use tinyboot.Fs.{Fs, Node, file, dir, lookup, insert, create_dirs, create_dir_all, write}
use tinyboot.Fs.Laws.{lookup-insert}
use tinyboot.NixosInstall.{
  Args, unwrap, prepare, entries_dir, efi_dir, loader_entries, entries_srel, efi_nixos,
  machine_id_path,
}
use tinyboot.NixosInstall.Clean.{is_in}
use tinyboot.NixosInstall.Keeps.{Node-cases, lookup-write, >>=-some, unwrap-some}

-- Nothing stands directly in the directory.
abbrev pub IsVacant : FilePath → Fs → Type 0
IsVacant d fs = (q : FilePath) → is_in d q ≡ true → lookup q fs ≡ none

length-init : (p : Text) (ps : List Text) → length (p ∷ ps) ≡ suc (length (init (p ∷ ps)))
length-init p [] = refl
length-init p (q ∷ ps) = ap suc (length-init q ps)

length-parent_of :
    (b : Bool) (ps : List Text) (e : FilePath)
    → parent_of b ps ≡ some e
    → length ps ≡ suc (length e.parts)
length-parent_of b [] e h = cc
length-parent_of b (p ∷ ps) e h =
    length-init p ps ∙ ap (λ (x : FilePath). suc (length x.parts)) (some-injective h)

-- A path in a directory is longer by one.
length-is_in : (d q : FilePath) → is_in d q ≡ true → length q.parts ≡ suc (length d.parts)
unfolding is_in parent
length-is_in d q h = elim (Option-cases (parent q)) [
  | inl nothing ↦ cc (rw (nothing, is_in) at h)
  | inr (e, found) ↦
      length-parent_of q.absolute q.parts e found
      ∙ ap (λ (x : FilePath). suc (length x.parts))
          ((equal_path_iff e d).0 (rw (found, is_in) at h))
]

-- A path that is not longer than that of the directory is not in it.
pub is_in-short : (d q : FilePath) → length q.parts ≤ length d.parts → is_in d q ≡ false
is_in-short d q h = elim (Bool-cases (is_in d q)) [
  | inl inside ↦ let e = length-is_in d q inside in ground arith
  | inr outside ↦ outside
]

pub insert-IsVacant :
    (d p : FilePath) (n : Node Text) (fs : Fs)
    → is_in d p ≡ false
    → IsVacant d fs
    → IsVacant d (insert p n fs)
insert-IsVacant d p n fs outside vacant q inside =
    ground (arith, lookup-insert p q n fs, equal_path_iff p q, vacant q inside)

pub write-IsVacant :
    (d p : FilePath) (s : Text) (fs : Fs) {fs' : Fs}
    → is_in d p ≡ false
    → unwrap (write p s fs) ≡ some fs'
    → IsVacant d fs
    → IsVacant d fs'
write-IsVacant d p s fs outside h vacant q inside =
    ground (arith, lookup-write p s fs h q, equal_path_iff p q, vacant q inside)

create_dirs-IsVacant :
    (d p : FilePath) (ns : List Text) (fs : Fs)
    → length p.parts + length ns ≤ length d.parts
    → IsVacant d fs
    → IsVacant d (create_dirs p ns fs).1
unfolding create_dirs
create_dirs-IsVacant d p [] fs short vacant = vacant
create_dirs-IsVacant d p (n ∷ ns) fs short vacant =
    let r : FilePath = append p (named n) in
    let longer : length r.parts ≡ length p.parts + 1 =
      unfold append in length-append p.parts (n ∷ []) in
    let outside : is_in d r ≡ false = is_in-short d r (omega arith) in
    elim (Option-cases (lookup r fs)) [
      | inl nothing ↦
          rw (nothing, create_dirs)
            (create_dirs-IsVacant d r ns (insert r dir fs) (omega arith)
              (insert-IsVacant d r dir fs outside vacant))
      | inr (m, found) ↦ elim (Node-cases m) [
        | inl is_dir ↦
            rw (found ∙ ap some is_dir, create_dirs)
              (create_dirs-IsVacant d r ns fs (omega arith) vacant)
        | inr (s, is_text) ↦ rw (found ∙ ap some is_text, create_dirs) vacant
      ]
    ]

pub create_dir_all-IsVacant :
    (d p : FilePath) (fs : Fs) {fs' : Fs}
    → length p.parts ≤ length d.parts
    → unwrap (create_dir_all p fs) ≡ some fs'
    → IsVacant d fs
    → IsVacant d fs'
unfolding create_dir_all
create_dir_all-IsVacant d p fs short h vacant = subst (IsVacant d) (unwrap-some _ h) (
    create_dirs-IsVacant d (record { absolute = p.absolute; parts = [] }) p.parts fs (omega arith)
      vacant)

-- Directories that are made leave each file as it is.
create_dirs-lookup :
    (p : FilePath) (ns : List Text) (fs : Fs) (q : FilePath) (s : Text)
    → lookup q fs ≡ some (file s)
    → lookup q (create_dirs p ns fs).1 ≡ some (file s)
unfolding create_dirs
create_dirs-lookup p [] fs q s h = h
create_dirs-lookup p (n ∷ ns) fs q s h =
    let r : FilePath = append p (named n) in
    elim (Option-cases (lookup r fs)) [
      | inl nothing ↦
          rw (nothing, create_dirs)
            (create_dirs-lookup r ns (insert r dir fs) q s
              (ground (arith, lookup-insert r q dir fs, equal_path_iff r q)))
      | inr (m, found) ↦ elim (Node-cases m) [
        | inl is_dir ↦ rw (found ∙ ap some is_dir, create_dirs) (create_dirs-lookup r ns fs q s h)
        | inr (t, is_text) ↦ rw (found ∙ ap some is_text, create_dirs) h
      ]
    ]

create_dir_all-lookup :
    (p : FilePath) (fs : Fs) {fs' : Fs} (q : FilePath) (s : Text)
    → unwrap (create_dir_all p fs) ≡ some fs'
    → lookup q fs ≡ some (file s)
    → lookup q fs' ≡ some (file s)
unfolding create_dir_all
create_dir_all-lookup p fs q s h there =
    subst (λ (x : Fs). lookup q x ≡ some (file s)) (unwrap-some _ h)
      (create_dirs-lookup (record { absolute = p.absolute; parts = [] }) p.parts fs q s there)

-- The paths of the installer, by their lengths.
length-mounted :
    (m : FilePath) (ps : List Text)
    → length (append m (record { absolute = false; parts = ps })).parts ≡ length m.parts + length ps
unfolding append
length-mounted m ps = length-append m.parts ps

pub is_in-mounted :
    (args : Args) (a b : Text)
    → is_in
        (entries_dir args)
        (append args.efi_sys_mount_point (record { absolute = false; parts = a ∷ b ∷ [] }))
      ≡ false
is_in-mounted args a b =
    let m : FilePath = args.efi_sys_mount_point in
    is_in-short (entries_dir args) _
      (omega (arith, length-mounted m (a ∷ b ∷ []), length-mounted m loader_entries.parts))

pub is_in-machine_id :
    (args : Args) (a b : Text)
    → is_in
        (append args.efi_sys_mount_point (record { absolute = false; parts = a ∷ b ∷ [] }))
        machine_id_path
      ≡ false
is_in-machine_id args a b =
    is_in-short _ machine_id_path
      (omega (arith, length-mounted args.efi_sys_mount_point (a ∷ b ∷ [])))

pub prepare-IsVacant :
    (args : Args) (fs : Fs) {fs' : Fs}
    → prepare args fs ≡ some fs'
    → IsVacant (entries_dir args) fs
    → IsVacant (entries_dir args) fs'
unfolding prepare
prepare-IsVacant args fs h vacant =
    let m : FilePath = args.efi_sys_mount_point in
    let (fs1, first, h1) = >>=-some (unwrap (create_dir_all (efi_dir args) fs)) _ h in
    let (fs2, second, h2) = >>=-some (unwrap (create_dir_all (entries_dir args) fs1)) _ h1 in
    write-IsVacant _ _ _ fs2 (is_in-mounted args (codes "loader") (codes "entries.srel")) h2 (
      create_dir_all-IsVacant _ _ fs1 (omega arith) second (
        create_dir_all-IsVacant _ _ fs
          (omega (arith, length-mounted m efi_nixos.parts, length-mounted m loader_entries.parts))
          first vacant))

-- A file that is there when the installer starts is as it was once the directories are made, but for
-- the file that says of which type the entries are.
pub prepare-lookup :
    (args : Args) (fs : Fs) {fs' : Fs} (q : FilePath) (s : Text)
    → prepare args fs ≡ some fs'
    → equal_path (append args.efi_sys_mount_point entries_srel) q ≡ false
    → lookup q fs ≡ some (file s)
    → lookup q fs' ≡ some (file s)
unfolding prepare
prepare-lookup args fs q s h other there =
    let (fs1, first, h1) = >>=-some (unwrap (create_dir_all (efi_dir args) fs)) _ h in
    let (fs2, second, h2) = >>=-some (unwrap (create_dir_all (entries_dir args) fs1)) _ h1 in
    let at_fs2 : lookup q fs2 ≡ some (file s) =
      create_dir_all-lookup _ fs1 q s second (create_dir_all-lookup _ fs q s first there) in
    ground (arith, lookup-write _ _ fs2 h2 q)
