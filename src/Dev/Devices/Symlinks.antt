-- ===== src/Dev/Devices/Symlinks.antt =====
-- The symbolic links that the program makes and removes, against the map of links.
use mathlib.Core.Path.{subst}
use tinyboot.Prelude.{
  ℕ, true, List, [], ◌∷◌, Option, none, some, ◌≡◌, refl, arith, sym, ◌∙◌, ap, inl, inr,
}
use tinyboot.Result.{ok}
use tinyboot.Text.{Text, codes}
use tinyboot.Text.Decimal.{to_string}
use tinyboot.FilePath.{FilePath, append, named, parent}
use tinyboot.FilePath.Laws.{parent-append, equal_path_iff}
use tinyboot.Fs.{
  Node, file, dir, lookup, insert, create_new, create_dir_all, create_dirs, remove_file,
}
use tinyboot.Fs.Laws.{lookup-insert}
use tinyboot.Dev.{DevType, disk, partition, character}
use tinyboot.Dev.Devices.{
  DevFile, link, DevTree, unwrap, dev_dir, disk_dir, part_dir, dev_path, disk_link, disk_part_dir,
  part_link, add_disk_symlink, add_partition_symlink, add_symlink, remove_symlink,
  remove_disk_symlink, remove_partition_symlink,
}
use tinyboot.Fs.Laws.{create_new-ok}
use tinyboot.Dev.Devices.Links.{
  Links, target_of, ensure, links-ensure, kept, lookup-remove_file, links-remove_file,
  create_new-some,
}
use tinyboot.Dev.Devices.Kept.{
  MayBeDir, MayBeLink, IsDevTree, Suits, change-IsDevTree, disk_link-Suits, part_link-Suits,
  disk_dir-Suits, part_dir-Suits, disk_part-Suits, ensure-IsDevTree, MayBeDir-cases,
  MayBeLink-cases, lookup-ensure,
}
use tinyboot.Dev.Devices.Spec.{
  put, drop_link, put_new, put_new-none, put_new-some, added, removed, Shows, Implements,
  Implements-none, Implements-some,
}

ensure-dir : (p : FilePath) (t : DevTree) → MayBeDir (lookup p t) → lookup p (ensure p t) ≡ some dir
ensure-dir p t h = lookup-ensure p p t h ∙ rw ((equal_path_iff p p).1 refl)

ensure-there :
    (p : FilePath) (t : DevTree) {n : Node DevFile} → lookup p t ≡ some n → ensure p t ≡ t
unfolding ensure
ensure-there p t h = rw (h, ensure)

-- A symbolic link that is made.
create_new-Implements :
    (p d target : FilePath) (ls : Links) (t : DevTree)
    → parent p ≡ some d
    → lookup d t ≡ some dir
    → MayBeLink (lookup p t)
    → Suits p (some (file (link target)))
    → Shows ls t
    → Implements (unwrap (create_new p (link target) t)) (put_new p target ls)
create_new-Implements p d target ls t up there h suits (k, same) =
    elim (MayBeLink-cases (lookup p t) h) [
      | inl e ↦
          Implements-some (insert p (file (link target)) t) (put p target ls)
            (ap unwrap (create_new-ok p d (link target) t e up there))
            (put_new-none p target ls (sym (same p) ∙ ap target_of e))
            (
              change-IsDevTree p (some (file (link target))) t _
                  (λ q. lookup-insert p q (file (link target)) t) suits k,
              λ q. ground (arith, same q, lookup-insert p q (file (link target)) t),
            )
      | inr (old, e) ↦
          Implements-none (ap unwrap (create_new-some p (link target) t e))
            (put_new-some p target ls (sym (same p) ∙ ap target_of e))
    ]

create_dirs-cons :
    (p : FilePath) (n : Text) (ns : List Text) (t : DevTree)
    → MayBeDir (lookup (append p (named n)) t)
    → create_dirs p (n ∷ ns) t ≡ create_dirs (append p (named n)) ns (ensure (append p (named n)) t)
unfolding create_dirs ensure
create_dirs-cons p n ns t h = elim (MayBeDir-cases (lookup (append p (named n)) t) h) [
  | inl e ↦ rw (e, create_dirs, ensure)
  | inr e ↦ rw (e, create_dirs, ensure)
]

abbrev pub root : FilePath
root = record { absolute = true; parts = [] }

pub create_dir_all-dev :
    (t : DevTree) (ns : List Text)
    → IsDevTree t
    → create_dirs root (codes "dev" ∷ ns) t ≡ create_dirs dev_dir ns t
unfolding append
create_dir_all-dev t ns k =
    create_dirs-cons root (codes "dev") ns t (subst MayBeDir (sym k.dev) tt)
    ∙ ap (create_dirs dev_dir ns) (ensure-there dev_dir t k.dev)

create_dir_all-disk :
    (t : DevTree) → IsDevTree t → create_dir_all disk_dir t ≡ (ok tt, ensure disk_dir t)
unfolding create_dir_all append create_dirs
create_dir_all-disk t k =
    create_dir_all-dev t (codes "disk" ∷ []) k ∙ create_dirs-cons dev_dir (codes "disk") [] t k.disk

create_dir_all-part :
    (n : ℕ) (t : DevTree)
    → IsDevTree t
    → create_dir_all (disk_part_dir n) t ≡ (ok tt, ensure (disk_part_dir n) (ensure part_dir t))
unfolding create_dir_all append create_dirs
create_dir_all-part n t k =
    create_dir_all-dev t (codes "part" ∷ to_string n ∷ []) k
    ∙ create_dirs-cons dev_dir (codes "part") (to_string n ∷ []) t k.part
    ∙ create_dirs-cons part_dir (to_string n) [] (ensure part_dir t)
        ((ensure-IsDevTree part_dir t k.part part_dir-Suits k).disk_part n)

pub add_disk_symlink-Implements :
    (name : Text) (n : ℕ) (ls : Links) (t : DevTree)
    → Shows ls t
    → Implements (add_disk_symlink name n t) (put_new (disk_link n) (dev_path name) ls)
unfolding add_disk_symlink
add_disk_symlink-Implements name n ls t (k, same) =
    let t' : DevTree = ensure disk_dir t in
    let k' : IsDevTree t' = ensure-IsDevTree disk_dir t k.disk disk_dir-Suits k in
    rw (create_dir_all-disk t k) (
      create_new-Implements (disk_link n) disk_dir (dev_path name) ls t'
        (parent-append disk_dir (to_string n)) (ensure-dir disk_dir t k.disk) (k'.disk_links n)
        (disk_link-Suits n _ tt) (k', λ q. links-ensure disk_dir q t ∙ same q))

pub add_partition_symlink-Implements :
    (name : Text) (n m : ℕ) (ls : Links) (t : DevTree)
    → Shows ls t
    → Implements (add_partition_symlink name n m t) (put_new (part_link n m) (dev_path name) ls)
unfolding add_partition_symlink
add_partition_symlink-Implements name n m ls t (k, same) =
    let t1 : DevTree = ensure part_dir t in
    let k1 : IsDevTree t1 = ensure-IsDevTree part_dir t k.part part_dir-Suits k in
    let t2 : DevTree = ensure (disk_part_dir n) t1 in
    let k2 : IsDevTree t2 =
      ensure-IsDevTree (disk_part_dir n) t1 (k1.disk_part n) (disk_part-Suits n) k1 in
    rw (create_dir_all-part n t k) (
      create_new-Implements (part_link n m) (disk_part_dir n) (dev_path name) ls t2
        (parent-append (disk_part_dir n) (to_string m))
        (ensure-dir (disk_part_dir n) t1 (k1.disk_part n)) (k2.part_links n m)
        (part_link-Suits n m _ tt)
        (k2, λ q. links-ensure (disk_part_dir n) q t1 ∙ links-ensure part_dir q t ∙ same q))

pub add_symlink-Implements :
    (name : Text) (d : DevType) (ls : Links) (t : DevTree)
    → Shows ls t
    → Implements (add_symlink name d t) (added name d ls)
unfolding add_symlink
add_symlink-Implements name character ls t s = s
add_symlink-Implements name (disk n) ls t s = add_disk_symlink-Implements name n ls t s
add_symlink-Implements name (partition n m) ls t s =
    add_partition_symlink-Implements name n m ls t s

pub remove_file-Shows :
    (p : FilePath) (ls : Links) (t : DevTree)
    → Suits p (kept (lookup p t))
    → Shows ls t
    → Shows (drop_link p ls) (remove_file p t).1
remove_file-Shows p ls t s (k, same) = (
  change-IsDevTree p (kept (lookup p t)) t _ (λ q. lookup-remove_file p q t) s k,
  λ q. ground (arith, same q, links-remove_file p q t),
)

kept-MayBeLink : (o : Option (Node DevFile)) → MayBeLink o → MayBeLink (kept o)
kept-MayBeLink none h = tt
kept-MayBeLink (some dir) h = h
kept-MayBeLink (some (file f)) h = tt

pub remove_symlink-Shows :
    (name : Text) (d : DevType) (ls : Links) (t : DevTree)
    → Shows (drop_link (dev_path name) ls) t
    → Shows (removed name d ls) (remove_symlink d t)
unfolding remove_symlink remove_disk_symlink remove_partition_symlink
remove_symlink-Shows name character ls t s = s
remove_symlink-Shows name (disk n) ls t s =
    remove_file-Shows (disk_link n) _ t (disk_link-Suits n _ (kept-MayBeLink _ (s.0.disk_links n)))
      s
remove_symlink-Shows name (partition n m) ls t s =
    remove_file-Shows (part_link n m) _ t
      (part_link-Suits n m _ (kept-MayBeLink _ (s.0.part_links n m))) s
