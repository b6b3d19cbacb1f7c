-- ===== src/Dev/Devices/Links.antt =====
-- The symbolic links of a tree of devices, and what the operations leave of them.
use tinyboot.Prelude.{Option, none, some, if◌then◌else◌, ◌≡◌, arith}
use tinyboot.Result.{err}
use tinyboot.FilePath.{FilePath, equal_path}
use tinyboot.FilePath.Laws.{equal_path_iff}
use tinyboot.Fs.{already_exists, Node, file, dir, lookup, insert, create_new, remove_file}
use tinyboot.Fs.Laws.{lookup-insert, lookup-without}
use tinyboot.Dev.Devices.{DevFile, special, link, DevTree}

-- The link that a node is, if it is one.
abbrev pub target_of : Option (Node DevFile) → Option FilePath
target_of none = none
target_of (some dir) = none
target_of (some (file (special kind major minor))) = none
target_of (some (file (link target))) = some target

-- Where the links of a tree lead to.
abbrev pub Links : Type 0
Links = FilePath → Option FilePath

abbrev pub links : DevTree → Links
links t q = target_of (lookup q t)

-- A directory that is made where there is nothing.
unfoldable pub ensure : FilePath → DevTree → DevTree
ensure p t = elim (lookup p t) [ none ↦ insert p dir t | some n ↦ t ]

pub links-ensure : (p q : FilePath) (t : DevTree) → links (ensure p t) q ≡ links t q
unfolding ensure
links-ensure p q t = ground (arith, lookup-insert p q dir t, equal_path_iff p q)

-- What `remove_file` leaves at its path.
abbrev pub kept : Option (Node DevFile) → Option (Node DevFile)
kept none = none
kept (some dir) = some dir
kept (some (file f)) = none

pub lookup-remove_file :
    (p q : FilePath) (t : DevTree)
    → lookup q (remove_file p t).1 ≡ (if equal_path p q then kept (lookup p t) else lookup q t)
unfolding remove_file
lookup-remove_file p q t = ground (arith, lookup-without p q t, equal_path_iff p q)

-- No link is left at the path, and the others are as they were.
pub links-remove_file :
    (p q : FilePath) (t : DevTree)
    → links (remove_file p t).1 q ≡ (if equal_path p q then none else links t q)
links-remove_file p q t = ground (arith, lookup-remove_file p q t)

pub create_new-some :
    (p : FilePath) (f : DevFile) (t : DevTree) {n : Node DevFile}
    → lookup p t ≡ some n
    → create_new p f t ≡ (err already_exists, t)
unfolding create_new
create_new-some p f t h = ground arith
