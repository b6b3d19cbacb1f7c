-- ===== src/Fs/Laws.antt =====
-- What the operations on the tree leave at each path.
use tinyboot.Prelude.{[], ◌∷◌, none, some, if◌then◌else◌, ◌≡◌, refl, arith, ◌≢◌}
use tinyboot.Result.{ok, err}
use tinyboot.FilePath.{FilePath, equal_path, parent}
use tinyboot.FilePath.Laws.{equal_path_iff}
use tinyboot.Fs.{write, create_new, IoError, Tree, Node, file, dir, lookup, without, insert, rename}

pub lookup-without :
    {L : Type 0} (p q : FilePath) (fs : Tree L)
    → lookup q (without p fs) ≡ (if equal_path p q then none else lookup q fs)
unfolding lookup without
lookup-without p q [] = ground arith
lookup-without p q ((r, n) ∷ fs) =
    ground
      (arith, lookup-without p q fs, equal_path_iff r p, equal_path_iff r q, equal_path_iff p q)

pub lookup-insert :
    {L : Type 0} (p q : FilePath) (n : Node L) (fs : Tree L)
    → lookup q (insert p n fs) ≡ (if equal_path p q then some n else lookup q fs)
unfolding lookup insert
lookup-insert p q n [] = refl
lookup-insert p q n ((r, m) ∷ fs) =
    ground
      (arith, lookup-insert p q n fs, equal_path_iff r p, equal_path_iff r q, equal_path_iff p q)

ruleset fs_laws = (lookup-without, lookup-insert)

-- A file that is renamed over no directory stands at the new path with what it held; nothing else
-- but the two paths changes.
pub lookup-rename :
    {L : Type 0} (old new : FilePath) (s : L) (fs : Tree L)
    → lookup old fs ≡ some (file s)
    → lookup new fs ≢ some dir
    → (q : FilePath)
    → lookup q (rename old new fs).1
      ≡ (if equal_path new q then some (file s) else if equal_path old q then none else lookup q fs)
unfolding rename
lookup-rename old new s fs h k q =
    ground (arith, lookup-insert new q (file s) (without old fs), lookup-without old q fs)

-- A rename that succeeds was of a file.
pub rename-ok :
    {L : Type 0} (old new : FilePath) (fs : Tree L)
    → (rename old new fs).0 ≡ ok tt
    → (s : L) × (lookup old fs ≡ some (file s)) × (lookup new fs ≢ some dir)
unfolding rename
rename-ok old new fs h = ground arith

-- A rename that fails changes nothing.
pub rename-err :
    {L : Type 0} (old new : FilePath) (fs : Tree L) {e : IoError}
    → (rename old new fs).0 ≡ err e
    → (rename old new fs).1 ≡ fs
unfolding rename
rename-err old new fs h = ground arith

-- A file that is written holds the text, and all else is as it was.
pub write-ok :
    {L : Type 0} (p : FilePath) (l : L) (fs : Tree L)
    → (write p l fs).0 ≡ ok tt
    → (q : FilePath)
    → lookup q (write p l fs).1 ≡ (if equal_path p q then some (file l) else lookup q fs)
unfolding write create_new
write-ok p l fs h q = ground (arith, lookup-insert p q (file l) fs)

pub write-err :
    {L : Type 0} (p : FilePath) (l : L) (fs : Tree L) {e : IoError}
    → (write p l fs).0 ≡ err e
    → (write p l fs).1 ≡ fs
unfolding write create_new
write-err p l fs h = ground arith

pub create_new-ok :
    {L : Type 0} (p d : FilePath) (l : L) (t : Tree L)
    → lookup p t ≡ none
    → parent p ≡ some d
    → lookup d t ≡ some dir
    → create_new p l t ≡ (ok tt, insert p (file l) t)
unfolding create_new
create_new-ok p d l t h k e = ground arith
