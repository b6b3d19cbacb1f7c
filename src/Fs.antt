-- ===== src/Fs.antt =====
-- `std::fs` as far as the program uses it: a tree of files, by path. An operation returns its result
-- and the tree after it. The order of `read_dir` is that of the entries in the tree. What a file is,
-- is a parameter: a text, or what a file of devices holds.
pub mod Laws
use tinyboot.Prelude.{◌&&◌, Bool, true, false, List, [], ◌∷◌, Option, none, some, if◌then◌else◌}
use tinyboot.Result.{Result, ok, err}
use tinyboot.Text.{Text, equal}
use tinyboot.FilePath.{FilePath, append, named, same, equal_path, parent}

pub data IoError : Type 0 where
  not_found already_exists is_a_directory not_a_directory : IoError

pub data Node {ℓ} (L : Type ℓ) : Type ℓ where
  file : L → Node L
  dir : Node L

abbrev pub Tree : Type 0 → Type 0
Tree L = List (FilePath × Node L)

abbrev pub Fs : Type 0
Fs = Tree Text

unfoldable pub lookup : {L : Type 0} → FilePath → Tree L → Option (Node L)
unfolding equal_path
lookup p [] = none
lookup p ((q, n) ∷ fs) = if equal_path q p then some n else lookup p fs

unfoldable pub without : {L : Type 0} → FilePath → Tree L → Tree L
unfolding equal_path
without p [] = []
without p ((q, n) ∷ fs) = let rest = without p fs in if equal_path q p then rest else (q, n) ∷ rest

-- The node at a path, which keeps its place in the directory if there is one already.
unfoldable pub insert : {L : Type 0} → FilePath → Node L → Tree L → Tree L
unfolding equal_path
insert p n [] = (p, n) ∷ []
insert p n ((q, m) ∷ fs) = if equal_path q p then (p, n) ∷ fs else (q, m) ∷ insert p n fs

abbrev pub Io : Type 0 → Type 0 → Type 0
Io L A = Tree L → Result A IoError × Tree L

unfoldable pub read_to_string : FilePath → Fs → Result Text IoError
unfolding lookup
read_to_string p fs = elim (lookup p fs) [
  | none ↦ err not_found
  | some n ↦ elim n [ file s ↦ ok s | dir ↦ err is_a_directory ]
]

unfoldable pub is_file : FilePath → Fs → Bool
unfolding lookup
is_file p fs = elim (lookup p fs) [ none ↦ false | some n ↦ elim n [ file s ↦ true | dir ↦ false ] ]

-- `rename` of a file: it takes the new path, whatever file stood there.
unfoldable pub rename : {L : Type 0} → FilePath → FilePath → Io L Unit
rename old new fs = elim (lookup old fs) [
  | none ↦ (err not_found, fs)
  | some n ↦ elim n [
    | dir ↦ (err is_a_directory, fs)
    | file s ↦ elim (lookup new fs) [
      | some m ↦ elim m [
        | dir ↦ (err is_a_directory, fs)
        | file t ↦ (ok tt, insert new (file s) (without old fs))
      ]
      | none ↦ (ok tt, insert new (file s) (without old fs))
    ]
  ]
]

unfoldable pub remove_file : {L : Type 0} → FilePath → Io L Unit
remove_file p fs = elim (lookup p fs) [
  | none ↦ (err not_found, fs)
  | some n ↦ elim n [ dir ↦ (err is_a_directory, fs) | file s ↦ (ok tt, without p fs) ]
]

-- The paths that stand directly in a directory.
unfoldable pub entries_of : {L : Type 0} → FilePath → Tree L → List FilePath
unfolding equal_path parent
entries_of d [] = []
entries_of d ((q, n) ∷ fs) =
    let rest = entries_of d fs in
    elim (parent q) [ none ↦ rest | some e ↦ if equal_path e d then q ∷ rest else rest ]

unfoldable pub read_dir : {L : Type 0} → FilePath → Tree L → Result (List FilePath) IoError
unfolding lookup entries_of
read_dir d fs = elim (lookup d fs) [
  | none ↦ err not_found
  | some n ↦ elim n [ dir ↦ ok (entries_of d fs) | file s ↦ err not_a_directory ]
]

-- `create_dir`: its parent must be a directory. The root has none, and is there.
unfoldable pub create_dir : {L : Type 0} → FilePath → Io L Unit
create_dir p fs = elim (lookup p fs) [
  | some n ↦ (err already_exists, fs)
  | none ↦ elim (parent p) [
    | none ↦ (err already_exists, fs)
    | some d ↦ elim (lookup d fs) [
      | none ↦ (err not_found, fs)
      | some n ↦ elim n [ dir ↦ (ok tt, insert p dir fs) | file s ↦ (err not_a_directory, fs) ]
    ]
  ]
]

-- What makes a file only where there is nothing: `mknod` and `symlink`.
unfoldable pub create_new : {L : Type 0} → FilePath → L → Io L Unit
create_new p l fs = elim (lookup p fs) [
  | some n ↦ (err already_exists, fs)
  | none ↦ elim (parent p) [
    | none ↦ (err already_exists, fs)
    | some d ↦ elim (lookup d fs) [
      | none ↦ (err not_found, fs)
      | some n ↦ elim n [
        | dir ↦ (ok tt, insert p (file l) fs)
        | file other ↦ (err not_a_directory, fs)
      ]
    ]
  ]
]

-- `write` makes the file, in a directory that must be there, or replaces what it holds.
unfoldable pub write : {L : Type 0} → FilePath → L → Io L Unit
unfolding create_new
write p l fs = elim (lookup p fs) [
  | none ↦ create_new p l fs
  | some n ↦ elim n [ dir ↦ (err is_a_directory, fs) | file old ↦ (ok tt, insert p (file l) fs) ]
]

-- `create_dir_all` from a path that is there: the components that follow are made if they are missing.
unfoldable pub create_dirs : {L : Type 0} → FilePath → List Text → Io L Unit
create_dirs p [] fs = (ok tt, fs)
create_dirs p (n ∷ ns) fs =
    let q = append p (named n) in
    let made = create_dirs q ns (insert q dir fs) in
    let there = create_dirs q ns fs in
    elim (lookup q fs) [
      | none ↦ made
      | some m ↦ elim m [ dir ↦ there | file s ↦ (err not_a_directory, fs) ]
    ]

unfoldable pub create_dir_all : {L : Type 0} → FilePath → Io L Unit
create_dir_all p fs = create_dirs (record { absolute = p.absolute; parts = [] }) p.parts fs

unfoldable pub is_prefix : List Text → List Text → Bool
is_prefix [] qs = true
is_prefix (p ∷ ps) [] = false
is_prefix (p ∷ ps) (q ∷ qs) = equal p q && is_prefix ps qs

-- Is the second path the first or below it?
unfoldable pub is_under : FilePath → FilePath → Bool
is_under p q = same p.absolute q.absolute && is_prefix p.parts q.parts

unfoldable pub without_all : {L : Type 0} → FilePath → Tree L → Tree L
without_all p [] = []
without_all p ((q, n) ∷ fs) =
    let rest = without_all p fs in if is_under p q then rest else (q, n) ∷ rest

unfoldable pub remove_dir_all : {L : Type 0} → FilePath → Io L Unit
remove_dir_all p fs = elim (lookup p fs) [
  | none ↦ (err not_found, fs)
  | some n ↦ elim n [ dir ↦ (ok tt, without_all p fs) | file s ↦ (err not_a_directory, fs) ]
]
