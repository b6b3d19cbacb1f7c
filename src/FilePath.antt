-- ===== src/FilePath.antt =====
-- `std::path`: paths by their components, which is how Rust compares them.
pub mod Laws
use tinyboot.Prelude.{
  ℕ, Bool, true, false, ◌&&◌, List, [], ◌∷◌, ◌++◌, Option, none, some, ◌==◌, if◌then◌else◌,
}
use tinyboot.Text.{Text, codes, equal, split, join}

-- Empty components and `.` are dropped.
pub record FilePath : Type 0 where
  pub absolute : Bool
  pub parts : List Text

unfoldable pub components : List Text → List Text
unfolding equal
components [] = []
components (p ∷ ps) =
    if equal p []
    then components ps
    else if equal p (codes ".")
    then components ps
    else p ∷ components ps

unfoldable pub is_absolute : Text → Bool
is_absolute [] = false
is_absolute (c ∷ s) = c == b'/'

-- `PathBuf::from`
unfoldable pub from_text : Text → FilePath
unfolding components is_absolute split
from_text s = record { absolute = is_absolute s; parts = components (split b'/' s) }

-- `Path::join`: an absolute path replaces the base.
unfoldable pub append : FilePath → FilePath → FilePath
append p q = if q.absolute then q else record { absolute = p.absolute; parts = p.parts ++ q.parts }

abbrev pub init : List Text → List Text
init [] = []
init (p ∷ []) = []
init (p ∷ q ∷ ps) = p ∷ init (q ∷ ps)

abbrev pub last : List Text → Option Text
last [] = none
last (p ∷ []) = some p
last (p ∷ q ∷ ps) = last (q ∷ ps)

-- `Path::parent`: the root and the empty path have none.
abbrev pub parent_of : Bool → List Text → Option FilePath
parent_of absolute [] = none
parent_of absolute (p ∷ ps) = some (record { absolute = absolute; parts = init (p ∷ ps) })

unfoldable pub parent : FilePath → Option FilePath
parent p = parent_of p.absolute p.parts

-- `Path::file_name`: none for the root, the empty path and a path that ends in `..`.
unfoldable pub file_name : FilePath → Option Text
unfolding equal
file_name p = elim (last p.parts) [
  | none ↦ none
  | some n ↦ if equal n (codes "..") then none else some n
]

-- A path of one component, as `join` takes a file name.
abbrev pub named : Text → FilePath
named n = record { absolute = false; parts = n ∷ [] }

unfoldable pub equal_parts : List Text → List Text → Bool
unfolding equal
equal_parts [] [] = true
equal_parts (p ∷ ps) (q ∷ qs) = equal p q && equal_parts ps qs
equal_parts _ _ = false

abbrev pub same : Bool → Bool → Bool
same true b = b
same false true = false
same false false = true

unfoldable pub equal_path : FilePath → FilePath → Bool
unfolding equal_parts
equal_path p q = same p.absolute q.absolute && equal_parts p.parts q.parts

-- What `Display` prints.
unfoldable pub display : FilePath → Text
unfolding join
display p = (if p.absolute then b'/' ∷ [] else []) ++ join (b'/' ∷ []) p.parts
