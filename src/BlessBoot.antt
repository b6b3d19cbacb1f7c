-- ===== src/BlessBoot.antt =====
-- tboot-bless-boot/src/main.rs: finds the entry that was booted and marks it good or bad.
pub mod Search
pub mod Marks
mod Tests
use tinyboot.Prelude.{
  ℕ, Bool, true, false, List, [], ◌∷◌, ◌++◌, Option, none, some, ltb, if◌then◌else◌,
}
use tinyboot.Result.{Result, ok, err, ok_or, ◌>>=◌}
use tinyboot.Text.{Text, codes, equal, strip_prefix, trim, split_whitespace}
use tinyboot.Text.Decimal.{to_string}
use tinyboot.FilePath.{FilePath, append, from_text, file_name, parent, named, display}
use tinyboot.Fs.{IoError, Fs, rename, read_dir, is_file}
use tinyboot.Bls.{BlsEntryMetadata, parse_entry_filename}

pub data Error : Type 0 where
  io : IoError → Error
  missing_bls_entry invalid_args missing_entry : Error

pub data Commands : Type 0 where
  good bad status : Commands

-- `Commands::from_str`
unfoldable commands_from_str : Text → Result Commands Error
commands_from_str s =
    if equal s (codes "good")
    then ok good
    else if equal s (codes "bad")
    then ok bad
    else if equal s (codes "status")
    then ok status
    else err invalid_args

-- `find_map` with `strip_prefix`
pub find_stripped : Text → List Text → Option Text
find_stripped p [] = none
find_stripped p (w ∷ ws) = elim (strip_prefix p w) [ some r ↦ some r | none ↦ find_stripped p ws ]

abbrev pub bls_entry_prefix : Text
bls_entry_prefix = codes "tboot.bls-entry="

-- The entry name that the kernel command line holds.
pub booted_entry : Text → Option Text
booted_entry cmdline = find_stripped bls_entry_prefix (split_whitespace (trim cmdline))

abbrev pub Found : Type 0
Found = FilePath × BlsEntryMetadata

-- One round of the loop in `find_entry`: the entry, if it is the one.
pub matching : Fs → Text → FilePath → Option Found
matching fs entry_name path =
    if is_file path fs
    then elim (file_name path) [
      | none ↦ none
      | some filename ↦ elim (parse_entry_filename filename) [
        | err _ ↦ none
        | ok bls_entry ↦ if equal bls_entry.0 entry_name then some (path, bls_entry) else none
      ]
    ]
    else none

pub search_entries : Fs → Text → List FilePath → Option Found
search_entries fs entry_name [] = none
search_entries fs entry_name (path ∷ paths) = elim (matching fs entry_name path) [
  | some found ↦ some found
  | none ↦ search_entries fs entry_name paths
]

abbrev pub entries_dir : FilePath → FilePath
entries_dir esp =
    append esp (record { absolute = false; parts = codes "loader" ∷ codes "entries" ∷ [] })

pub find_entry : FilePath → Text → Fs → Option Found
find_entry esp entry_name fs = elim (read_dir (entries_dir esp) fs) [
  | err _ ↦ none
  | ok paths ↦ search_entries fs entry_name paths
]

-- The result of an operation on the tree with its error as one of this program.
abbrev lift : Result (Unit {0}) IoError × Fs → Result (List Text) Error × Fs
lift (ok _, fs) = (ok [], fs)
lift (err e, fs) = (err (io e), fs)

abbrev pub good_filename : Text → Text
good_filename name = name ++ codes ".conf"

pub mark_as_good : Found → Fs → Result (List Text) Error × Fs
mark_as_good (entry_path, (name, tries_left, _)) fs = elim (parent entry_path) [
  | none ↦ (ok [], fs)
  | some dir ↦ elim tries_left [
    | none ↦ (ok [], fs)
    | some _ ↦ lift (rename entry_path (append dir (named (good_filename name))) fs)
  ]
]

pub bad_filename : Text → Option ℕ → Text
bad_filename name none = name ++ codes "+0.conf"
bad_filename name (some tries_done) =
    name ++ (codes "+0-" ++ (to_string tries_done ++ codes ".conf"))

pub mark_as_bad : Found → Fs → Result (List Text) Error × Fs
mark_as_bad (entry_path, (name, _, tries_done)) fs = elim (parent entry_path) [
  | none ↦ (ok [], fs)
  | some dir ↦ lift (rename entry_path (append dir (named (bad_filename name tries_done))) fs)
]

unfoldable pub status_line : Option ℕ → Text
status_line none = codes "\tentry is good"
status_line (some tries_left) =
    if ltb 0 tries_left
    then b'\t' ∷ (to_string tries_left ++ codes " tries left until entry is bad")
    else codes "\tentry is bad"

-- The lines that are printed.
unfoldable pub print_status : Found → List Text
print_status (entry_path, (_, tries_left, _)) =
    (display entry_path ++ codes ":") ∷ status_line tries_left ∷ []

unfoldable pub perform : Commands → Found → Fs → Result (List Text) Error × Fs
perform good entry fs = mark_as_good entry fs
perform bad entry fs = mark_as_bad entry fs
perform status entry fs = (ok (print_status entry), fs)

-- `main`, from the arguments that were parsed and the text of /proc/cmdline, to the lines printed.
pub main : FilePath → Commands → Result Text IoError → Fs → Result (List Text) Error × Fs
main esp command (err e) fs = (err (io e), fs)
main esp command (ok cmdline) fs = elim (booted_entry cmdline) [
  | none ↦ (err missing_bls_entry, fs)
  | some name ↦ elim (find_entry esp name fs) [
    | none ↦ (err missing_entry, fs)
    | some entry ↦ perform command entry fs
  ]
]
