-- ===== src/BootLoader/Disk.antt =====
-- `Disk` of tboot-loader/src/boot_loader/disk.rs: a disk with a boot partition, and its entries.
pub mod Order
pub mod Rank
pub mod Listed
pub mod Attributes
use mathlib.Core.Option
use tinyboot.Prelude.{
  ℕ, Bool, true, false, ◌||◌, not, List, [], ◌∷◌, ◌++◌, Option, none, some, if◌then◌else◌, ltb,
}
use tinyboot.Result.{Result, ok, err, to_option}
use tinyboot.Text.{Text, codes, equal, trim}
use tinyboot.Text.Decimal.{to_string}
use tinyboot.FilePath.{FilePath, append, named}
use tinyboot.Fs.{IoError, Fs, read_to_string, read_dir, is_file}
use tinyboot.BootLoader.{BootDevice}
use tinyboot.BootLoader.Arch.{EfiArch, is_running_arch}
use tinyboot.BootLoader.Entry.{BlsEntry, parse_entry_conf, try_into}

pub record Disk : Type 0 where
  pub diskseq : ℕ
  pub device_path : FilePath
  pub entries : List BlsEntry
  pub mountpoint : Option FilePath
  pub timeout : ℕ
  pub removable : Bool
  pub vendor : Option Text
  pub model : Option Text

unfoldable pub get_disk_attribute : FilePath → Text → Fs → Result Text IoError
get_disk_attribute device_path attribute fs =
    elim (read_to_string (append device_path (named attribute)) fs) [
      | err e ↦ err e
      | ok val ↦ ok (trim val)
    ]

unfoldable pub get_attribute_string : FilePath → Text → Fs → Option Text
get_attribute_string device_path attribute fs =
    to_option (get_disk_attribute device_path attribute fs)

unfoldable pub get_attribute_bool : FilePath → Text → Fs → Bool
get_attribute_bool device_path attribute fs = elim (get_disk_attribute device_path attribute fs) [
  | err e ↦ false
  | ok val ↦ equal val (codes "1\n")
]

-- `Disk::new`
unfoldable pub new : ℕ → FilePath → Fs → Disk
new diskseq device_path fs = record {
  diskseq = diskseq;
  device_path = device_path;
  entries = [];
  mountpoint = none;
  timeout = 10;
  removable = get_attribute_bool device_path (codes "removable") fs;
  vendor = get_attribute_string device_path (codes "vendor") fs;
  model = get_attribute_string device_path (codes "model") fs;
}

abbrev unwrap_or : Option Text → Text → Text
unwrap_or none d = d
unwrap_or (some v) d = v

-- `filter_map` of the conversion
unfoldable pub accepted : List BlsEntry → List BlsEntry
accepted [] = []
accepted (e ∷ es) = let rest = accepted es in elim (try_into e) [ ok e' ↦ e' ∷ rest | err _ ↦ rest ]

-- `Into<BootDevice>`
unfoldable pub into_boot_device : Disk → BootDevice BlsEntry
into_boot_device d = record {
  name =
      unwrap_or d.vendor (codes "Unknown Vendor")
      ++ (b' ' ∷ unwrap_or d.model (codes "Unknown Model"));
  timeout = d.timeout;
  entries = accepted d.entries;
}

-- `<` on strings: by their bytes, which is by their code points in UTF-8.
unfoldable pub less : Text → Text → Bool
less s [] = false
less [] (d ∷ t) = true
less (c ∷ s) (d ∷ t) =
    let rest = less s t in if ltb c d then true else if ltb d c then false else rest

-- `<` on `Option<String>`
abbrev pub less_option : Option Text → Option Text → Bool
less_option s none = false
less_option none (some t) = true
less_option (some s) (some t) = less s t

-- The comparison that entries are sorted by: is the first one `Less`? (It is never `Equal`.)
unfoldable pub goes_before : BlsEntry → BlsEntry → Bool
goes_before a b =
    if less_option a.version b.version
    then false
    else if less_option b.version a.version
    then true
    else if less_option b.title a.title
    then false
    else if less_option a.title b.title
    then true
    else if less b.name a.name
    then false
    else true

-- `sort_by`, a stable sort.
unfoldable pub insert_entry : BlsEntry → List BlsEntry → List BlsEntry
insert_entry x [] = x ∷ []
insert_entry x (y ∷ ys) =
    let rest = insert_entry x ys in if goes_before x y then x ∷ y ∷ ys else y ∷ rest

unfoldable pub sort_entries : List BlsEntry → List BlsEntry
sort_entries [] = []
sort_entries (x ∷ xs) = insert_entry x (sort_entries xs)

-- `find` of an entry with a name
unfoldable pub has_name : Text → List BlsEntry → Bool
has_name n [] = false
has_name n (e ∷ es) = equal e.name n || has_name n es

abbrev pub names_entry : Text → Option Text → Bool
names_entry n none = false
names_entry n (some default_entry_name) = equal n default_entry_name

abbrev pub runs_on : Option EfiArch → Text → Bool
runs_on none arch = true
runs_on (some a) arch = is_running_arch a arch

-- The end of a round of the loop: a new entry for the running architecture is added.
unfoldable pub add_entry : Text → BlsEntry → List BlsEntry → List BlsEntry
add_entry arch e es =
    if has_name e.name es
    then es
    else if not (runs_on e.architecture arch)
    then es
    else es ++ e ∷ []

-- One round of the loop over the directory.
unfoldable pub discover_path :
    Text → FilePath → Option Text → Fs → FilePath → List BlsEntry → List BlsEntry
discover_path arch mountpoint default_entry_name fs path es =
    if is_file path fs
    then (elim (read_to_string path fs) [
      | err _ ↦ es
      | ok contents ↦ elim (parse_entry_conf mountpoint path contents) [
        | err _ ↦ es
        | ok e ↦ add_entry arch (record e { is_default = names_entry e.name default_entry_name }) es
      ]
    ])
    else es

unfoldable pub discover_paths :
    Text → FilePath → Option Text → Fs → List FilePath → List BlsEntry → List BlsEntry
discover_paths arch mountpoint default_entry_name fs [] es = es
discover_paths arch mountpoint default_entry_name fs (path ∷ paths) es =
    discover_paths arch mountpoint default_entry_name fs paths
      (discover_path arch mountpoint default_entry_name fs path es)

abbrev pub entries_srel : FilePath
entries_srel = record { absolute = false; parts = codes "loader" ∷ codes "entries.srel" ∷ [] }

abbrev pub entry_dir : FilePath
entry_dir = record { absolute = false; parts = codes "loader" ∷ codes "entries" ∷ [] }

-- A file that says the entries are of another type.
abbrev pub other_type : Result Text IoError → Bool
other_type (ok srel) = not (equal srel (codes "type1\n"))
other_type (err e) = false

-- `std::env::consts::ARCH` is the first argument.
unfoldable pub discover_entries : Text → Option Text → Fs → Disk → Disk
discover_entries arch default_entry_name fs d = elim d.mountpoint [
  | none ↦ d
  | some mountpoint ↦
      if other_type (read_to_string (append mountpoint entries_srel) fs)
      then d
      else (elim (read_dir (append mountpoint entry_dir) fs) [
        | err _ ↦ d
        | ok paths ↦ record d {
          entries =
              sort_entries (discover_paths arch mountpoint default_entry_name fs paths d.entries);
        }
      ])
]
