-- ===== src/BootLoader/Entry.antt =====
-- `BlsEntry` of tboot-loader/src/boot_loader/disk.rs: a boot entry, its parser and its boot count.
pub mod Boots
pub mod Count
pub mod Fields
pub mod Keys
use mathlib.Core.Option
use tinyboot.Prelude.{
  ℕ, suc, zero, ◌+◌, ◌-◌, Bool, true, false, map, List, [], ◌∷◌, ◌++◌, Option, none, some, ltb,
  ◌==◌, if◌then◌else◌, first,
}
use tinyboot.Result.{Result, ok, err, ok_or, to_option, ◌>>=◌}
use tinyboot.Text.{
  Text, codes, equal, lines, split_once, is_whitespace, trim, trim_start_by, split_whitespace,
  split_ascii_whitespace, join,
}
use tinyboot.Text.Decimal.{u32_max, to_string}
use tinyboot.FilePath.{FilePath, append, from_text, file_name, parent, named}
use tinyboot.Fs.{Fs, rename}
use tinyboot.Bls.{BlsEntryError, BlsEntryMetadata, missing_file_name, parse_entry_filename}
use tinyboot.BootLoader.Arch.{EfiArch, arch_from_str}
use tinyboot.BootLoader.{LinuxBootParts}

pub record BlsEntry : Type 0 where
  pub entry_path : FilePath
  pub tries_left : Option ℕ
  pub tries_done : Option ℕ
  pub name : Text
  pub pretty_name : Text
  pub title : Option Text
  pub version : Option Text
  pub machine_id : Option Text
  pub sort_key : Option Text
  pub devicetree : Option FilePath
  pub devicetree_overlay : Option (List FilePath)
  pub architecture : Option EfiArch
  pub efi : Option FilePath
  pub linux : Option FilePath
  pub initrd : Option (List FilePath)
  pub options : List Text
  pub is_default : Bool

abbrev pub default : BlsEntry
default = record {
  entry_path = record { absolute = false; parts = [] };
  tries_left = none;
  tries_done = none;
  name = [];
  pretty_name = [];
  title = none;
  version = none;
  machine_id = none;
  sort_key = none;
  devicetree = none;
  devicetree_overlay = none;
  architecture = none;
  efi = none;
  linux = none;
  initrd = none;
  options = [];
  is_default = false;
}

-- `mountpoint.join(val.trim_start_matches(MAIN_SEPARATOR))`
unfoldable pub on_mount : FilePath → Text → FilePath
on_mount mountpoint val = append mountpoint (from_text (trim_start_by (λ c. c == b'/') val))

-- A repeated key extends the list that is there.
abbrev pub extend : Option (List FilePath) → List FilePath → Option (List FilePath)
extend none new = some new
extend (some old) new = some (old ++ new)

-- `match key`
unfoldable pub set_key : FilePath → Text → Text → BlsEntry → BlsEntry
set_key mountpoint key val entry =
    if equal key (codes "architecture")
    then record entry { architecture = to_option (arch_from_str val) }
    else if equal key (codes "title")
    then record entry { title = some (trim val) }
    else if equal key (codes "version")
    then record entry { version = some (trim val) }
    else if equal key (codes "machine-id")
    then record entry { machine_id = some (trim val) }
    else if equal key (codes "sort-key")
    then record entry { sort_key = some (trim val) }
    else if equal key (codes "efi")
    then record entry { efi = some (on_mount mountpoint val) }
    else if equal key (codes "linux")
    then record entry { linux = some (on_mount mountpoint val) }
    else if equal key (codes "initrd")
    then record entry {
      initrd = extend entry.initrd (map (on_mount mountpoint) (split_ascii_whitespace val));
    }
    else if equal key (codes "options")
    then record entry { options = entry.options ++ split_whitespace (trim val) }
    else if equal key (codes "devicetree")
    then record entry { devicetree = some (on_mount mountpoint val) }
    else if equal key (codes "devicetree-overlay")
    then record entry {
      devicetree_overlay =
          extend entry.devicetree_overlay (map (on_mount mountpoint) (split_ascii_whitespace val));
    }
    else entry

-- One round of the loop over the lines: a line with no white space is passed over.
unfoldable pub parse_line : FilePath → BlsEntry → Text → BlsEntry
parse_line mountpoint entry line = elim (split_once is_whitespace line) [
  | none ↦ entry
  | some (key, val) ↦ set_key mountpoint key val entry
]

unfoldable pub parse_lines : FilePath → List Text → BlsEntry → BlsEntry
parse_lines mountpoint [] entry = entry
parse_lines mountpoint (l ∷ ls) entry = parse_lines mountpoint ls (parse_line mountpoint entry l)

-- `'pretty`: title and version, or the name if either is missing.
abbrev pub pretty : Text → Option Text → Option Text → Text
pretty name none version = name
pretty name (some title) none = name
pretty name (some title) (some version) = title ++ (b' ' ∷ version)

-- The entry before its lines are read.
unfoldable pub identified : FilePath → BlsEntryMetadata → BlsEntry
identified conf_path counters = record default {
  entry_path = conf_path;
  name = counters.0;
  tries_left = counters.1;
  tries_done = counters.2;
}

unfoldable pub with_pretty_name : BlsEntry → BlsEntry
with_pretty_name entry = record entry { pretty_name = pretty entry.name entry.title entry.version }

unfoldable pub parse_entry_conf : FilePath → FilePath → Text → Result BlsEntry BlsEntryError
parse_entry_conf mountpoint conf_path entry_contents = do
  filename ← ok_or (file_name conf_path) missing_file_name
  counters ← parse_entry_filename filename
  ok (
      with_pretty_name
        (parse_lines mountpoint (lines entry_contents) (identified conf_path counters)))

-- `checked_sub(1).unwrap_or(n)` and `checked_add(1).unwrap_or(n)` of a u32
unfoldable pub count_down : ℕ → ℕ
count_down n = n - 1

pub count_up : ℕ → ℕ
count_up n = if ltb n u32_max then n + 1 else n

-- `{name}+{left}-{done}.conf` or `{name}+{left}.conf`
unfoldable pub counted_filename : Text → ℕ → Option ℕ → Text
counted_filename name left none = name ++ (b'+' ∷ (to_string left ++ codes ".conf"))
counted_filename name left (some done) =
    name ++ (b'+' ∷ (to_string left ++ (b'-' ∷ (to_string done ++ codes ".conf"))))

-- The file name that `boot_count` gives the entry.
unfoldable pub next_filename : Text → ℕ → Option ℕ → Text
next_filename name left done = counted_filename name (count_down left) (Option.map count_up done)

-- A failed rename is logged, and nothing else comes of it.
unfoldable pub boot_count : BlsEntry → Fs → Fs
boot_count entry fs = elim entry.tries_left [
  | none ↦ fs
  | some left ↦ elim (parent entry.entry_path) [
    | none ↦ fs
    | some entry_dir ↦
        (rename entry.entry_path
          (append entry_dir (named (next_filename entry.name left entry.tries_done))) fs).1
  ]
]

abbrev first_of_initrds : Option (List FilePath) → Option FilePath
first_of_initrds none = none
first_of_initrds (some initrds) = first initrds

-- The command line ends in the name of the entry, for tboot-bless-boot.
unfoldable pub cmdline_of : BlsEntry → Text
cmdline_of entry = join (b' ' ∷ []) (entry.options ++ (codes "tboot.bls-entry=" ++ entry.name) ∷ [])

-- `select`; `none` is the panic of an entry with no kernel.
unfoldable pub select : BlsEntry → Fs → Option (LinuxBootParts × Fs)
select entry fs = elim entry.linux [
  | none ↦ none
  | some linux ↦ some (
    record {
      linux = linux;
      initrd = first_of_initrds entry.initrd;
      cmdline = some (cmdline_of entry);
    },
    boot_count entry fs,
  )
]

pub data ConvertError : Type 0 where
  cannot_boot_efi cannot_boot_without_linux entry_is_bad : ConvertError

abbrev pub is_zero : Option ℕ → Bool
is_zero none = false
is_zero (some n) = n == 0

-- `TryInto<Box<dyn BootEntry>>`
unfoldable pub try_into : BlsEntry → Result BlsEntry ConvertError
try_into entry = elim entry.efi [
  | some _ ↦ err cannot_boot_efi
  | none ↦ elim entry.linux [
    | none ↦ err cannot_boot_without_linux
    | some _ ↦ if is_zero entry.tries_left then err entry_is_bad else ok entry
  ]
]
