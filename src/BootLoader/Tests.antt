-- ===== src/BootLoader/Tests.antt =====
-- Runs of the disk loader's entries and of the loader.
use mathlib.Core.Path.{subst}
use tinyboot.Prelude.{
  some-injective, inr, last_said, Bool, map, ℕ, suc, ◌-◌, ◌≤◌, true, false, List, [], ◌∷◌, none,
  some, if◌then◌else◌, ◌≡◌, ◌≢◌, ◌↔◌, refl,
}
use tinyboot.Result.{ok}
use tinyboot.Text.{
  trim_end_matches, starts_with, split_whitespace, trim_start_by, join, is_whitespace, Text, codes,
  equal, lines, strip_suffix, split_once,
}
use tinyboot.Text.Decimal.{from_str_radix, to_string}
use tinyboot.FilePath.{
  equal_parts, from_text, FilePath, append, named, parent, file_name, equal_path,
}
use tinyboot.FilePath.Laws.{IsFileName}
use tinyboot.Fs.{read_dir, is_file, without, rename, insert, Fs, file, dir, lookup, read_to_string}
use tinyboot.Bls.{BlsEntryMetadata, parse_entry_filename}
use tinyboot.BootLoader.{disk, Platform}
use tinyboot.BootLoader.Entry.{
  with_pretty_name, set_key, parse_lines, parse_line, on_mount, identified, counted_filename,
  count_down, cmdline_of, BlsEntry, default, parse_entry_conf, next_filename, boot_count, select,
  try_into,
}
use tinyboot.BootLoader.Entry.Fields.{IsEntryOf, parse_entry_conf_iff}
use tinyboot.BootLoader.Entry.Count.{parse-next_filename}
use tinyboot.BootLoader.Entry.Boots.{
  next_path, Boots, start, again, counted_up, Boots-bounded, lookup-boot_count,
}
use tinyboot.BootLoader.Loader.{new, boot_devices, shutdown}
use tinyboot.BootLoader.Loader.Protocol.{
  down, after_calls, traced, Op, setup_op, probe_op, shutdown_op, boot_devices_op, perform_all,
  perform_all-shutdown,
}
use tinyboot.BootLoader.Conf.{
  timeout_line, last_word, default_line, conf_lines, conf_line, parse_loader_conf,
}
use tinyboot.BootLoader.Conf.Said.{or_else_of, timeout_of, default_of, parse_loader_conf-said}
use tinyboot.BootLoader.Disk.{
  sort_entries, insert_entry, has_name, discover_paths, discover_path, add_entry, accepted,
}
use tinyboot.BootLoader.Disk.{Disk, discover_entries, into_boot_device}

abbrev entries : FilePath
entries = record { absolute = true; parts = codes "entries" ∷ [] }

abbrev nixos_file : Text
nixos_file = codes "nixos+2-1.conf"

abbrev nixos_path : FilePath
nixos_path = append entries (named nixos_file)

abbrev nixos_contents : Text
nixos_contents = codes "title NixOS\nlinux /vmlinuz\n"

abbrev nixos_tree : Fs
nixos_tree = (entries, dir) ∷ (nixos_path, file nixos_contents) ∷ []

abbrev nixos_entry : BlsEntry
nixos_entry = record default {
  entry_path = nixos_path;
  name = codes "nixos";
  tries_left = some 2;
  tries_done = some 1;
  linux = some nixos_path;
}

nixos_accepted : parse_entry_filename nixos_file ≡ ok (codes "nixos", some 2, some 1)
unfolding parse_entry_filename strip_suffix split_once from_str_radix
nixos_accepted = refl

parse_entry_conf_iff_example :
    (parse_entry_conf entries nixos_path nixos_contents ≡ ok nixos_entry) ↔ (
      (f : Text) × (c : BlsEntryMetadata) × (file_name nixos_path ≡ some f)
      × (parse_entry_filename f ≡ ok c)
      × IsEntryOf entries nixos_path c (lines nixos_contents) nixos_entry)
parse_entry_conf_iff_example = parse_entry_conf_iff entries nixos_path nixos_contents nixos_entry

parse-next_filename_example :
    parse_entry_filename (next_filename (codes "nixos") 2 (some 1))
    ≡ ok (codes "nixos", some (2 - 1), some 2)
parse-next_filename_example =
    parse-next_filename nixos_file (codes "nixos") 2 (some 1) nixos_accepted

nixos_parent : parent nixos_path ≡ some entries
unfolding parent append
nixos_parent = refl

nixos_there : lookup nixos_path nixos_tree ≡ some (file nixos_contents)
unfolding lookup append
nixos_there = refl

nixos_next_free : lookup (next_path entries nixos_entry 2) nixos_tree ≡ none
unfolding lookup append next_filename to_string counted_filename count_down
nixos_next_free = refl

nixos_no_dir : lookup (next_path entries nixos_entry 2) nixos_tree ≢ some dir
nixos_no_dir d = cc (nixos_next_free, d)

lookup-boot_count_example : lookup nixos_path (boot_count nixos_entry nixos_tree) ≡ (
    if equal_path (next_path entries nixos_entry 2) nixos_path
    then some (file nixos_contents)
    else if equal_path nixos_path nixos_path
    then none
    else lookup nixos_path nixos_tree)
lookup-boot_count_example =
    lookup-boot_count entries nixos_entry 2 nixos_contents nixos_tree nixos_parent refl nixos_there
      nixos_no_dir nixos_path

-- One boot of an entry that has one try.
abbrev once_path : FilePath
once_path = append entries (named (codes "a+1.conf"))

abbrev once_contents : Text
once_contents = codes "linux /k\n"

abbrev once_tree : Fs
once_tree = (once_path, file once_contents) ∷ []

abbrev kernel : FilePath
kernel = append entries (named (codes "k"))

abbrev once_entry : BlsEntry
once_entry = record default {
  entry_path = once_path;
  name = codes "a";
  pretty_name = codes "a";
  tries_left = some 1;
  linux = some kernel;
}

abbrev spent_tree : Fs
spent_tree = (append entries (named (codes "a+0.conf")), file once_contents) ∷ []

once_name : parse_entry_filename (codes "a+1.conf") ≡ ok (codes "a", some 1, none)
unfolding parse_entry_filename strip_suffix split_once from_str_radix
once_name = refl

once-IsFileName : IsFileName (codes "a+1.conf")
unfolding equal
once-IsFileName = record {
  ne_nil = refl;
  ne_dot = refl;
  ne_dots = refl;
  no_slash = (refl, (refl, (refl, (refl, (refl, (refl, (refl, (refl, tt))))))));
}

once_read : read_to_string once_path once_tree ≡ ok once_contents
unfolding read_to_string append
once_read = refl

once_parsed : parse_entry_conf entries once_path once_contents ≡ ok once_entry
unfolding parse_entry_conf append file_name parse_entry_filename strip_suffix split_once
    from_str_radix with_pretty_name parse_lines lines parse_line is_whitespace set_key identified
    on_mount from_text trim_start_by
once_parsed = refl

once_accepted : try_into once_entry ≡ ok once_entry
unfolding try_into
once_accepted = refl

once_selected :
    select once_entry once_tree
    ≡ some (
      record { linux = kernel; initrd = none; cmdline = some (codes "tboot.bls-entry=a") },
      spent_tree,
    )
unfolding select append cmdline_of boot_count join parent rename lookup next_filename
    counted_filename to_string count_down insert without
once_selected = refl

once_renamed :
    (left : ℕ)
    → once_entry.tries_left ≡ some left
    → (rename once_path (next_path entries once_entry left) once_tree).0 ≡ ok tt
once_renamed left h =
    subst (λ n. (rename once_path (next_path entries once_entry n) once_tree).0 ≡ ok tt)
      (some-injective h) with_one
  where
    with_one : (rename once_path (next_path entries once_entry 1) once_tree).0 ≡ ok tt
    with_one =
        unfold rename lookup append next_filename counted_filename to_string count_down equal_path
          equal_parts equal in
        refl

spent_there :
    lookup (append entries (named (codes "a+0.conf"))) spent_tree ≡ some (file once_contents)
unfolding lookup append
spent_there = refl

spent_new : lookup (append entries (named (codes "a+0.conf"))) once_tree ≡ none
unfolding lookup append
spent_new = refl

booted_once : Boots entries entries (codes "a+1.conf") once_tree 1 (codes "a+0.conf") spent_tree
booted_once = again start (record {
  entry = once_entry;
  contents = once_contents;
  parts = record { linux = kernel; initrd = none; cmdline = some (codes "tboot.bls-entry=a") };
  file_named = once-IsFileName;
  read = once_read;
  parsed = once_parsed;
  accepted = once_accepted;
  selected = once_selected;
  renamed = once_renamed;
  holds = spent_there;
  same_or_new = inr spent_new;
})

Boots-bounded_example :
    (1 ≤ 1)
    × (parse_entry_filename (codes "a+0.conf") ≡ ok (codes "a", some (1 - 1), counted_up 1 none))
Boots-bounded_example = Boots-bounded 1 (codes "a") 1 none once_name booted_once

-- A machine with one disk that always works.
abbrev one_disk : Platform
one_disk = record {
  State = ℕ;
  Entry = Text;
  fresh = λ s. s;
  loader_type = λ s. disk;
  setup = λ s. (true, suc s);
  probe = λ s. (
    record { name = codes "sda"; entries = codes "nixos" ∷ codes "rescue" ∷ []; timeout = 2 } ∷ [],
    s,
  );
  teardown = λ s. s - 1;
  is_default = λ e. equal e (codes "rescue");
  show = λ e. e;
  select = λ e s. (record { linux = nixos_path; initrd = none; cmdline = some e }, s);
}

abbrev uses : List Op
uses = boot_devices_op ∷ probe_op true ∷ shutdown_op ∷ setup_op false ∷ []

perform_all-shutdown_example :
    let l =
      shutdown (traced one_disk) (perform_all one_disk uses (new (traced one_disk) (0, []))) in
    (after_calls down l.inner.1 ≡ some down) × (l.boot_devices ≡ [])
perform_all-shutdown_example = perform_all-shutdown one_disk uses 0

devices_listed : (boot_devices one_disk (new one_disk 0)).0 ≡ true
unfolding boot_devices new
devices_listed = refl

abbrev conf_text : Text
conf_text = codes "default nixos.conf\ntimeout 5\ntimeout 30\ntimeout never\n"

conf_read :
    parse_loader_conf conf_text ≡ record { default_entry = some (codes "nixos"); timeout = 30 }
unfolding parse_loader_conf conf_lines lines conf_line timeout_line starts_with last_word
    split_whitespace from_str_radix default_line trim_end_matches
conf_read = refl

parse_loader_conf-said_example :
    ((parse_loader_conf conf_text).timeout
      ≡ or_else_of 5 (last_said timeout_of (lines conf_text) none))
    × ((parse_loader_conf conf_text).default_entry ≡ last_said default_of (lines conf_text) none)
parse_loader_conf-said_example = parse_loader_conf-said conf_text

abbrev sda : FilePath
sda = record { absolute = true; parts = codes "sda" ∷ [] }

abbrev boot_disk : Disk
boot_disk = record {
  diskseq = 3;
  device_path = sda;
  entries = [];
  mountpoint = some entries;
  timeout = 10;
  removable = false;
  vendor = none;
  model = none;
}

abbrev disk_tree : Fs
disk_tree =
    (
      append entries (record { absolute = false; parts = codes "loader" ∷ codes "entries" ∷ [] }),
      dir,
    )
    ∷ (
      append entries (record {
        absolute = false;
        parts = codes "loader" ∷ codes "entries" ∷ codes "a+1.conf" ∷ [];
      }),
      file once_contents,
    )
    ∷ []

one_entry_listed :
    map {B = Text × Bool}
      (λ (e : BlsEntry). (e.name, e.is_default))
      (into_boot_device
        (discover_entries (codes "x86_64") (some (codes "a")) disk_tree boot_disk)).entries
    ≡ (codes "a", true) ∷ []
unfolding discover_entries into_boot_device accepted read_to_string append read_dir sort_entries
    insert_entry discover_paths discover_path is_file parse_entry_conf file_name
    parse_entry_filename strip_suffix split_once from_str_radix add_entry has_name with_pretty_name
    parse_lines parse_line set_key identified on_mount lines is_whitespace try_into from_text
    trim_start_by
one_entry_listed = refl
