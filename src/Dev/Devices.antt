-- ===== src/Dev/Devices.antt =====
-- tboot/src/dev.rs: the files below /dev that are made for the devices of the kernel.
pub mod Settle
pub mod Links
pub mod Kept
pub mod Spec
pub mod Symlinks
pub mod Refines
pub mod Free
pub mod Run
pub mod Start
mod Tests
use tinyboot.Prelude.{
  ℕ, zero, suc, Bool, true, false, List, [], ◌∷◌, Option, none, some, if◌then◌else◌, ◌>>=◌, ◌+◌,
}
use tinyboot.Result.{Result, ok, err}
use tinyboot.Text.{Text, codes, equal}
use tinyboot.Text.Decimal.{u32_max, from_str_radix, to_string}
use tinyboot.FilePath.{FilePath, append, from_text, named, parent}
use tinyboot.Fs.{IoError, Tree, file, dir, lookup, create_new, create_dir_all, remove_file}
use tinyboot.Dev.{
  DevType, disk, partition, character, EventType, add, remove, change, move, online, offline, bind,
  unbind, Uevent, UeventError, parse, parse_uevent, get, number_at, valid_number,
}

pub data Special : Type 0 where
  s_ifblk s_ifchr : Special

-- What stands below /dev beside directories: a device with its numbers, or a symbolic link.
pub data DevFile : Type 0 where
  special : Special → ℕ → ℕ → DevFile
  link : FilePath → DevFile

abbrev pub DevTree : Type 0
DevTree = Tree DevFile

-- `DevType::into`
unfoldable pub special_of : DevType → Special
special_of (disk diskseq) = s_ifblk
special_of (partition diskseq partn) = s_ifblk
special_of character = s_ifchr

-- Where a link at a path leads to.
abbrev pub resolve : FilePath → FilePath → FilePath
resolve p target = elim (parent p) [ none ↦ target | some d ↦ append d target ]

-- `Path::exists` follows links, of which the kernel allows forty. A link to a directory is followed
-- at the end of a path only.
unfoldable pub exists_within : ℕ → FilePath → DevTree → Bool
exists_within zero p t = false
exists_within (suc hops) p t = elim (lookup p t) [
  | none ↦ false
  | some n ↦ elim n [
    | dir ↦ true
    | file f ↦ elim f [
      | special kind major minor ↦ true
      | link target ↦ exists_within hops (resolve p target) t
    ]
  ]
]

unfoldable pub exists : FilePath → DevTree → Bool
unfolding exists_within
exists = exists_within 41

-- `unwrap`: `none` is the panic, which ends the program.
abbrev pub unwrap : Result (Unit {0}) IoError × DevTree → Option DevTree
unwrap (ok _, t) = some t
unwrap (err _, t) = none

abbrev pub dev_dir : FilePath
dev_dir = record { absolute = true; parts = codes "dev" ∷ [] }

abbrev pub disk_dir : FilePath
disk_dir = record { absolute = true; parts = codes "dev" ∷ codes "disk" ∷ [] }

abbrev pub part_dir : FilePath
part_dir = record { absolute = true; parts = codes "dev" ∷ codes "part" ∷ [] }

abbrev pub dev_path : Text → FilePath
dev_path devname = append dev_dir (from_text devname)

abbrev pub disk_link : ℕ → FilePath
disk_link diskseq = append disk_dir (named (to_string diskseq))

abbrev pub disk_part_dir : ℕ → FilePath
disk_part_dir diskseq = append part_dir (named (to_string diskseq))

abbrev pub part_link : ℕ → ℕ → FilePath
part_link diskseq partn = append (disk_part_dir diskseq) (named (to_string partn))

unfoldable pub add_disk_symlink : Text → ℕ → DevTree → Option DevTree
add_disk_symlink devname diskseq t = do
  t' ← unwrap (create_dir_all disk_dir t)
  unwrap (create_new (disk_link diskseq) (link (dev_path devname)) t')

unfoldable pub remove_disk_symlink : ℕ → DevTree → DevTree
remove_disk_symlink diskseq t = (remove_file (disk_link diskseq) t).1

unfoldable pub add_partition_symlink : Text → ℕ → ℕ → DevTree → Option DevTree
add_partition_symlink devname diskseq partn t = do
  t' ← unwrap (create_dir_all (disk_part_dir diskseq) t)
  unwrap (create_new (part_link diskseq partn) (link (dev_path devname)) t')

unfoldable pub remove_partition_symlink : ℕ → ℕ → DevTree → DevTree
remove_partition_symlink diskseq partn t = (remove_file (part_link diskseq partn) t).1

unfoldable pub add_symlink : Text → DevType → DevTree → Option DevTree
add_symlink devname character t = some t
add_symlink devname (disk diskseq) t = add_disk_symlink devname diskseq t
add_symlink devname (partition diskseq partn) t = add_partition_symlink devname diskseq partn t

unfoldable pub remove_symlink : DevType → DevTree → DevTree
remove_symlink character t = t
remove_symlink (disk diskseq) t = remove_disk_symlink diskseq t
remove_symlink (partition diskseq partn) t = remove_partition_symlink diskseq partn t

-- What follows `mknod`: its error is only logged.
abbrev pub made : Text → DevType → Result (Unit {0}) IoError × DevTree → Option DevTree
made devname devtype (err _, t) = some t
made devname devtype (ok _, t) = add_symlink devname devtype t

unfoldable pub add_device : Text → ℕ → ℕ → DevType → DevTree → Option DevTree
add_device devname major minor devtype t = made devname devtype (
    if exists (dev_path devname) t
    then (ok tt, t)
    else create_new (dev_path devname) (special (special_of devtype) major minor) t)

unfoldable pub remove_device : Text → DevType → DevTree → DevTree
remove_device devname devtype t = remove_symlink devtype (remove_file (dev_path devname) t).1

unfoldable pub on_event : EventType → Text → ℕ → ℕ → DevType → DevTree → Option DevTree
on_event add devname major minor devtype t = add_device devname major minor devtype t
on_event remove devname major minor devtype t = some (remove_device devname devtype t)
on_event change devname major minor devtype t = some t
on_event move devname major minor devtype t = some t
on_event online devname major minor devtype t = some t
on_event offline devname major minor devtype t = some t
on_event bind devname major minor devtype t = some t
on_event unbind devname major minor devtype t = some t

-- The directory of a device is made for each kind of event.
unfoldable pub handle_device : EventType → Text → ℕ → ℕ → DevType → DevTree → Option DevTree
handle_device event devname major minor devtype t = do
  d ← parent (dev_path devname)
  t' ← unwrap (create_dir_all d t)
  on_event event devname major minor devtype t'

-- The state of the loop: how often it has sent a message, and the tree.
abbrev pub Listening : Type 0
Listening = ℕ × DevTree

abbrev pub sent : ℕ → Option DevTree → Option Listening
sent n none = none
sent n (some t) = some (suc n, t)

-- The part of a round that has an event: one with a name and both numbers is handled.
unfoldable pub handle_uevent : Uevent → Listening → Option Listening
handle_uevent u (n, t) = elim u.devname [
  | none ↦ some (n, t)
  | some devname ↦ elim u.major [
    | none ↦ some (n, t)
    | some major ↦ elim u.minor [
      | none ↦ some (n, t)
      | some minor ↦ sent n (handle_device u.event devname major minor u.devtype t)
    ]
  ]
]

-- A round of the loop, of what `recv_from_full` gives: an error, or bytes that are UTF-8 or not.
unfoldable pub listen_round : Option (Option Text) → Listening → Option Listening
listen_round none s = some s
listen_round (some bytes) s = elim (parse bytes) [ err _ ↦ some s | ok u ↦ handle_uevent u s ]

unfoldable pub listen_and_create_devices :
    List (Option (Option Text)) → Listening → Option Listening
listen_and_create_devices [] s = some s
listen_and_create_devices (m ∷ ms) s = listen_round m s >>= listen_and_create_devices ms

-- The match on DEVTYPE.
unfoldable pub scan_device : Option Text → Text → ℕ → Option ℕ → DevTree → Option DevTree
scan_device none devname diskseq partn t = some t
scan_device (some devtype) devname diskseq partn t =
    if equal devtype (codes "disk")
    then add_disk_symlink devname diskseq t
    else if equal devtype (codes "partition")
    then (elim partn [ none ↦ some t | some n ↦ add_partition_symlink devname diskseq n t ])
    else some t

-- What is left of an entry by `let else` and `continue`.
unfoldable pub scan_fields :
    Option Text → Option ℕ → Result (Option ℕ) UeventError → Option Text → DevTree → Option DevTree
scan_fields none diskseq partn devtype t = some t
scan_fields (some devname) none partn devtype t = some t
scan_fields (some devname) (some diskseq) (err e) devtype t = some t
scan_fields (some devname) (some diskseq) (ok partn) devtype t =
    scan_device devtype devname diskseq partn t

-- An entry of /sys/class/block, by its file `uevent` if that can be read.
unfoldable pub scan_entry : Option Text → DevTree → Option DevTree
scan_entry none t = some t
scan_entry (some uevent) t =
    let m = parse_uevent uevent in
    scan_fields (get (codes "DEVNAME") m) (valid_number (codes "DISKSEQ") m)
      (number_at (codes "PARTN") m) (get (codes "DEVTYPE") m) t

unfoldable pub scan_and_create_devices : List (Option Text) → DevTree → Option DevTree
scan_and_create_devices [] t = some t
scan_and_create_devices (e ∷ es) t = scan_entry e t >>= scan_and_create_devices es

-- The thread that `main` starts: the scan, then the loop, which has sent nothing yet.
unfoldable pub watch_devices :
    List (Option Text) → List (Option (Option Text)) → DevTree → Option Listening
watch_devices entries messages t = do
  t' ← scan_and_create_devices entries t
  listen_and_create_devices messages (0, t')
