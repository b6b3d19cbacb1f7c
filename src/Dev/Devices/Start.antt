-- ===== src/Dev/Devices/Start.antt =====
-- The scan of the devices that are there at the start, and the loop behind it.
use mathlib.Core.Option
use tinyboot.Prelude.{
  ℕ, Bool-cases, inl, inr, List, [], ◌∷◌, Option, none, some, if◌then◌else◌, All, ◌>>=◌,
}
use tinyboot.Result.{Result, ok, err}
use tinyboot.Text.{Text, codes, equal}
use tinyboot.Dev.{
  DevType, disk, partition, add, UeventError, parse_uevent, get, number_at, valid_number,
}
use tinyboot.Dev.Devices.{
  DevTree, add_partition_symlink, scan_device, scan_fields, scan_entry, scan_and_create_devices,
  listen_and_create_devices, watch_devices,
}
use tinyboot.Dev.Devices.Links.{Links}
use tinyboot.Dev.Devices.Spec.{added, Shows, Implements}
use tinyboot.Dev.Devices.Symlinks.{add_disk_symlink-Implements, add_partition_symlink-Implements}
use tinyboot.Dev.Devices.Free.{Keeps, on_links-Keeps}
use tinyboot.Dev.Devices.Run.{PlainMessage, All-Keeps, messages_links, tree_of, listen-Implements}

-- The disk or partition that the fields of a file `uevent` describe.
abbrev pub block_device : Option Text → ℕ → Option ℕ → Option DevType
block_device none diskseq partn = none
block_device (some devtype) diskseq partn =
    if equal devtype (codes "disk")
    then some (disk diskseq)
    else if equal devtype (codes "partition")
    then Option.map (partition diskseq) partn
    else none

abbrev pub described :
    Option Text → Option ℕ → Result (Option ℕ) UeventError → Option Text → Option (Text × DevType)
described none diskseq partn devtype = none
described (some name) none partn devtype = none
described (some name) (some diskseq) (err e) devtype = none
described (some name) (some diskseq) (ok partn) devtype =
    Option.map (λ d. (name, d)) (block_device devtype diskseq partn)

abbrev pub device_links : Option (Text × DevType) → Links → Option Links
device_links none ls = some ls
device_links (some (name, d)) ls = added name d ls

abbrev pub entry_links : Option Text → Links → Option Links
entry_links none ls = some ls
entry_links (some uevent) ls =
    let m = parse_uevent uevent in
    device_links
      (described (get (codes "DEVNAME") m) (valid_number (codes "DISKSEQ") m)
        (number_at (codes "PARTN") m) (get (codes "DEVTYPE") m))
      ls

abbrev pub entries_links : List (Option Text) → Links → Option Links
entries_links [] ls = some ls
entries_links (e ∷ es) ls = entry_links e ls >>= entries_links es

scan_device-Implements :
    (devtype : Option Text) (name : Text) (n : ℕ) (partn : Option ℕ) (ls : Links) (t : DevTree)
    → Shows ls t
    → Implements
        (scan_device devtype name n partn t)
        (device_links (Option.map (λ d. (name, d)) (block_device devtype n partn)) ls)
unfolding scan_device
scan_device-Implements none name n partn ls t s = s
scan_device-Implements (some devtype) name n partn ls t s =
    elim (Bool-cases (equal devtype (codes "disk"))) [
      | inl is_disk ↦ rw is_disk (add_disk_symlink-Implements name n ls t s)
      | inr other ↦ rw other (elim (Bool-cases (equal devtype (codes "partition"))) [
        | inl is_partition ↦ rw is_partition (by_number partn)
        | inr neither ↦ rw neither s
      ])
    ]
  where
    by_number :
        (k : Option ℕ)
        → Implements
            (elim k [ none ↦ some t | some m ↦ add_partition_symlink name n m t ])
            (device_links (Option.map (λ d. (name, d)) (Option.map (partition n) k)) ls)
    by_number none = s
    by_number (some m) = add_partition_symlink-Implements name n m ls t s

scan_fields-Implements :
    (devname : Option Text) (diskseq : Option ℕ) (partn : Result (Option ℕ) UeventError)
    (devtype : Option Text) (ls : Links) (t : DevTree)
    → Shows ls t
    → Implements
        (scan_fields devname diskseq partn devtype t)
        (device_links (described devname diskseq partn devtype) ls)
unfolding scan_fields
scan_fields-Implements none diskseq partn devtype ls t s = s
scan_fields-Implements (some name) none partn devtype ls t s = s
scan_fields-Implements (some name) (some n) (err e) devtype ls t s = s
scan_fields-Implements (some name) (some n) (ok partn) devtype ls t s =
    scan_device-Implements devtype name n partn ls t s

scan_entry-Implements :
    (e : Option Text) (ls : Links) (t : DevTree)
    → Shows ls t
    → Implements (scan_entry e t) (entry_links e ls)
unfolding scan_entry
scan_entry-Implements none ls t s = s
scan_entry-Implements (some uevent) ls t s = scan_fields-Implements _ _ _ _ ls t s

device_links-Keeps : (d : Option (Text × DevType)) (ls : Links) → Keeps ls (device_links d ls)
device_links-Keeps none ls = λ other h free. free
device_links-Keeps (some (name, d)) ls = on_links-Keeps add name d ls

entry_links-Keeps : (e : Option Text) (ls : Links) → Keeps ls (entry_links e ls)
entry_links-Keeps none ls = λ other h free. free
entry_links-Keeps (some uevent) ls = device_links-Keeps _ ls

-- The thread that watches the devices, from a tree of the right shape, scans the devices that are
-- there and follows the messages of the kernel as a map of links does: it ends with these links and
-- no others, and it panics where a link that is to be made is in the map already, and only there.
-- The condition is that every device that a message names stands in /dev itself, where no link is.
pub watch_devices-Implements :
    (es : List (Option Text)) (ms : List (Option (Option Text))) (ls : Links) (t : DevTree)
    → All (PlainMessage ls) ms
    → Shows ls t
    → Implements (tree_of (watch_devices es ms t)) (entries_links es ls >>= messages_links ms)
unfolding watch_devices scan_and_create_devices
watch_devices-Implements [] ms ls t plain s = listen-Implements ms 0 ls t plain s
watch_devices-Implements (e ∷ es) ms ls t plain s =
    go (watch_devices-Implements es ms) (scan_entry e t) (entry_links e ls)
      (scan_entry-Implements e ls t s) (entry_links-Keeps e ls)
  where
    go :
        ((ls' : Links) (t' : DevTree)
          → All (PlainMessage ls') ms
          → Shows ls' t'
          → Implements
              (tree_of (watch_devices es ms t'))
              (entries_links es ls' >>= messages_links ms))
        → (o : Option DevTree) (l : Option Links) → Implements o l
        → Keeps ls l
        → Implements
            (tree_of
              ((o >>= scan_and_create_devices es) >>= λ t'. listen_and_create_devices ms (0, t')))
            ((l >>= entries_links es) >>= messages_links ms)
    go rest none none i keep = tt
    go rest none (some ls') i keep = elim i [ ]
    go rest (some t') none i keep = elim i [ ]
    go rest (some t') (some ls') i keep = rest ls' t' (All-Keeps ls ls' ms keep plain) i
