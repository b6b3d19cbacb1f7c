-- ===== src/Dev/Devices/Tests.antt =====
-- Devices that are scanned and announced.
use mathlib.Core.Path.{subst}
use tinyboot.Prelude.{
  true, List, [], ◌∷◌, ◌&&◌, not, Option, none, some, if◌then◌else◌, ◌≡◌, refl, sym, ◌>>=◌, arith,
}
use tinyboot.Text.{Text, codes, equal, lines, split_once, split, join}
use tinyboot.Text.Decimal.{from_str_radix, to_string}
use tinyboot.FilePath.{FilePath, append, parent, from_text}
use tinyboot.Fs.{dir, lookup, create_dir_all, create_dirs, insert, create_new}
use tinyboot.Dev.{
  Uevent, DevType, partition, add, parse, get, parse_uevent, parse_uevent_lines, valid_number,
  number_at, parse_parts, event_of, event_type_from_str, uevent_of, collect_pairs, devtype_of,
}
use tinyboot.Dev.Pairs.{Pair, message}
use tinyboot.Dev.RoundTrip.{Describes, parse-message}
use tinyboot.Dev.Clean.{is_plain-Lacks, all_plain-IsClean}
use tinyboot.Dev.Devices.{
  DevTree, dev_dir, watch_devices, scan_and_create_devices, scan_entry, scan_fields, scan_device,
  add_disk_symlink, add_device, add_symlink, exists, exists_within, handle_device, handle_uevent,
  listen_and_create_devices, listen_round, on_event,
}
use tinyboot.Dev.Devices.Settle.{wait_for_settle, wait_for_settle-ends, pauses, from_pause}
use tinyboot.Dev.Devices.Links.{Links, links}
use tinyboot.Dev.Devices.Kept.{IsDevTree, IsDevName}
use tinyboot.Dev.Devices.Spec.{Implements}
use tinyboot.Dev.Devices.Run.{tree_of, messages_links, PlainMessage, PlainResult}
use tinyboot.Dev.Devices.Start.{entries_links, watch_devices-Implements}

abbrev fresh : DevTree
fresh = (dev_dir, dir) ∷ []

abbrev no_links : Links
no_links q = none

fresh-IsDevTree : IsDevTree fresh
unfolding lookup append
fresh-IsDevTree = record {
  dev = refl;
  disk = tt;
  part = tt;
  disk_part = λ n. tt;
  disk_links = λ n. tt;
  part_links = λ n k. tt;
}

fresh-links : (q : FilePath) → links fresh q ≡ none
unfolding lookup
fresh-links q = ground arith

abbrev scanned : List (Option Text)
scanned = some (codes "DEVNAME=sda\nDEVTYPE=disk\nDISKSEQ=1\n") ∷ none ∷ []

abbrev event_of_add : Text → DevType → Uevent
event_of_add name d = record {
  event = add;
  major = some 8;
  minor = some 1;
  devname = some name;
  devtype = d;
}

abbrev pairs_of_add : Text → List Pair → List Pair
pairs_of_add name more =
    (codes "SUBSYSTEM", codes "block")
    ∷ (codes "MAJOR", codes "8")
    ∷ (codes "MINOR", codes "1")
    ∷ (codes "DEVNAME", name)
    ∷ (codes "DISKSEQ", codes "1")
    ∷ more

abbrev sda1_pairs : List Pair
sda1_pairs = pairs_of_add (codes "sda1") ((codes "PARTN", codes "2") ∷ [])

abbrev added_event : List Pair → Option (Option Text)
added_event ps = some (some (message add (codes "/devices/x") ps true))

sda1-Describes : Describes (codes "block") sda1_pairs (event_of_add (codes "sda1") (partition 1 2))
unfolding equal to_string
sda1-Describes = record {
  major = refl;
  minor = refl;
  devname = refl;
  subsystem = refl;
  kind = (refl, (refl, refl));
}

sda1-IsDevName : IsDevName (codes "sda1")
unfolding equal
sda1-IsDevName = record {
  is_name = record {
    ne_nil = refl;
    ne_dot = refl;
    ne_dots = refl;
    no_slash = (refl, (refl, (refl, (refl, tt))));
  };
  ne_disk = refl;
  ne_part = refl;
}

sda1-PlainMessage : PlainMessage no_links (added_event sda1_pairs)
unfolding equal
sda1-PlainMessage =
    subst (PlainResult no_links)
      (sym (
        parse-message (codes "/devices/x") (codes "block") sda1_pairs true
          (event_of_add (codes "sda1") (partition 1 2)) (is_plain-Lacks (codes "/devices/x") refl).1
          (all_plain-IsClean sda1_pairs refl) sda1-Describes (omega arith) (omega arith)
          (omega arith, omega arith)))
      (sda1-IsDevName, refl)

watch_devices-Implements_example :
    Implements
      (tree_of (watch_devices scanned (added_event sda1_pairs ∷ none ∷ []) fresh))
      (entries_links scanned no_links >>= messages_links (added_event sda1_pairs ∷ none ∷ []))
watch_devices-Implements_example =
    watch_devices-Implements scanned (added_event sda1_pairs ∷ none ∷ []) no_links fresh
      (sda1-PlainMessage, (tt, tt)) (fresh-IsDevTree, fresh-links)

wait_for_settle-ends_example :
    wait_for_settle 4 2 (record { gaps = 1 ∷ 2 ∷ 3 ∷ []; dropped = true }) ≡ (
      if true && not (pauses 2 (1 ∷ 2 ∷ 3 ∷ []))
      then none
      else some (record { gaps = from_pause 2 (1 ∷ 2 ∷ 3 ∷ []); dropped = true }))
wait_for_settle-ends_example = wait_for_settle-ends 2 4 (1 ∷ 2 ∷ 3 ∷ []) true (omega arith)

-- A disk that is scanned and then announced again.
announced_again :
    watch_devices scanned (added_event (pairs_of_add (codes "sda") []) ∷ []) fresh ≡ none
unfolding watch_devices scan_and_create_devices scan_entry scan_fields get parse_uevent
    parse_uevent_lines lines split_once equal valid_number from_str_radix number_at scan_device
    add_disk_symlink create_dir_all create_dirs add_device add_symlink exists exists_within
    handle_device handle_uevent lookup append insert create_new parent listen_and_create_devices
    listen_round parse parse_parts split event_of event_type_from_str uevent_of collect_pairs
    devtype_of on_event to_string from_text join
announced_again = refl
