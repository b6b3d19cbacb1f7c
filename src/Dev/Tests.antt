-- ===== src/Dev/Tests.antt =====
-- Events that are read.
use tinyboot.Text.Decimal.{to_string}
use tinyboot.Prelude.{false, List, [], ◌∷◌, All, none, some, last_said, ◌≡◌, refl, arith}
use tinyboot.Result.{ok}
use tinyboot.Text.{Text, codes, lines, equal}
use tinyboot.Dev.{Uevent, add, disk, get, parse, parse_uevent}
use tinyboot.Dev.UeventFile.{value_of, get-parse_uevent}
use tinyboot.Dev.Pairs.{Pair, message}
use tinyboot.Dev.RoundTrip.{Describes, parse-message}
use tinyboot.Dev.Clean.{IsClean, is_plain-Lacks, all_plain-IsClean}

-- The message of the test `parse_add_disk` of tboot/src/dev.rs.
abbrev sda_path : Text
sda_path =
    codes
      "/devices/platform/4010000000.pcie/pci0000:00/0000:00:02.0/usb2/2-1/2-1:1.0/host0/target0:0:0/0:0:0:0/block/sda"

abbrev sda_pairs : List Pair
sda_pairs =
    (codes "ACTION", codes "add")
    ∷ (codes "DEVPATH", sda_path)
    ∷ (codes "SUBSYSTEM", codes "block")
    ∷ (codes "MAJOR", codes "8")
    ∷ (codes "MINOR", codes "0")
    ∷ (codes "DEVNAME", codes "sda")
    ∷ (codes "DEVTYPE", codes "disk")
    ∷ (codes "DISKSEQ", codes "3")
    ∷ (codes "SEQNUM", codes "532")
    ∷ []

abbrev sda_event : Uevent
sda_event = record {
  event = add;
  major = some 8;
  minor = some 0;
  devname = some (codes "sda");
  devtype = disk 3;
}

sda_pairs-IsClean : All IsClean sda_pairs
sda_pairs-IsClean = all_plain-IsClean sda_pairs refl

sda_pairs-Describes : Describes (codes "block") sda_pairs sda_event
unfolding equal to_string
sda_pairs-Describes = record {
  major = refl;
  minor = refl;
  devname = refl;
  subsystem = refl;
  kind = (refl, (refl, refl));
}

parse-message_example : parse (some (message add sda_path sda_pairs false)) ≡ ok sda_event
parse-message_example =
    parse-message sda_path (codes "block") sda_pairs false sda_event
      (is_plain-Lacks sda_path refl).1 sda_pairs-IsClean sda_pairs-Describes (omega arith)
      (omega arith) (omega arith)

get-parse_uevent_example :
    get (codes "DEVNAME") (parse_uevent (codes "MAJOR=8\nDEVNAME=sda\n"))
    ≡ last_said (value_of (codes "DEVNAME")) (lines (codes "MAJOR=8\nDEVNAME=sda\n")) none
get-parse_uevent_example = get-parse_uevent (codes "DEVNAME") (codes "MAJOR=8\nDEVNAME=sda\n")
