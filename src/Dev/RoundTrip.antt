-- ===== src/Dev/RoundTrip.antt =====
-- The message that the kernel sends for an event, and what is read from it.
use mathlib.Core.Option
use tinyboot.Prelude.{
  ℕ, ◌≤◌, false, List, [], ◌∷◌, ◌++◌, map, Option, none, some, Bool, ◌≡◌, refl, ap, ◌∙◌, All,
}
use tinyboot.Result.{ok}
use tinyboot.Text.{Text, codes, equal, split, split_onto, split_once, Lacks}
use tinyboot.Text.Decimal.{u32_max, to_string, from_str_radix-to_string}
use tinyboot.Dev.{
  TextMap, get, DevType, disk, partition, character, EventType, add, remove, change, move, online,
  offline, bind, unbind, Uevent, collect_pairs, number_at, valid_number, devtype_of, uevent_of,
  event_of, event_type_from_str, parse_parts, parse,
}
use tinyboot.Dev.Pairs.{
  split_onto-join, Pair, value, ending, get-collect_pairs, render, event_name, message,
}
use tinyboot.Dev.Clean.{IsClean, render-Lacks, keys-Lacks, event_name-Lacks, is_zero_byte}

-- A device that the numbers of the program can hold.
abbrev Fits : DevType → Type 0
Fits (disk n) = n ≤ u32_max
Fits (partition n p) = (n ≤ u32_max) × (p ≤ u32_max)
Fits character = Unit

-- What the pairs of a message say of the kind of a device of subsystem `s`.
abbrev pub SaysKind : Text → List Pair → DevType → Type 0
SaysKind s ps (disk n) =
    (s ≡ codes "block")
    × ((value (codes "DISKSEQ") ps ≡ some (to_string n)) × (value (codes "PARTN") ps ≡ none))
SaysKind s ps (partition n k) =
    (s ≡ codes "block")
    × ((value (codes "DISKSEQ") ps ≡ some (to_string n))
        × (value (codes "PARTN") ps ≡ some (to_string k)))
SaysKind s ps character = equal s (codes "block") ≡ false

devtype_of-SaysKind :
    (s : Text) (ps : List Pair) (d : DevType) (m : TextMap)
    → Fits d
    → value (codes "SUBSYSTEM") ps ≡ some s
    → SaysKind s ps d
    → ((k : Text) → get k m ≡ value k ps)
    → devtype_of m ≡ some d
unfolding devtype_of valid_number equal
devtype_of-SaysKind s ps (disk n) m fits of_subsystem (block, (diskseq, partn)) gets = rw (
  gets (codes "SUBSYSTEM") ∙ of_subsystem ∙ ap (λ (b : Text). some b) block,
  gets (codes "PARTN") ∙ partn,
  gets (codes "DISKSEQ") ∙ diskseq,
  devtype_of,
  valid_number,
  from_str_radix-to_string u32_max n fits,
)
devtype_of-SaysKind s ps (partition n k) m fits of_subsystem (block, (diskseq, partn)) gets = rw (
  gets (codes "SUBSYSTEM") ∙ of_subsystem ∙ ap (λ (b : Text). some b) block,
  gets (codes "PARTN") ∙ partn,
  gets (codes "DISKSEQ") ∙ diskseq,
  devtype_of,
  valid_number,
  from_str_radix-to_string u32_max n fits.0,
  from_str_radix-to_string u32_max k fits.1,
)
devtype_of-SaysKind s ps character m fits of_subsystem other gets =
    rw (gets (codes "SUBSYSTEM") ∙ of_subsystem, other, devtype_of)

-- A number that is there fits 32 bits.
abbrev pub FitsOption : Option ℕ → Type 0
FitsOption none = Unit
FitsOption (some n) = n ≤ u32_max

number_at-to_string :
    (k : Text) (m : TextMap) (n : Option ℕ)
    → FitsOption n
    → get k m ≡ Option.map to_string n
    → number_at k m ≡ ok n
unfolding number_at
number_at-to_string k m none fits h = rw (h, number_at)
number_at-to_string k m (some n) fits h = rw (h, number_at, from_str_radix-to_string u32_max n fits)

event_of-event_name : (e : EventType) (path : Text) → event_of (event_name e ++ b'@' ∷ path) ≡ ok e
unfolding event_of event_type_from_str split_once equal
event_of-event_name add path = refl
event_of-event_name remove path = refl
event_of-event_name change path = refl
event_of-event_name move path = refl
event_of-event_name online path = refl
event_of-event_name offline path = refl
event_of-event_name bind path = refl
event_of-event_name unbind path = refl

-- The pairs say what the event holds, the device being of subsystem `s`. Other keys may stand among
-- them, in any order.
pub record Describes (s : Text) (ps : List Pair) (u : Uevent) : Type 0 where
  pub major : value (codes "MAJOR") ps ≡ Option.map to_string u.major
  pub minor : value (codes "MINOR") ps ≡ Option.map to_string u.minor
  pub devname : value (codes "DEVNAME") ps ≡ u.devname
  pub subsystem : value (codes "SUBSYSTEM") ps ≡ some s
  pub kind : SaysKind s ps u.devtype

uevent_of-Describes :
    (s : Text) (ps : List Pair) (u : Uevent) (m : TextMap)
    → Describes s ps u
    → FitsOption u.major
    → FitsOption u.minor
    → Fits u.devtype
    → ((k : Text) → get k m ≡ value k ps)
    → uevent_of u.event m ≡ ok u
unfolding uevent_of
uevent_of-Describes s ps u m describes major minor kind gets =
    let devtype : devtype_of m ≡ some u.devtype =
      devtype_of-SaysKind s ps u.devtype m kind describes.subsystem describes.kind gets in
    let devname : get (codes "DEVNAME") m ≡ u.devname =
      gets (codes "DEVNAME") ∙ describes.devname in
    rw (
      number_at-to_string (codes "MAJOR") m u.major major (gets (codes "MAJOR") ∙ describes.major),
      number_at-to_string (codes "MINOR") m u.minor minor (gets (codes "MINOR") ∙ describes.minor),
      devtype,
      devname,
    )

-- A message of the kernel is read as the event that its pairs describe: after `<event>@<path>`, pairs
-- in any order, with any others among them, and with or without a zero byte at the end. The last
-- value of a key counts; a disk is of subsystem `block` with no partition number, a partition has
-- one, and any other device is of another subsystem. The conditions are that no part holds a zero
-- byte and no key an equals sign, and that the numbers fit 32 bits.
pub parse-message :
    (path s : Text) (ps : List Pair) (ended : Bool) (u : Uevent)
    → Lacks is_zero_byte path
    → All IsClean ps
    → Describes s ps u
    → FitsOption u.major
    → FitsOption u.minor
    → Fits u.devtype
    → parse (some (message u.event path ps ended)) ≡ ok u
unfolding parse parse_parts split split_onto get
parse-message path s ps ended u path_free clean describes major minor kind =
    let parts = map render ps ++ ending ended in
    let cut : split 0 (message u.event path ps ended)
        ≡ (event_name u.event ++ b'@' ∷ path) ∷ parts =
      split_onto-join 0 (event_name u.event ++ b'@' ∷ path) parts []
        (event_name-Lacks u.event path path_free) (render-Lacks ps ended clean) in
    rw (cut, parse_parts)
      (rw (event_of-event_name u.event path) (
        uevent_of-Describes s ps u (collect_pairs parts []) describes major minor kind
          (λ k. get-collect_pairs k ps ended [] (keys-Lacks ps clean))))
