-- ===== src/Dev.antt =====
-- tboot/src/dev.rs: the device events of the kernel, and the files that describe devices.
pub mod UeventFile
pub mod Pairs
pub mod Clean
pub mod RoundTrip
pub mod Devices
mod Tests
use mathlib.Core.Option
use tinyboot.Prelude.{
  ℕ, Bool, true, false, List, [], ◌∷◌, ◌++◌, Option, none, some, if◌then◌else◌, ◌==◌,
}
use tinyboot.Result.{Result, ok, err, ok_or, to_option, ◌>>=◌}
use tinyboot.Text.{Text, codes, equal, lines, split, split_once}
use tinyboot.Text.Decimal.{u32_max, from_str_radix}

-- A `HashMap` of texts, with the last value of a key in front.
abbrev pub TextMap : Type 0
TextMap = List (Text × Text)

unfoldable pub get : Text → TextMap → Option Text
get k [] = none
get k ((key, val) ∷ m) = if equal key k then some val else get k m

abbrev pub is_equals : ℕ → Bool
is_equals c = c == b'='

-- `parse_uevent`, a fold over the lines.
unfoldable pub parse_uevent_lines : List Text → TextMap → TextMap
parse_uevent_lines [] m = m
parse_uevent_lines (l ∷ ls) m =
    parse_uevent_lines ls
      (elim (split_once is_equals l) [ none ↦ m | some (key, val) ↦ (key, val) ∷ m ])

unfoldable pub parse_uevent : Text → TextMap
parse_uevent contents = parse_uevent_lines (lines contents) []

pub data DevType : Type 0 where
  disk : ℕ → DevType
  partition : ℕ → ℕ → DevType
  character : DevType

pub data EventType : Type 0 where
  add remove change move online offline bind unbind : EventType

-- `EventType::from_str`
pub event_type_from_str : Text → Option EventType
event_type_from_str s =
    if equal s (codes "add")
    then some add
    else if equal s (codes "remove")
    then some remove
    else if equal s (codes "change")
    then some change
    else if equal s (codes "move")
    then some move
    else if equal s (codes "online")
    then some online
    else if equal s (codes "offline")
    then some offline
    else if equal s (codes "bind")
    then some bind
    else if equal s (codes "unbind")
    then some unbind
    else none

pub record Uevent : Type 0 where
  pub event : EventType
  pub major : Option ℕ
  pub minor : Option ℕ
  pub devname : Option Text
  pub devtype : DevType

pub data UeventError : Type 0 where
  invalid_uevent missing_event_type : UeventError
  invalid_event_type : Text → UeventError

-- `while let Some((k, v)) = …`: the first part with no `=` ends the loop.
pub collect_pairs : List Text → TextMap → TextMap
collect_pairs [] m = m
collect_pairs (s ∷ ss) m = elim (split_once is_equals s) [
  | none ↦ m
  | some (k, v) ↦ collect_pairs ss ((k, v) ∷ m)
]

-- `map(from_str_radix).transpose()`
pub number_at : Text → TextMap → Result (Option ℕ) UeventError
number_at k m = elim (get k m) [
  | none ↦ ok none
  | some s ↦ elim (from_str_radix u32_max s) [ none ↦ err invalid_uevent | some n ↦ ok (some n) ]
]

-- `get` and `from_str_radix`, with no error.
pub valid_number : Text → TextMap → Option ℕ
valid_number k m = elim (get k m) [ none ↦ none | some s ↦ from_str_radix u32_max s ]

abbrev partition_of : Option ℕ → Option ℕ → Option DevType
partition_of none partn = none
partition_of (some diskseq) none = none
partition_of (some diskseq) (some partn) = some (partition diskseq partn)

pub devtype_of : TextMap → Option DevType
devtype_of m = elim (get (codes "SUBSYSTEM") m) [
  | none ↦ none
  | some subsystem ↦
      if equal subsystem (codes "block")
      then (elim (get (codes "PARTN") m) [
        | some partn ↦
            partition_of (valid_number (codes "DISKSEQ") m) (from_str_radix u32_max partn)
        | none ↦ Option.map disk (valid_number (codes "DISKSEQ") m)
      ])
      else some character
]

-- The part of `parse` behind the event type.
pub uevent_of : EventType → TextMap → Result Uevent UeventError
uevent_of event m = do
  major ← number_at (codes "MAJOR") m
  minor ← number_at (codes "MINOR") m
  devtype ← ok_or (devtype_of m) invalid_uevent
  ok (record {
    event = event;
    major = major;
    minor = minor;
    devname = get (codes "DEVNAME") m;
    devtype = devtype;
  })

abbrev is_at : ℕ → Bool
is_at c = c == b'@'

pub event_of : Text → Result EventType UeventError
event_of head = elim (split_once is_at head) [
  | none ↦ err missing_event_type
  | some (event_type, _) ↦ elim (event_type_from_str event_type) [
    | none ↦ err (invalid_event_type event_type)
    | some e ↦ ok e
  ]
]

pub parse_parts : List Text → Result Uevent UeventError
parse_parts [] = err missing_event_type
parse_parts (head ∷ parts) = do event ← event_of head; uevent_of event (collect_pairs parts [])

-- `Uevent::parse`, of bytes that are UTF-8 or not (`none`).
pub parse : Option Text → Result Uevent UeventError
parse none = err invalid_uevent
parse (some uevent_str) = parse_parts (split 0 uevent_str)
