-- ===== src/Config.antt =====
-- tboot/src/config.rs: the configuration that the kernel command line hands to the program.
pub mod First
mod Tests
use tinyboot.Prelude.{ℕ, List, [], ◌∷◌, ◌++◌, Option, none, some, if◌then◌else◌, ◌==◌, Bool, first}
use tinyboot.Text.{Text, codes, equal, strip_prefix, split_once}

abbrev pub is_equals : ℕ → Bool
is_equals c = c == b'='

-- `filter_map`: the key and the value of an argument of the program.
unfoldable pub arg_pair : Text → Option (Text × Text)
arg_pair arg = elim (strip_prefix (codes "tboot.") arg) [
  | none ↦ none
  | some rest ↦ split_once is_equals rest
]

-- A `HashMap` from keys to their values, in the order of the arguments.
abbrev pub ValueMap : Type 0
ValueMap = List (Text × List Text)

unfoldable pub push_value : Text → Text → ValueMap → ValueMap
push_value k v [] = (k, v ∷ []) ∷ []
push_value k v ((key, existing) ∷ map) =
    let rest = push_value k v map in
    if equal key k then (key, existing ++ v ∷ []) ∷ map else (key, existing) ∷ rest

-- The fold over the arguments.
unfoldable pub collect_args : List Text → ValueMap → ValueMap
collect_args [] map = map
collect_args (arg ∷ args) map = elim (arg_pair arg) [
  | none ↦ collect_args args map
  | some (k, v) ↦ collect_args args (push_value k v map)
]

-- `remove`, of keys that are each removed once.
unfoldable pub values_at : Text → ValueMap → Option (List Text)
values_at k [] = none
values_at k ((key, existing) ∷ map) = if equal key k then some existing else values_at k map

abbrev pub first_of : Option (List Text) → Option Text
first_of none = none
first_of (some vs) = first vs

-- `LevelFilter` of the crate log: its parser, and the level `Info`.
module _ (Level : Type 0) (info : Level) (level_from_str : Text → Option Level) where
  pub record Config : Type 0 where
    pub log_level : Level
    pub tty : Text
    pub programmer : Text

  abbrev pub default : Config
  default = record { log_level = info; tty = codes "tty1"; programmer = codes "internal" }

  unfoldable pub set_log_level : Option Text → Config → Config
  set_log_level none cfg = cfg
  set_log_level (some level) cfg = elim (level_from_str level) [
    | none ↦ cfg
    | some log_level ↦ record cfg { log_level = log_level }
  ]

  unfoldable pub set_tty : Option Text → Config → Config
  set_tty none cfg = cfg
  set_tty (some tty) cfg = record cfg { tty = tty }

  unfoldable pub set_programmer : Option Text → Config → Config
  set_programmer none cfg = cfg
  set_programmer (some programmer) cfg = record cfg { programmer = programmer }

  unfoldable pub from_args : List Text → Config
  from_args args =
      let map = collect_args args [] in
      set_programmer (first_of (values_at (codes "programmer") map)) (
        set_tty (first_of (values_at (codes "tty") map))
          (set_log_level (first_of (values_at (codes "loglevel") map)) default))
