-- ===== src/Bls.antt =====
-- tboot/src/bls.rs: the file names of boot entries, with their boot counters.
pub mod Named
pub mod Tests
use tinyboot.Prelude.{ℕ, Option, none, some, ◌==◌, Bool}
use tinyboot.Result.{Result, ok, err, ok_or, ◌>>=◌}
use tinyboot.Text.{Text, codes, strip_suffix, split_once}
use tinyboot.Text.Decimal.{u32_max, from_str_radix}

pub data BlsEntryError : Type 0 where
  missing_conf_suffix invalid_tries_syntax missing_file_name : BlsEntryError

-- The name, and the numbers behind `+` and behind `-`.
abbrev pub BlsEntryMetadata : Type 0
BlsEntryMetadata = Text × Option ℕ × Option ℕ

abbrev pub is_plus : ℕ → Bool
is_plus c = c == b'+'

abbrev pub is_dash : ℕ → Bool
is_dash c = c == b'-'

-- `u32::from_str_radix(_, 10).map_err(|_| InvalidTriesSyntax)`
pub parse_tries : Text → Result ℕ BlsEntryError
parse_tries s = ok_or (from_str_radix u32_max s) invalid_tries_syntax

-- The inner `match`, on what stands behind the `+`.
pub parse_counters : Text → Text → Option (Text × Text) → Result BlsEntryMetadata BlsEntryError
unfolding parse_tries
parse_counters name counter_info none = do
  tries_done ← parse_tries counter_info
  ok (name, some tries_done, none)
parse_counters name counter_info (some (tries_done, tries_left)) = do
  done ← parse_tries tries_done
  left ← parse_tries tries_left
  ok (name, some done, some left)

pub parse_stem : Text → Option (Text × Text) → Result BlsEntryMetadata BlsEntryError
unfolding parse_counters
parse_stem filename none = ok (filename, none, none)
parse_stem filename (some (name, counter_info)) =
    parse_counters name counter_info (split_once is_dash counter_info)

unfoldable pub parse_entry_filename : Text → Result BlsEntryMetadata BlsEntryError
unfolding parse_stem
parse_entry_filename filename = do
  stem ← ok_or (strip_suffix (codes ".conf") filename) missing_conf_suffix
  parse_stem stem (split_once is_plus stem)
