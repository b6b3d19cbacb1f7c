-- ===== src/BootLoader/Conf.antt =====
-- `LoaderConf` of tboot-loader/src/boot_loader/disk.rs.
pub mod Said
use mathlib.Core.Option
use tinyboot.Prelude.{
  ℕ, Bool, true, false, List, [], ◌∷◌, Option, none, some, if◌then◌else◌, ◌>>=◌, ◌≡◌, refl, arith,
  ◌∙◌, ap, Bool-cases, Option-cases, inl, inr,
}
use tinyboot.Text.{
  Text, codes, lines, starts_with, strip_prefix, split_whitespace, trim_end_matches,
}
use tinyboot.Text.Decimal.{u64_max, from_str_radix}

-- The timeout is in seconds.
pub record LoaderConf : Type 0 where
  pub default_entry : Option Text
  pub timeout : ℕ

abbrev pub last_of : List Text → Option Text
last_of [] = none
last_of (w ∷ []) = some w
last_of (w ∷ v ∷ ws) = last_of (v ∷ ws)

unfoldable pub last_word : Text → Option Text
last_word line = last_of (split_whitespace line)

-- The first half of a round of the loop; `none` goes on with the next line.
unfoldable pub timeout_line : Text → LoaderConf → Option LoaderConf
timeout_line line conf =
    if starts_with (codes "timeout") line
    then Option.map (λ n. record conf { timeout = n }) (last_word line >>= from_str_radix u64_max)
    else some conf

unfoldable pub default_line : Text → LoaderConf → LoaderConf
default_line line conf =
    if starts_with (codes "default") line
    then (elim (last_word line) [
      | none ↦ conf
      | some found ↦ record conf { default_entry = some (trim_end_matches (codes ".conf") found) }
    ])
    else conf

unfoldable pub conf_line : LoaderConf → Text → LoaderConf
conf_line conf line = elim (timeout_line line conf) [ none ↦ conf | some c ↦ default_line line c ]

unfoldable pub conf_lines : List Text → LoaderConf → LoaderConf
conf_lines [] conf = conf
conf_lines (l ∷ ls) conf = conf_lines ls (conf_line conf l)

unfoldable pub parse_loader_conf : Text → LoaderConf
parse_loader_conf contents =
    conf_lines (lines contents) (record { default_entry = none; timeout = 5 })
