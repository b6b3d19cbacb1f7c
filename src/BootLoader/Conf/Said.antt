-- ===== src/BootLoader/Conf/Said.antt =====
-- What a whole loader.conf says, with no loop.
use mathlib.Core.Option
use tinyboot.Prelude.{
  last_said, ℕ, true, false, List, [], ◌∷◌, Option, none, some, if◌then◌else◌, ◌>>=◌, ◌≡◌, refl,
  arith, ◌∙◌, ap,
}
use tinyboot.Text.{Text, codes, lines, starts_with, strip_prefix, trim_end_matches}
use tinyboot.Text.Decimal.{u64_max, from_str_radix}
use tinyboot.BootLoader.Conf.{
  LoaderConf, last_word, timeout_line, default_line, conf_line, conf_lines, parse_loader_conf,
}

-- What a line alone says.
abbrev pub timeout_of : Text → Option ℕ
timeout_of l =
    if starts_with (codes "timeout") l then last_word l >>= from_str_radix u64_max else none

abbrev pub default_of : Text → Option Text
default_of l =
    if starts_with (codes "default") l
    then Option.map (trim_end_matches (codes ".conf")) (last_word l)
    else none

abbrev pub or_else_of : {A : Type 0} → A → Option A → A
or_else_of a none = a
or_else_of a (some b) = b

timeout-not-default :
    (l : Text) → starts_with (codes "timeout") l ≡ true → starts_with (codes "default") l ≡ false
unfolding starts_with strip_prefix
timeout-not-default [] h = refl
timeout-not-default (c ∷ l) h = ground arith

conf_line-said :
    (l : Text) (conf : LoaderConf)
    → ((conf_line conf l).timeout ≡ or_else_of conf.timeout (timeout_of l))
      × ((conf_line conf l).default_entry
          ≡ (elim (default_of l) [ none ↦ conf.default_entry | some a ↦ some a ]))
unfolding conf_line timeout_line default_line
conf_line-said l conf = ground (arith, timeout-not-default l)

said_before :
    (n : ℕ) (before : Option ℕ) (t : ℕ) (now : Option ℕ)
    → t ≡ or_else_of n before
    → or_else_of t now ≡ or_else_of n (elim now [ none ↦ before | some a ↦ some a ])
said_before n before t none h = h
said_before n before t (some a) h = refl

conf_lines-said :
    (ls : List Text) (n : ℕ) (before : Option ℕ) (conf : LoaderConf)
    → conf.timeout ≡ or_else_of n before
    → ((conf_lines ls conf).timeout ≡ or_else_of n (last_said timeout_of ls before))
      × ((conf_lines ls conf).default_entry ≡ last_said default_of ls conf.default_entry)
unfolding conf_lines
conf_lines-said [] n before conf h = (h, refl)
conf_lines-said (l ∷ ls) n before conf h =
    let (timeout, default) = conf_line-said l conf in
    let (later_timeout, later_default) =
      conf_lines-said ls n (elim (timeout_of l) [ none ↦ before | some a ↦ some a ])
        (conf_line conf l) (timeout ∙ said_before n before conf.timeout (timeout_of l) h) in
    (later_timeout, later_default ∙ ap (last_said default_of ls) default)

-- The timeout is the number that ends the last line that starts with `timeout` and ends in a number,
-- or else 5. The default entry is the last word, with no `.conf` behind it, of the last line that
-- starts with `default`, if there is one.
pub parse_loader_conf-said :
    (contents : Text)
    → ((parse_loader_conf contents).timeout
        ≡ or_else_of 5 (last_said timeout_of (lines contents) none))
      × ((parse_loader_conf contents).default_entry ≡ last_said default_of (lines contents) none)
unfolding parse_loader_conf
parse_loader_conf-said contents =
    conf_lines-said (lines contents) 5 none (record { default_entry = none; timeout = 5 }) refl
