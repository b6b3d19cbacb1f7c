-- ===== src/Config/Tests.antt =====
-- A command line with a configuration.
use tinyboot.Prelude.{
  List, [], ◌∷◌, Option, none, some, first, Bool, true, false, ◌≡◌, refl, if◌then◌else◌,
}
use tinyboot.Text.{strip_prefix, split_once, Text, codes, equal}
use tinyboot.Config.{
  values_at, set_tty, set_programmer, set_log_level, push_value, collect_args, arg_pair, from_args,
}
use tinyboot.Config.First.{values_of, or_default, read_level, from_args-first}

abbrev level_of : Text → Option Bool
level_of s = if equal s (codes "debug") then some true else none

abbrev args : List Text
args =
    codes "quiet"
    ∷ codes "tboot.tty=ttyS0"
    ∷ codes "tboot.loglevel=debug"
    ∷ codes "tboot.tty=tty2"
    ∷ []

configured :
    let cfg = from_args Bool false level_of args in
    (cfg.tty ≡ codes "ttyS0") × (cfg.programmer ≡ codes "internal") × (cfg.log_level ≡ true)
unfolding from_args set_programmer values_at collect_args arg_pair strip_prefix split_once
    push_value equal set_tty set_log_level
configured = (refl, refl, refl)

from_args-first_example :
    let cfg = from_args Bool false level_of args in
    (cfg.tty ≡ or_default Bool false level_of (first (values_of (codes "tty") args)) (codes "tty1"))
    × (cfg.programmer
        ≡ or_default Bool false level_of
            (first (values_of (codes "programmer") args))
            (codes "internal"))
    × (cfg.log_level
        ≡ or_default Bool false level_of
            (read_level Bool false level_of (first (values_of (codes "loglevel") args)))
            false)
from_args-first_example = from_args-first Bool false level_of args
