-- ===== src/Generator.antt =====
-- tboot-bless-boot-generator/src/main.rs: the unit that runs tboot-bless-boot is linked in where the
-- system was booted by an entry.
mod Linked
mod Tests
use tinyboot.Prelude.{Bool, true, false, not, List, [], ◌∷◌, Option, none, some, if◌then◌else◌}
use tinyboot.Result.{Result, ok, err}
use tinyboot.Text.{Text, codes, equal, contains}
use tinyboot.FilePath.{FilePath, append, from_text, named, parent}
use tinyboot.Fs.{IoError, Tree, create_dir_all, create_new}

pub data Error : Type 0 where
  invalid_args invalid_generator_path : Error
  io : IoError → Error

-- The files of a directory of units are symbolic links.
abbrev pub UnitTree : Type 0
UnitTree = Tree FilePath

-- The first three arguments of the process, the first of which is the name of the program.
abbrev pub generator_dirs : List Text → Result (Text × Text × Text) Error
generator_dirs [] = err invalid_args
generator_dirs (normal_dir ∷ []) = err invalid_args
generator_dirs (normal_dir ∷ early_dir ∷ []) = err invalid_args
generator_dirs (normal_dir ∷ early_dir ∷ late_dir ∷ args) = ok (normal_dir, early_dir, late_dir)

abbrev pub in_initrd : Option Text → Bool
in_initrd none = false
in_initrd (some systemd_in_initrd) = equal systemd_in_initrd (codes "1")

unfoldable pub wants_dir : Text → FilePath
wants_dir early_dir = append (from_text early_dir) (named (codes "basic.target.wants"))

unfoldable pub unit_path : Text → FilePath
unit_path early_dir = append (wants_dir early_dir) (named (codes "tboot-bless-boot.service"))

abbrev pub service : FilePath
service = record {
  absolute = true;
  parts = codes "etc" ∷ codes "systemd" ∷ codes "system" ∷ codes "tboot-bless-boot.service" ∷ [];
}

abbrev pub io_error : Result (Unit {0}) IoError × UnitTree → Result (Unit {0}) Error × UnitTree
io_error (err e, t) = (err (io e), t)
io_error (ok done, t) = (ok tt, t)

abbrev pub link_unit :
    FilePath → Result (Unit {0}) IoError × UnitTree → Result (Unit {0}) Error × UnitTree
link_unit unit (err e, t) = (err (io e), t)
link_unit unit (ok done, t) = io_error (create_new unit service t)

unfoldable pub create_unit : FilePath → UnitTree → Result (Unit {0}) Error × UnitTree
create_unit unit t = elim (parent unit) [
  | none ↦ (err invalid_generator_path, t)
  | some dir_path ↦ link_unit unit (create_dir_all dir_path t)
]

unfoldable pub generate_in :
    Text → Result Text IoError → UnitTree → Result (Unit {0}) Error × UnitTree
generate_in early_dir (err e) t = (err (io e), t)
generate_in early_dir (ok cmdline) t =
    if not (contains (codes "tboot.bls-entry") cmdline)
    then (ok tt, t)
    else create_unit (unit_path early_dir) t

-- The arguments of the process, SYSTEMD_IN_INITRD, and what is read from /proc/cmdline.
unfoldable pub main :
    List Text → Option Text → Result Text IoError → UnitTree → Result (Unit {0}) Error × UnitTree
main args systemd_in_initrd cmdline t = elim (generator_dirs args) [
  | err e ↦ (err e, t)
  | ok (normal_dir, early_dir, late_dir) ↦
      if in_initrd systemd_in_initrd then (ok tt, t) else generate_in early_dir cmdline t
]
