-- ===== src/Generator/Tests.antt =====
-- The generator in a system that was booted by an entry, and in another.
use tinyboot.Prelude.{List, [], ◌∷◌, ◌++◌, none, some, ◌≡◌, refl}
use tinyboot.Result.{ok}
use tinyboot.Text.{Text, codes, equal, contains, starts_with, strip_prefix, split}
use tinyboot.FilePath.{append, from_text, equal_path, equal_parts}
use tinyboot.Fs.{file, dir, lookup, insert, create_dir_all, create_dirs}
use tinyboot.BootLoader.Entry.{BlsEntry, default, cmdline_of}
use tinyboot.Generator.{UnitTree, wants_dir, unit_path, service, generate_in, main}
use tinyboot.Generator.Linked.{main-cmdline_of}

abbrev dirs : List Text
dirs = codes "generator" ∷ codes "/run/normal" ∷ codes "/run/early" ∷ codes "/run/late" ∷ []

abbrev booted : BlsEntry
booted = record default { name = codes "nixos"; options = codes "quiet" ∷ [] }

abbrev run : UnitTree
unfolding from_text
run = (from_text (codes "/run"), dir) ∷ []

abbrev with_wants : UnitTree
unfolding from_text
with_wants =
    (from_text (codes "/run"), dir)
    ∷ (from_text (codes "/run/normal"), dir)
    ∷ (from_text (codes "/run/normal/basic.target.wants"), dir)
    ∷ []

other_system : main dirs none (ok (codes "quiet")) run ≡ (ok tt, run)
unfolding main generate_in contains starts_with strip_prefix
other_system = refl

made : create_dir_all (wants_dir (codes "/run/normal")) run ≡ (ok tt, with_wants)
unfolding create_dir_all create_dirs wants_dir lookup insert append from_text split equal_path
    equal_parts equal
made = refl

there : lookup (wants_dir (codes "/run/normal")) with_wants ≡ some dir
unfolding wants_dir lookup append from_text split equal_path equal_parts equal
there = refl

free : lookup (unit_path (codes "/run/normal")) with_wants ≡ none
unfolding wants_dir unit_path lookup append from_text split equal_path equal_parts equal
free = refl

main-cmdline_of_example :
    main dirs none (ok (cmdline_of booted ++ codes "\n")) run
    ≡ (ok tt, insert (unit_path (codes "/run/normal")) (file service) with_wants)
main-cmdline_of_example =
    main-cmdline_of (codes "generator") (codes "/run/normal") (codes "/run/early")
      (codes "/run/late") none booted (codes "\n") run with_wants refl made there free
