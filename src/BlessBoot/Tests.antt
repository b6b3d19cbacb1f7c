-- ===== src/BlessBoot/Tests.antt =====
-- Runs of tboot-bless-boot on a small directory.
use tinyboot.Prelude.{true, [], ◌∷◌, none, some, ◌≡◌, refl, All}
use tinyboot.Result.{ok}
use tinyboot.Text.{
  codes, equal, is_whitespace, split_whitespace, trim, strip_prefix, strip_suffix, split_once,
  Lacks,
}
use tinyboot.Text.Words.{IsWord, literal, is_word}
use tinyboot.Text.Decimal.{from_str_radix}
use tinyboot.FilePath.{FilePath, append, named, parent, file_name}
use tinyboot.Fs.{Fs, file, dir, read_dir, lookup, is_file, rename, insert, without}
use tinyboot.Bls.{parse_entry_filename}
use tinyboot.BootLoader.Entry.{BlsEntry, default, cmdline_of}
use tinyboot.BlessBoot.{
  find_stripped, search_entries, matching, good, booted_entry, find_entry, entries_dir,
  good_filename, bad_filename, mark_as_good, mark_as_bad, perform, main,
}
use tinyboot.BlessBoot.Search.{booted_entry-cmdline_of, find_entry-Searched, Searched, Foreign}
use tinyboot.BlessBoot.Marks.{parse-marked, mark_as_good-Renaming, mark_as_bad-Renaming, Renaming}

abbrev esp : FilePath
esp = record { absolute = true; parts = codes "boot" ∷ [] }

abbrev entry_file : FilePath
entry_file = append (entries_dir esp) (named (codes "nixos+2-1.conf"))

abbrev tree : Fs
tree = (entries_dir esp, dir) ∷ (entry_file, file (codes "title NixOS")) ∷ []

abbrev booted : BlsEntry
booted = record default {
  name = codes "nixos";
  options = codes "quiet" ∷ codes "root=/dev/sda" ∷ [];
}

nixos_name : parse_entry_filename (codes "nixos+2-1.conf") ≡ ok (codes "nixos", some 2, some 1)
unfolding parse_entry_filename strip_suffix split_once from_str_radix
nixos_name = refl

listing : read_dir (entries_dir esp) tree ≡ ok (entry_file ∷ [])
unfolding read_dir lookup append
listing = refl

entry_parent : parent entry_file ≡ some (entries_dir esp)
unfolding parent append
entry_parent = refl

-- A run that marks the entry good.
marked_good : main esp good (ok (codes "quiet tboot.bls-entry=nixos\n")) tree ≡ (
  ok [],
  (entries_dir esp, dir)
      ∷ (append (entries_dir esp) (named (codes "nixos.conf")), file (codes "title NixOS"))
      ∷ [],
)
unfolding main booted_entry find_entry perform mark_as_good rename find_stripped split_whitespace
    trim strip_prefix read_dir append search_entries matching is_file file_name parse_entry_filename
    strip_suffix split_once equal from_str_radix insert without
marked_good = refl

words_of_booted : All (IsWord is_whitespace) booted.options
unfolding is_word is_whitespace
words_of_booted = (literal (codes "quiet") refl, (literal (codes "root=/dev/sda") refl, tt))

booted-Foreign : All Foreign booted.options
unfolding strip_prefix
booted-Foreign = (refl, (refl, tt))

nixos_Lacks : Lacks is_whitespace (codes "nixos")
unfolding is_whitespace
nixos_Lacks = (refl, (refl, (refl, (refl, (refl, tt)))))

booted_entry-cmdline_of_example : booted_entry (cmdline_of booted) ≡ some (codes "nixos")
booted_entry-cmdline_of_example =
    booted_entry-cmdline_of booted words_of_booted booted-Foreign nixos_Lacks

find_entry-Searched_example :
    Searched tree (codes "nixos") (entry_file ∷ []) (find_entry esp (codes "nixos") tree)
find_entry-Searched_example = find_entry-Searched esp (codes "nixos") tree (entry_file ∷ []) listing

parse-marked_example :
    (parse_entry_filename (codes "nixos.conf") ≡ ok (codes "nixos", none, none))
    × (parse_entry_filename (bad_filename (codes "nixos") (some 1))
        ≡ ok (codes "nixos", some 0, some 1))
parse-marked_example =
    parse-marked (codes "nixos+2-1.conf") (codes "nixos") (some 2) (some 1) nixos_name

mark_as_good-Renaming_example :
    Renaming entry_file
      (append (entries_dir esp) (named (good_filename (codes "nixos"))))
      tree
      (mark_as_good (entry_file, (codes "nixos", some 2, some 1)) tree)
    × (mark_as_good (entry_file, (codes "nixos", none, some 1)) tree ≡ (ok [], tree))
mark_as_good-Renaming_example =
    mark_as_good-Renaming entry_file (entries_dir esp) (codes "nixos") 2 (some 1) tree entry_parent

mark_as_bad-Renaming_example :
    Renaming entry_file
      (append (entries_dir esp) (named (bad_filename (codes "nixos") (some 1))))
      tree
      (mark_as_bad (entry_file, (codes "nixos", some 2, some 1)) tree)
mark_as_bad-Renaming_example =
    mark_as_bad-Renaming entry_file (entries_dir esp) (codes "nixos") (some 2) (some 1) tree
      entry_parent
