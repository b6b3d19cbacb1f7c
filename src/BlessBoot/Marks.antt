-- ===== src/BlessBoot/Marks.antt =====
-- What marking an entry leaves: in the directory, for this program and for the boot loader.
use mathlib.Core.Path.{subst}
use tinyboot.Prelude.{
  ℕ, List, [], Option, none, some, if◌then◌else◌, ◌≡◌, refl, arith, inl, inr, ◌∙◌, sym,
}
use tinyboot.Result.{Result, ok, err, Result-cases}
use tinyboot.Text.{Text}
use tinyboot.Text.Decimal.{to_string}
use tinyboot.FilePath.{FilePath, append, named, parent, equal_path}
use tinyboot.Fs.{IoError, Fs, file, lookup, rename}
use tinyboot.Fs.Laws.{lookup-rename, rename-ok, rename-err}
use tinyboot.Bls.{parse_entry_filename}
use tinyboot.Bls.Named.{plain, parse_entry_filename_iff}
use tinyboot.BootLoader.Entry.{counted_filename}
use tinyboot.BootLoader.Entry.Count.{accepted_fits, parse-counted_filename}
use tinyboot.BlessBoot.{Error, io, lift, good_filename, bad_filename, mark_as_good, mark_as_bad}

-- The file name of an entry that was marked good says its name and no counter.
parse-good_filename :
    (f name : Text) (left tries : Option ℕ)
    → parse_entry_filename f ≡ ok (name, left, tries)
    → parse_entry_filename (good_filename name) ≡ ok (name, none, none)
parse-good_filename f name left tries h =
    (parse_entry_filename_iff _ _).1 (name, refl, plain (accepted_fits f name left tries h).0)

bad_filename-counted :
    (name : Text) (tries : Option ℕ) → bad_filename name tries ≡ counted_filename name 0 tries
unfolding bad_filename counted_filename to_string
bad_filename-counted name none = refl
bad_filename-counted name (some n) = refl

-- That of an entry that was marked bad says its name, no try left, and the tries done as before.
parse-bad_filename :
    (f name : Text) (left tries : Option ℕ)
    → parse_entry_filename f ≡ ok (name, left, tries)
    → parse_entry_filename (bad_filename name tries) ≡ ok (name, some 0, tries)
parse-bad_filename f name left tries h =
    let (free, _, fits) = accepted_fits f name left tries h in
    rw bad_filename-counted (parse-counted_filename name 0 tries free (omega arith) fits)

-- The file names of an entry that is marked are read again: the good one says its name and no
-- counter, and the bad one says its name, no try left, and the tries done as before; if the name and
-- the tries done were read from a file name.
pub parse-marked :
    (f name : Text) (left tries : Option ℕ)
    → parse_entry_filename f ≡ ok (name, left, tries)
    → (parse_entry_filename (good_filename name) ≡ ok (name, none, none))
      × (parse_entry_filename (bad_filename name tries) ≡ ok (name, some 0, tries))
parse-marked f name left tries h =
    (parse-good_filename f name left tries h, parse-bad_filename f name left tries h)

-- A file was moved within its directory with what it held, and nothing else changed.
pub record Moved (old new : FilePath) (fs fs' : Fs) : Type 0 where
  pub contents : Text
  pub was_there : lookup old fs ≡ some (file contents)
  pub after :
      (q : FilePath)
      → lookup q fs' ≡ (
          if equal_path new q
          then some (file contents)
          else if equal_path old q
          then none
          else lookup q fs)

rename-Moved :
    (old new : FilePath) (fs : Fs)
    → (rename old new fs).0 ≡ ok tt
    → Moved old new fs (rename old new fs).1
rename-Moved old new fs h =
    let (s, there, free) = rename-ok old new fs h in
    record { contents = s; was_there = there; after = lookup-rename old new s fs there free }

-- The rename was made, or it failed and changed nothing.
pub data Renaming (old new : FilePath) (fs : Fs) (r : Result (List Text) Error × Fs) : Type 0 where
  moved : r.0 ≡ ok [] → Moved old new fs r.1 → Renaming old new fs r
  failed : (e : IoError) → r.0 ≡ err (io e) → r.1 ≡ fs → Renaming old new fs r

lift-fs : (r : Result (Unit {0}) IoError × Fs) → (lift r).1 ≡ r.1
lift-fs (ok u, fs) = refl
lift-fs (err e, fs) = refl

lift-ok : (r : Result (Unit {0}) IoError × Fs) → r.0 ≡ ok tt → (lift r).0 ≡ ok []
lift-ok (ok u, fs) h = refl
lift-ok (err e, fs) h = cc

lift-err :
    (r : Result (Unit {0}) IoError × Fs) (e : IoError) → r.0 ≡ err e → (lift r).0 ≡ err (io e)
lift-err (ok u, fs) e h = cc
lift-err (err d, fs) e h = ground arith

lift-Renaming : (old new : FilePath) (fs : Fs) → Renaming old new fs (lift (rename old new fs))
lift-Renaming old new fs = elim (Result-cases (rename old new fs).0) [
  | inl (tt, h) ↦
      moved (lift-ok (rename old new fs) h)
        (subst (Moved old new fs) (sym (lift-fs (rename old new fs))) (rename-Moved old new fs h))
  | inr (e, h) ↦
      failed e (lift-err (rename old new fs) e h)
        (lift-fs (rename old new fs) ∙ rename-err old new fs h)
]

-- Marking a counted entry good moves its file to the name without counters, or fails and changes
-- nothing; an entry that is not counted is left as it is.
pub mark_as_good-Renaming :
    (path d : FilePath) (name : Text) (left : ℕ) (tries : Option ℕ) (fs : Fs)
    → parent path ≡ some d
    → Renaming path
        (append d (named (good_filename name)))
        fs
        (mark_as_good (path, (name, some left, tries)) fs)
      × (mark_as_good (path, (name, none, tries)) fs ≡ (ok [], fs))
unfolding mark_as_good
mark_as_good-Renaming path d name left tries fs h = (
  rw (h, mark_as_good) (lift-Renaming path (append d (named (good_filename name))) fs),
  rw (h, mark_as_good),
)

-- Marking an entry bad, counted or not, moves its file to the name with no try left, or fails and
-- changes nothing.
pub mark_as_bad-Renaming :
    (path d : FilePath) (name : Text) (left tries : Option ℕ) (fs : Fs)
    → parent path ≡ some d
    → Renaming path
        (append d (named (bad_filename name tries)))
        fs
        (mark_as_bad (path, (name, left, tries)) fs)
unfolding mark_as_bad
mark_as_bad-Renaming path d name left tries fs h =
    rw (h, mark_as_bad) (lift-Renaming path (append d (named (bad_filename name tries))) fs)
