-- ===== src/NixosInstall/Keeps.antt =====
-- What the installer leaves as it is among the entries that are there.
use mathlib.Core.Path.{subst}
use tinyboot.Prelude.{
  Bool, true, false, List, [], ◌∷◌, Option, none, some, if◌then◌else◌, ◌>>=◌, ◌≡◌, refl, arith, ap,
  ◌∙◌, Bool-cases, Option-cases, ◌⊎◌, inl, inr, some-injective,
}
use tinyboot.Result.{Result, ok, err}
use tinyboot.Text.{Text, codes, contains}
use tinyboot.FilePath.{FilePath, append, named, file_name, equal_path}
use tinyboot.FilePath.Laws.{equal_path_iff}
use tinyboot.Fs.{
  IoError, Fs, Node, file, dir, lookup, insert, write, is_file, create_dirs, create_dir_all,
  create_new,
}
use tinyboot.Fs.Laws.{lookup-insert}
use tinyboot.NixosInstall.{unwrap, write_over, match_entry, match_entries, is_known}

-- The files that are there are still there.
abbrev pub KeepsFiles : Fs → Fs → Type 0
KeepsFiles fs fs' = (q : FilePath) → is_file q fs ≡ true → is_file q fs' ≡ true

pub lookup-write :
    (p : FilePath) (s : Text) (fs : Fs) {fs' : Fs}
    → unwrap (write p s fs) ≡ some fs'
    → (q : FilePath) → lookup q fs' ≡ (if equal_path p q then some (file s) else lookup q fs)
unfolding write create_new
lookup-write p s fs h q = ground (arith, lookup-insert p q (file s) fs)

pub write-KeepsFiles :
    (p : FilePath) (s : Text) (fs : Fs) {fs' : Fs}
    → unwrap (write p s fs) ≡ some fs'
    → KeepsFiles fs fs'
unfolding is_file
write-KeepsFiles p s fs h q there = ground (arith, lookup-write p s fs h q)

insert-dir-KeepsFiles :
    (p : FilePath) (fs : Fs) → lookup p fs ≡ none → KeepsFiles fs (insert p dir fs)
unfolding is_file
insert-dir-KeepsFiles p fs h q there = ground (arith, lookup-insert p q dir fs, equal_path_iff p q)

pub Node-cases : (n : Node Text) → (n ≡ dir) ⊎ ((s : Text) × (n ≡ file s))
Node-cases dir = inl refl
Node-cases (file s) = inr (s, refl)

-- Directories that are made replace nothing.
create_dirs-KeepsFiles :
    (p : FilePath) (ns : List Text) (fs : Fs) → KeepsFiles fs (create_dirs p ns fs).1
unfolding create_dirs
create_dirs-KeepsFiles p [] fs q there = there
create_dirs-KeepsFiles p (n ∷ ns) fs q there =
    let r : FilePath = append p (named n) in
    elim (Option-cases (lookup r fs)) [
      | inl nothing ↦
          rw (nothing, create_dirs)
            (create_dirs-KeepsFiles r ns (insert r dir fs) q
              (insert-dir-KeepsFiles r fs nothing q there))
      | inr (m, found) ↦ elim (Node-cases m) [
        | inl is_dir ↦
            rw (found ∙ ap some is_dir, create_dirs) (create_dirs-KeepsFiles r ns fs q there)
        | inr (s, is_text) ↦ rw (found ∙ ap some is_text, create_dirs) there
      ]
    ]

pub unwrap-some : (r : Result (Unit {0}) IoError × Fs) {fs' : Fs} → unwrap r ≡ some fs' → r.1 ≡ fs'
unwrap-some (ok u, fs) h = some-injective h
unwrap-some (err e, fs) h = cc

pub create_dir_all-KeepsFiles :
    (p : FilePath) (fs : Fs) {fs' : Fs}
    → unwrap (create_dir_all p fs) ≡ some fs'
    → KeepsFiles fs fs'
unfolding create_dir_all
create_dir_all-KeepsFiles p fs h =
    subst (KeepsFiles fs) (unwrap-some _ h)
      (create_dirs-KeepsFiles (record { absolute = p.absolute; parts = [] }) p.parts fs)

pub write_over-KeepsFiles :
    (p : FilePath) (s : Text) (fs : Fs) {fs' : Fs}
    → write_over p s fs ≡ some fs'
    → KeepsFiles fs fs'
unfolding write_over
write_over-KeepsFiles p s fs h = write-KeepsFiles p _ fs h

-- The inversion of a chain that succeeds.
pub >>=-some {ℓ κ} :
    {A : Type ℓ} {B : Type κ} (o : Option A) (f : A → Option B) {b : B}
    → (o >>= f) ≡ some b
    → (a : A) × (o ≡ some a) × (f a ≡ some b)
>>=-some none f h = cc
>>=-some (some a) f h = (a, refl, h)

match_entry-true :
    (e : FilePath) (known : List FilePath) {r : Bool × List FilePath}
    → match_entry e (true, known) ≡ some r
    → r.0 ≡ true
unfolding match_entry
match_entry-true e known h = ground arith

match_entry-found :
    (e : FilePath) (name : Text) (known : List FilePath) (b : Bool) {r : Bool × List FilePath}
    → file_name e ≡ some name
    → contains (codes "specialisation") name ≡ false
    → match_entry e (b, known) ≡ some r
    → r.0 ≡ true
unfolding match_entry
match_entry-found e name known b f c h = ground arith

match_entries-true :
    (es known : List FilePath) (b : Bool) {r : Bool × List FilePath}
    → b ≡ true
    → match_entries es (b, known) ≡ some r
    → r.0 ≡ true
unfolding match_entries
match_entries-true [] known b on h = ground arith
match_entries-true (e ∷ es) known b {r} on h =
    let ((b', known'), first, rest) = >>=-some (match_entry e (b, known)) (match_entries es) h in
    match_entries-true es known' b'
      (match_entry-true e known
        (subst (λ x. match_entry e (x, known) ≡ some (b', known')) on first))
      rest

-- A path that matches, and is of no specialisation, is a match.
pub match_entries-found :
    (q : FilePath) (name : Text) (es known : List FilePath) (b : Bool) {r : Bool × List FilePath}
    → file_name q ≡ some name
    → contains (codes "specialisation") name ≡ false
    → is_known q es ≡ true
    → match_entries es (b, known) ≡ some r
    → r.0 ≡ true
unfolding match_entries
match_entries-found q name [] known b f c k h = cc
match_entries-found q name (e ∷ es) known b {r} f c k h =
    let ((b', known'), first, rest) = >>=-some (match_entry e (b, known)) (match_entries es) h in
    elim (Bool-cases (equal_path e q)) [
      | inl same ↦
          match_entries-true es known' b'
            (match_entry-found e name known b (ap file_name ((equal_path_iff e q).0 same) ∙ f) c
              first)
            rest
      | inr other ↦ match_entries-found q name es known' b' f c (rw other at k) rest
    ]
