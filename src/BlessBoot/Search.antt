-- ===== src/BlessBoot/Search.antt =====
-- Which entry is found: by the command line that the loader wrote, and in the directory.
use mathlib.Core.Path.{subst}
use tinyboot.Prelude.{
  true, List, [], ◌∷◌, ◌++◌, Option, none, some, ◌≡◌, inl, inr, refl, arith, All, All-append,
  Option-cases, Bool-cases, ◌∙◌, ap, sym,
}
use tinyboot.Result.{ok, Result-cases}
use tinyboot.Text.{Text, codes, equal, strip_prefix, is_whitespace, Lacks}
use tinyboot.Text.Cut.{strip_prefix-append, equal_iff, equal_refl}
use tinyboot.Text.Words.{IsWord, split_whitespace-trim, split_whitespace-join, IsWord-append}
use tinyboot.FilePath.{FilePath, file_name}
use tinyboot.Fs.{Fs, is_file, read_dir}
use tinyboot.Bls.{BlsEntryMetadata, parse_entry_filename}
use tinyboot.BootLoader.Entry.{BlsEntry, cmdline_of}
use tinyboot.BlessBoot.{
  find_stripped, booted_entry, bls_entry_prefix, Found, matching, search_entries, find_entry,
  entries_dir,
}

-- No earlier option is spelled like the one that the loader adds.
abbrev pub Foreign : Text → Type 0
Foreign w = strip_prefix bls_entry_prefix w ≡ none

find_stripped-append :
    (ws : List Text) (r : Text)
    → All Foreign ws
    → find_stripped bls_entry_prefix (ws ++ (bls_entry_prefix ++ r) ∷ []) ≡ some r
unfolding find_stripped
find_stripped-append [] r h = rw (strip_prefix-append bls_entry_prefix r, find_stripped)
find_stripped-append (w ∷ ws) r h = rw (h.0, find_stripped) (find_stripped-append ws r h.1)

prefix_Lacks : Lacks is_whitespace bls_entry_prefix
unfolding is_whitespace
prefix_Lacks = ground arith

-- tboot-bless-boot reads the name of the entry that the loader selected out of the command line
-- that the loader built, if the options and the name are words and no option is spelled
-- `tboot.bls-entry=`.
pub booted_entry-cmdline_of :
    (e : BlsEntry)
    → All (IsWord is_whitespace) e.options
    → All Foreign e.options
    → Lacks is_whitespace e.name
    → booted_entry (cmdline_of e) ≡ some e.name
unfolding booted_entry cmdline_of
booted_entry-cmdline_of e words foreign name =
    ap (find_stripped bls_entry_prefix) (
      split_whitespace-trim _
      ∙ split_whitespace-join _ (
          All-append (IsWord is_whitespace) e.options ((bls_entry_prefix ++ e.name) ∷ []) words (
            IsWord-append is_whitespace b't' (codes "boot.bls-entry=") e.name (prefix_Lacks) name,
            tt,
          )))
    ∙ find_stripped-append e.options e.name foreign

-- A directory entry that is a file whose name is accepted and names the entry.
pub record Names (fs : Fs) (name : Text) (path : FilePath) (c : BlsEntryMetadata) : Type 0 where
  pub filename : Text
  pub is_a_file : is_file path fs ≡ true
  pub has_name : file_name path ≡ some filename
  pub accepted : parse_entry_filename filename ≡ ok c
  pub named : c.0 ≡ name

matching-Names :
    (fs : Fs) (name : Text) (path q : FilePath) (c : BlsEntryMetadata)
    → matching fs name path ≡ some (q, c)
    → (q ≡ path) × Names fs name path c
unfolding matching
matching-Names fs name path q c h = elim (Bool-cases (is_file path fs)) [
  | inr other_kind ↦ cc (rw (other_kind, matching) at h)
  | inl yes_file ↦ elim (Option-cases (file_name path)) [
    | inl no_name ↦ cc (rw (yes_file, no_name, matching) at h)
    | inr (f, named) ↦ elim (Result-cases (parse_entry_filename f)) [
      | inr (bad, refused) ↦ cc (rw (yes_file, named, refused, matching) at h)
      | inl (m, accepted) ↦ elim (Bool-cases (equal m.0 name)) [
        | inr other ↦ cc (rw (yes_file, named, accepted, other, matching) at h)
        | inl hit ↦
            let h' : ◌≡◌ {A = Option Found} (some (path, m)) (some (q, c)) =
              rw (yes_file, named, accepted, hit, matching) at h in
            let same_path : q ≡ path = ground arith in
            let same_meta : m ≡ c = ground arith in
            (
              same_path,
              record {
                filename = f;
                is_a_file = yes_file;
                has_name = named;
                accepted = accepted ∙ ap ok same_meta;
                named =
                    ap (λ (x : BlsEntryMetadata). x.0) (sym same_meta) ∙ (equal_iff m.0 name).0 hit;
              },
            )
      ]
    ]
  ]
]

Names-matching :
    (fs : Fs) (name : Text) (path : FilePath) (c : BlsEntryMetadata)
    → Names fs name path c
    → matching fs name path ≡ some (path, c)
unfolding matching
Names-matching fs name path c n =
    rw (n.is_a_file, n.has_name, matching) (rw n.accepted (rw n.named (rw (equal_refl name))))

-- The first path in the listing that names the entry.
pub record IsFirst (fs : Fs) (name : Text) (paths : List FilePath) (p : FilePath)
    (c : BlsEntryMetadata) : Type 0 where
  pub before : List FilePath
  pub after : List FilePath
  pub listed : paths ≡ before ++ p ∷ after
  pub names : Names fs name p c
  pub none_before : All (λ q. (d : BlsEntryMetadata) → ¬ Names fs name q d) before

matching-none :
    (fs : Fs) (name : Text) (path : FilePath)
    → matching fs name path ≡ none
    → (d : BlsEntryMetadata) → ¬ Names fs name path d
matching-none fs name path h d n = cc (h, Names-matching fs name path d n)

search_entries-IsFirst :
    (fs : Fs) (name : Text) (paths : List FilePath) (p : FilePath) (c : BlsEntryMetadata)
    → search_entries fs name paths ≡ some (p, c)
    → IsFirst fs name paths p c
unfolding search_entries
search_entries-IsFirst fs name [] p c h = cc
search_entries-IsFirst fs name (q ∷ qs) p c h = elim (Option-cases (matching fs name q)) [
  | inl miss ↦
      let rest = search_entries-IsFirst fs name qs p c (rw (miss, search_entries) at h) in
      record {
        before = q ∷ rest.before;
        after = rest.after;
        listed = ap (λ (ps : List FilePath). q ∷ ps) rest.listed;
        names = rest.names;
        none_before = (matching-none fs name q miss, rest.none_before);
      }
  | inr ((x, d), hit) ↦
      let h' : ◌≡◌ {A = Option Found} (some (x, d)) (some (p, c)) = rw (hit, search_entries) at h in
      let here : matching fs name q ≡ some (p, c) = hit ∙ h' in
      let (same, names) = matching-Names fs name q p c here in
      record {
        before = [];
        after = qs;
        listed = ap (λ (x : FilePath). x ∷ qs) (sym same);
        names = subst (λ (x : FilePath). Names fs name x c) (sym same) names;
        none_before = tt;
      }
]

search_entries-none :
    (fs : Fs) (name : Text) (paths : List FilePath)
    → search_entries fs name paths ≡ none
    → All (λ q. (d : BlsEntryMetadata) → ¬ Names fs name q d) paths
unfolding search_entries
search_entries-none fs name [] h = tt
search_entries-none fs name (q ∷ qs) h = elim (Option-cases (matching fs name q)) [
  | inl miss ↦ (
    matching-none fs name q miss,
    search_entries-none fs name qs (rw (miss, search_entries) at h),
  )
  | inr (x, hit) ↦ cc (rw (hit, search_entries) at h)
]

-- What a search of the entries can say of a directory that was read.
abbrev pub Searched : Fs → Text → List FilePath → Option Found → Type 0
Searched fs name paths none = All (λ q. (d : BlsEntryMetadata) → ¬ Names fs name q d) paths
Searched fs name paths (some (p, c)) = IsFirst fs name paths p c

search_entries-Searched :
    (fs : Fs) (name : Text) (paths : List FilePath) (r : Option Found)
    → search_entries fs name paths ≡ r
    → Searched fs name paths r
search_entries-Searched fs name paths none h = search_entries-none fs name paths h
search_entries-Searched fs name paths (some (p, c)) h = search_entries-IsFirst fs name paths p c h

-- In a directory that can be read the first file whose name is accepted and names the entry is
-- found, with its counters; nothing is found exactly when there is no such file.
pub find_entry-Searched :
    (esp : FilePath) (name : Text) (fs : Fs) (paths : List FilePath)
    → read_dir (entries_dir esp) fs ≡ ok paths
    → Searched fs name paths (find_entry esp name fs)
unfolding find_entry
find_entry-Searched esp name fs paths h =
    rw (h, find_entry) (search_entries-Searched fs name paths (search_entries fs name paths) refl)
