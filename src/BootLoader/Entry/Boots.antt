-- ===== src/BootLoader/Entry/Boots.antt =====
-- Boots in a row of one entry: what the boot count leaves in the directory, and how often an entry
-- can be booted.
use tinyboot.Prelude.{
  Option-cases, inl, inr, ◌⊎◌, ℕ, zero, suc, ◌-◌, ◌≤◌, ◌<◌, Option, none, some, if◌then◌else◌, ◌≡◌,
  ◌≢◌, arith, some-injective, ◌∙◌, sym, ap,
}
use tinyboot.Result.{ok-injective, Result, ok}
use tinyboot.Text.{Text}
use tinyboot.FilePath.{FilePath, append, named, parent, equal_path}
use tinyboot.FilePath.Laws.{
  parent-append, named-injective, equal_path_iff, file_name-append, IsFileName,
}
use tinyboot.Fs.{rename, Node, Fs, file, dir, lookup, read_to_string}
use tinyboot.Fs.Laws.{rename-ok, lookup-rename}
use tinyboot.Bls.{BlsEntryError, BlsEntryMetadata, parse_entry_filename}
use tinyboot.BootLoader.{LinuxBootParts}
use tinyboot.BootLoader.Entry.{
  BlsEntry, next_filename, boot_count, select, try_into, parse_entry_conf,
}
use tinyboot.BootLoader.Entry.Count.{one_more, parse-next_filename}
use tinyboot.BootLoader.Entry.Fields.{parse_entry_conf_iff}

-- The path that the entry has after its next boot.
abbrev pub next_path : FilePath → BlsEntry → ℕ → FilePath
next_path d e left = append d (named (next_filename e.name left e.tries_done))

-- The boot count moves the file of a counted entry to its next file name, in the same directory,
-- with what it holds, and changes nothing else, if the file is there and no directory is in the way.
pub lookup-boot_count :
    (d : FilePath) (e : BlsEntry) (left : ℕ) (s : Text) (fs : Fs)
    → parent e.entry_path ≡ some d
    → e.tries_left ≡ some left
    → lookup e.entry_path fs ≡ some (file s)
    → lookup (next_path d e left) fs ≢ some dir
    → (q : FilePath)
    → lookup q (boot_count e fs) ≡ (
        if equal_path (next_path d e left) q
        then some (file s)
        else if equal_path e.entry_path q
        then none
        else lookup q fs)
unfolding boot_count
lookup-boot_count d e left s fs up counted there free q =
    rw (counted, up, boot_count) (lookup-rename e.entry_path (next_path d e left) s fs there free q)

-- The loader reads an entry file, accepts the entry and selects it, and the rename of a counted
-- entry succeeds. What the next boot may read is a file with the same contents, under the same name
-- or under a name that was not there.
pub record Boot (m d : FilePath) (f : Text) (fs : Fs) (f' : Text) (fs' : Fs) : Type 0 where
  pub entry : BlsEntry
  pub contents : Text
  pub parts : LinuxBootParts
  pub file_named : IsFileName f
  pub read : read_to_string (append d (named f)) fs ≡ ok contents
  pub parsed : parse_entry_conf m (append d (named f)) contents ≡ ok entry
  pub accepted : try_into entry ≡ ok entry
  pub selected : select entry fs ≡ some (parts, fs')
  pub renamed :
      (left : ℕ)
      → entry.tries_left ≡ some left
      → (rename entry.entry_path (next_path d entry left) fs).0 ≡ ok tt
  pub holds : lookup (append d (named f')) fs' ≡ some (file contents)
  pub same_or_new : (f' ≡ f) ⊎ (lookup (append d (named f')) fs ≡ none)

pub data Boots (m d : FilePath) (f : Text) (fs : Fs) : ℕ → Text → Fs → Type 0 where
  start : Boots m d f fs zero f fs
  again :
      {k : ℕ} {g h : Text} {gs hs : Fs}
      → Boots m d f fs k g gs
      → Boot m d g gs h hs
      → Boots m d f fs (suc k) h hs

-- An entry with no tries left is not accepted.
accepted_has_tries : (e : BlsEntry) → try_into e ≡ ok e → e.tries_left ≢ some 0
unfolding try_into
accepted_has_tries e h z = ground arith

-- The entry that a boot reads says what the file name says.
Boot-entry :
    {m d : FilePath} {f f' : Text} {fs fs' : Fs} (c : BlsEntryMetadata)
    → parse_entry_filename f ≡ ok c
    → (b : Boot m d f fs f' fs')
    → (b.entry.name ≡ c.0)
      × (b.entry.tries_left ≡ c.1)
      × (b.entry.tries_done ≡ c.2)
      × (b.entry.entry_path ≡ append d (named f))
Boot-entry {m} {d} {f} c h b =
    let (g, c', g_named, g_accepted, is_entry) =
      (parse_entry_conf_iff m (append d (named f)) b.contents b.entry).0 b.parsed in
    let same : some g ≡ some f = sym g_named ∙ file_name-append d f b.file_named in
    let same' : g ≡ f = some-injective same in
    let agree : c' ≡ c = ok-injective (sym g_accepted ∙ ap parse_entry_filename same' ∙ h) in
    (
      is_entry.name ∙ ap (λ (x : BlsEntryMetadata). x.0) agree,
      is_entry.tries_left ∙ ap (λ (x : BlsEntryMetadata). x.1) agree,
      is_entry.tries_done ∙ ap (λ (x : BlsEntryMetadata). x.2) agree,
      is_entry.entry_path,
    )

selected-fs :
    (e : BlsEntry) (fs : Fs) {parts : LinuxBootParts} {fs' : Fs}
    → select e fs ≡ some (parts, fs')
    → boot_count e fs ≡ fs'
unfolding select
selected-fs e fs h = elim (Option-cases e.linux) [
  | inl none_there ↦ cc (rw (none_there, select) at h)
  | inr (linux, there) ↦
      ap (λ (x : LinuxBootParts × Fs). x.1) (some-injective (rw (there, select) at h))
]

-- Of the files that may be read next only the renamed one is there.
only_next :
    (p next q : FilePath) (s : Text) (fs fs' : Fs) {n : Node Text}
    → ((r : FilePath)
        → lookup r fs' ≡ (
            if equal_path next r
            then some (file s)
            else if equal_path p r
            then none
            else lookup r fs))
    → lookup q fs' ≡ some n
    → ((q ≡ p) ⊎ (lookup q fs ≡ none))
    → next ≡ q
only_next p next q s fs fs' law there (inl same) =
    (equal_path_iff next q).0 (ground (arith, law q, (equal_path_iff p q).1 (sym same)))
only_next p next q s fs fs' law there (inr new) =
    (equal_path_iff next q).0 (ground (arith, law q, new))

-- What a boot of a counted entry asks for, and the file name that it leaves.
pub Boot-counts :
    {m d : FilePath} {f f' : Text} {fs fs' : Fs} (name : Text) (left : ℕ) (tries : Option ℕ)
    → parse_entry_filename f ≡ ok (name, some left, tries)
    → Boot m d f fs f' fs'
    → (0 < left) × (f' ≡ next_filename name left tries)
Boot-counts {m} {d} {f} {f'} {fs} {fs'} name left tries h b =
    let (same_name, same_left, same_done, same_path) = Boot-entry (name, some left, tries) h b in
    let e : BlsEntry = b.entry in
    let (s, there, free) =
      rename-ok e.entry_path (next_path d e left) fs (b.renamed left same_left) in
    let up : parent e.entry_path ≡ some d = ap parent same_path ∙ parent-append d f in
    let law : (q : FilePath)
        → lookup q fs' ≡ (
            if equal_path (next_path d e left) q
            then some (file s)
            else if equal_path e.entry_path q
            then none
            else lookup q fs) =
      λ q.
        ap (lookup q) (sym (selected-fs e fs b.selected))
        ∙ lookup-boot_count d e left s fs up same_left there free q in
    let at_next : next_path d e left ≡ append d (named f') =
      only_next e.entry_path (next_path d e left) (append d (named f')) s fs fs' law b.holds
        (elim b.same_or_new [
          | inl same ↦ inl (ap (λ x. append d (named x)) same ∙ sym same_path)
          | inr new ↦ inr new
        ]) in
    (
      ground (arith, accepted_has_tries b.entry b.accepted, same_left),
      sym (named-injective d (next_filename e.name left e.tries_done) f' at_next)
          ∙ rw (same_name, same_done),
    )

-- The counter of tries done after so many boots.
abbrev pub counted_up : ℕ → Option ℕ → Option ℕ
counted_up zero tries = tries
counted_up (suc k) tries = one_more (counted_up k tries)

left_over :
    (name : Text) (tries : Option ℕ) (a b : ℕ)
    → a ≡ b
    → ◌≡◌ {A = Result BlsEntryMetadata BlsEntryError}
        (ok (name, some a, tries))
        (ok (name, some b, tries))
left_over name tries a b e = rw e

-- After k boots in a row, whose renames all succeed, of an entry whose file name leaves `left` tries,
-- k is at most `left`, and the file that may be read next, one with the same contents under the old
-- name or a new one, leaves `left - k` tries and counts k more tries done, if it counts those. So an
-- entry that is never marked good is booted at most as often as its file name says, as long as its
-- file can be renamed: a rename that fails is only logged.
pub Boots-bounded :
    {m d : FilePath} {f f' : Text} {fs fs' : Fs} (k : ℕ) (name : Text) (left : ℕ) (tries : Option ℕ)
    → parse_entry_filename f ≡ ok (name, some left, tries)
    → Boots m d f fs k f' fs'
    → (k ≤ left) × (parse_entry_filename f' ≡ ok (name, some (left - k), counted_up k tries))
Boots-bounded zero name left tries h start =
    (omega arith, h ∙ left_over name tries left (left - 0) (omega arith))
Boots-bounded (suc k) name left tries h (again {g} bs b) =
    let (few, read) = Boots-bounded k name left tries h bs in
    let (more, next) = Boot-counts name (left - k) (counted_up k tries) read b in
    (
      omega arith,
      ap parse_entry_filename next
          ∙ parse-next_filename g name (left - k) (counted_up k tries) read
          ∙ left_over name (counted_up (suc k) tries) (left - k - 1) (left - suc k) (omega arith),
    )
