-- ===== src/NixosInstall/Clean.antt =====
-- What the loops at the end of the installer remove.
use tinyboot.Prelude.{
  ℕ, Bool, true, false, not, ◌&&◌, List, [], ◌∷◌, Option, none, some, if◌then◌else◌, ◌≡◌, refl,
  arith, ap, sym, ◌∙◌, some-injective, Bool-cases, Option-cases, inl, inr,
}
use tinyboot.Result.{ok}
use tinyboot.Text.{Text}
use tinyboot.FilePath.{FilePath, equal_path, parent}
use tinyboot.FilePath.Laws.{equal_path_iff}
use tinyboot.Fs.{Fs, Node, dir, lookup, without, entries_of, read_dir, remove_file, is_file}
use tinyboot.Fs.Laws.{lookup-without}
use tinyboot.NixosInstall.{is_known, clean_paths, clean}

-- Does the path stand directly in the directory?
unfoldable pub is_in : FilePath → FilePath → Bool
is_in d q = elim (parent q) [ none ↦ false | some e ↦ equal_path e d ]

is_file-without :
    (p q : FilePath) (fs : Fs)
    → is_file q (without p fs) ≡ (if equal_path p q then false else is_file q fs)
unfolding is_file
is_file-without p q fs = ground (arith, lookup-without p q fs)

remove_file-file :
    (p : FilePath) (fs : Fs) → is_file p fs ≡ true → remove_file p fs ≡ (ok tt, without p fs)
unfolding is_file remove_file
remove_file-file p fs h = ground arith

-- What is left of a node.
abbrev left : Bool → Option (Node (List ℕ)) → Option (Node (List ℕ))
left gone n = if gone then none else n

clean_paths_lem :
    (known paths : List FilePath) (fs : Fs)
    → (fs' : Fs) × (clean_paths known paths fs ≡ some fs')
      × ((q : FilePath)
          → lookup q fs' ≡ (
              if is_known q paths && not (is_known q known) && is_file q fs
              then none
              else lookup q fs))
unfolding clean_paths
clean_paths_lem known [] fs = (fs, refl, λ q. refl)
clean_paths_lem known (p ∷ ps) fs = elim (Bool-cases (not (is_known p known) && is_file p fs)) [
  | inl gone ↦
      let (fs', e, law) = clean_paths_lem known ps (without p fs) in
      (
        fs',
        rw (gone, remove_file-file p fs (ground arith)) e,
        λ q.
            ground
              (arith, law q, lookup-without p q fs, is_file-without p q fs, equal_path_iff p q),
      )
  | inr stays ↦
      let (fs', e, law) = clean_paths_lem known ps fs in
      (fs', rw stays e, λ q. ground (arith, law q, equal_path_iff p q))
]

pub entries_of-cons :
    (d p : FilePath) (n : Node Text) (fs : Fs)
    → entries_of d ((p, n) ∷ fs) ≡ (if is_in d p then p ∷ entries_of d fs else entries_of d fs)
unfolding entries_of is_in
entries_of-cons d p n fs = elim (Option-cases (parent p)) [
  | inl e ↦ rw (e, entries_of, is_in)
  | inr (up, e) ↦ rw (e, entries_of, is_in)
]

-- Is there anything at the path?
unfoldable pub there : FilePath → Fs → Bool
there q fs = elim (lookup q fs) [ none ↦ false | some n ↦ true ]

there-cons :
    (q p : FilePath) (n : Node Text) (fs : Fs)
    → there q ((p, n) ∷ fs) ≡ (if equal_path p q then true else there q fs)
unfolding there lookup
there-cons q p n fs = ground arith

pub is_known-entries_of :
    (d q : FilePath) (fs : Fs) → is_known q (entries_of d fs) ≡ (is_in d q && there q fs)
is_known-entries_of d q [] =
    unfold entries_of lookup there in elim (Bool-cases (is_in d q)) [ inl e ↦ rw e | inr e ↦ rw e ]
is_known-entries_of d q ((p, n) ∷ fs) =
    rw (entries_of-cons d p n fs, there-cons q p n fs)
      (elim (Bool-cases (equal_path p q)) [
        | inl hit ↦
            let same : is_in d p ≡ is_in d q = ap (is_in d) ((equal_path_iff p q).0 hit) in
            ground (arith, is_known-entries_of d q fs)
        | inr miss ↦ ground (arith, is_known-entries_of d q fs)
      ])

-- Is there a file that is not known?
abbrev pub is_stale : FilePath → List FilePath → Fs → FilePath → Bool
is_stale d known fs q = is_in d q && not (is_known q known) && is_file q fs

-- Of the files that stand directly in a directory just those that are not known are removed, and
-- nothing else changes.
clean_lem :
    (d : FilePath) (known : List FilePath) (fs : Fs)
    → lookup d fs ≡ some dir
    → (fs' : Fs) × (clean d known fs ≡ some fs')
      × ((q : FilePath) → lookup q fs' ≡ (if is_stale d known fs q then none else lookup q fs))
unfolding clean read_dir there is_file
clean_lem d known fs h =
    let (fs', e, law) = clean_paths_lem known (entries_of d fs) fs in
    (
      fs',
      rw (h, clean, read_dir) e,
      λ q.
          law q
          ∙ rw (is_known-entries_of d q fs) (elim (Option-cases (lookup q fs)) [
            | inl nothing ↦ rw (nothing, there, is_file) (ground arith)
            | inr (n, found) ↦ rw (found, there, is_file) (ground arith)
          ]),
    )

clean-dir :
    (d : FilePath) (known : List FilePath) (fs : Fs) {fs' : Fs}
    → clean d known fs ≡ some fs'
    → lookup d fs ≡ some dir
unfolding clean read_dir
clean-dir d known fs h = ground arith

-- Where the loop ends, it has removed the files that stand directly in the directory and are not
-- known, and changed nothing else.
pub lookup-clean :
    (d : FilePath) (known : List FilePath) (fs : Fs) {fs' : Fs}
    → clean d known fs ≡ some fs'
    → (q : FilePath) → lookup q fs' ≡ (if is_stale d known fs q then none else lookup q fs)
lookup-clean d known fs {fs'} h q =
    let (made, e, law) = clean_lem d known fs (clean-dir d known fs h) in
    let same : made ≡ fs' = some-injective (sym e ∙ h) in ap (lookup q) (sym same) ∙ law q
