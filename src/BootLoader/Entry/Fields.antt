-- ===== src/BootLoader/Entry/Fields.antt =====
-- What a whole entry file sets, with no loop: of a key that has one value the last line counts, of
-- a key that has a list all lines do, in their order.
use mathlib.Core.List.{foldl, flat_map}
use mathlib.Core.Path.{subst}
use tinyboot.Prelude.{
  ◌↔◌, false, map, List, [], ◌∷◌, ◌++◌, append_assoc, append-nil, Option, none, some, if◌then◌else◌,
  ◌≡◌, refl, arith, Bool-cases, Option-cases, inl, inr, ◌∙◌, ap,
}
use tinyboot.Result.{ok, to_option, Result-cases, ok-injective}
use tinyboot.Text.{
  Text, codes, equal, trim, split_whitespace, split_ascii_whitespace, split_once, is_whitespace,
  lines,
}
use tinyboot.FilePath.{FilePath, file_name}
use tinyboot.Bls.{BlsEntryMetadata, parse_entry_filename}
use tinyboot.BootLoader.Arch.{arch_from_str}
use tinyboot.BootLoader.Entry.{
  BlsEntry, on_mount, extend, set_key, parse_line, parse_lines, parse_entry_conf, pretty,
  identified, with_pretty_name,
}
use tinyboot.BootLoader.Entry.Keys.{
  architecture-set_key, title-set_key, version-set_key, machine_id-set_key, sort_key-set_key,
  efi-set_key, linux-set_key, initrd-set_key, options-set_key, devicetree-set_key,
  devicetree_overlay-set_key, entry_path-set_key, name-set_key, tries_left-set_key,
  tries_done-set_key, is_default-set_key,
}

-- The values of the lines with a key, in the order of the file.
abbrev values : Text → List Text → List Text
values k [] = []
values k (l ∷ ls) =
    let rest = values k ls in
    elim (split_once is_whitespace l) [
      | none ↦ rest
      | some (key, val) ↦ if equal key k then val ∷ rest else rest
    ]

-- The last value, if the key is there.
abbrev final : Text → List Text → Text
final v [] = v
final v (w ∷ vs) = final w vs

abbrev last_value : List Text → Option Text
last_value [] = none
last_value (v ∷ vs) = some (final v vs)

-- All values, if the key is there.
abbrev all_values : (Text → List FilePath) → List Text → Option (List FilePath)
all_values f [] = none
all_values f (v ∷ vs) = some (flat_map f (v ∷ vs))

module _ {A : Type 0} (m : FilePath) (k : Text) (field : BlsEntry → A) (set : A → Text → A)
    (law : (key val : Text) (e : BlsEntry)
      → field (set_key m key val e) ≡ (if equal key k then set (field e) val else field e)) where
  field-parse_lines :
      (ls : List Text) (e : BlsEntry)
      → field (parse_lines m ls e) ≡ foldl set (field e) (values k ls)
  unfolding parse_lines parse_line
  field-parse_lines [] e = refl
  field-parse_lines (l ∷ ls) e = elim (Option-cases (split_once is_whitespace l)) [
    | inl plain ↦ field-parse_lines ls (parse_line m e l) ∙ rw (plain, parse_line, values)
    | inr ((key, val), cut) ↦
        field-parse_lines ls (parse_line m e l)
        ∙ rw (cut, parse_line, values, law key val e)
            (elim (Bool-cases (equal key k)) [ inl hit ↦ rw hit | inr miss ↦ rw miss ])
  ]

-- The value of a key that is overwritten at each line.
abbrev overwritten {ℓ} : {A : Type ℓ} → (Text → A) → A → Option Text → A
overwritten h d none = d
overwritten h d (some v) = h v

foldl-final {ℓ} :
    {A : Type ℓ} (h : Text → A) (v : Text) (vs : List Text)
    → foldl (λ (a : A) (w : Text). h w) (h v) vs ≡ h (final v vs)
foldl-final h v [] = refl
foldl-final h v (w ∷ vs) = foldl-final h w vs

foldl-overwritten {ℓ} :
    {A : Type ℓ} (h : Text → A) (d : A) (vs : List Text)
    → foldl (λ (a : A) (v : Text). h v) d vs ≡ overwritten h d (last_value vs)
foldl-overwritten h d [] = refl
foldl-overwritten h d (v ∷ vs) = foldl-final h v vs

foldl-flat_map :
    {A : Type 0} (f : Text → List A) (acc : List A) (vs : List Text)
    → foldl (λ (a : List A) (v : Text). a ++ f v) acc vs ≡ acc ++ flat_map f vs
unfolding flat_map
foldl-flat_map f acc [] = rw append-nil
foldl-flat_map f acc (v ∷ vs) =
    foldl-flat_map f (acc ++ f v) vs ∙ append_assoc acc (f v) (flat_map f vs)

foldl-extend-some :
    (f : Text → List FilePath) (acc : List FilePath) (vs : List Text)
    → foldl (λ (a : Option (List FilePath)) (v : Text). extend a (f v)) (some acc) vs
      ≡ some (acc ++ flat_map f vs)
unfolding flat_map
foldl-extend-some f acc [] = rw append-nil
foldl-extend-some f acc (v ∷ vs) =
    foldl-extend-some f (acc ++ f v) vs ∙ ap some (append_assoc acc (f v) (flat_map f vs))

foldl-extend :
    (f : Text → List FilePath) (vs : List Text)
    → foldl (λ (a : Option (List FilePath)) (v : Text). extend a (f v)) none vs ≡ all_values f vs
unfolding flat_map
foldl-extend f [] = refl
foldl-extend f (v ∷ vs) = foldl-extend-some f (f v) vs

-- The entry that a file stands for: `m` is the mount point, `p` the path of the file, `c` what its
-- name says.
pub record IsEntryOf (m p : FilePath) (c : BlsEntryMetadata) (ls : List Text) (e : BlsEntry)
    : Type 0 where
  pub entry_path : e.entry_path ≡ p
  pub name : e.name ≡ c.0
  pub tries_left : e.tries_left ≡ c.1
  pub tries_done : e.tries_done ≡ c.2
  pub title :
      e.title ≡ overwritten (λ v. some (trim v)) none (last_value (values (codes "title") ls))
  pub version :
      e.version ≡ overwritten (λ v. some (trim v)) none (last_value (values (codes "version") ls))
  pub machine_id :
      e.machine_id
      ≡ overwritten (λ v. some (trim v)) none (last_value (values (codes "machine-id") ls))
  pub sort_key :
      e.sort_key ≡ overwritten (λ v. some (trim v)) none (last_value (values (codes "sort-key") ls))
  pub architecture :
      e.architecture
      ≡ overwritten
          (λ v. to_option (arch_from_str v))
          none
          (last_value (values (codes "architecture") ls))
  pub efi :
      e.efi ≡ overwritten (λ v. some (on_mount m v)) none (last_value (values (codes "efi") ls))
  pub linux :
      e.linux ≡ overwritten (λ v. some (on_mount m v)) none (last_value (values (codes "linux") ls))
  pub devicetree :
      e.devicetree
      ≡ overwritten (λ v. some (on_mount m v)) none (last_value (values (codes "devicetree") ls))
  pub initrd :
      e.initrd
      ≡ all_values (λ v. map (on_mount m) (split_ascii_whitespace v)) (values (codes "initrd") ls)
  pub devicetree_overlay :
      e.devicetree_overlay
      ≡ all_values
          (λ v. map (on_mount m) (split_ascii_whitespace v))
          (values (codes "devicetree-overlay") ls)
  pub options : e.options ≡ flat_map (λ v. split_whitespace (trim v)) (values (codes "options") ls)
  pub pretty_name : e.pretty_name ≡ pretty c.0 e.title e.version
  pub is_default : e.is_default ≡ false

module _ (m : FilePath) where
  kept-parse_lines :
      {A : Type 0} (field : BlsEntry → A)
      → ((key val : Text) (e : BlsEntry) → field (set_key m key val e) ≡ field e)
      → (ls : List Text) (e : BlsEntry) → field (parse_lines m ls e) ≡ field e
  unfolding parse_lines parse_line
  kept-parse_lines field law [] e = refl
  kept-parse_lines field law (l ∷ ls) e =
      kept-parse_lines field law ls (parse_line m e l)
      ∙ elim (Option-cases (split_once is_whitespace l)) [
        | inl plain ↦ rw (plain, parse_line)
        | inr ((key, val), cut) ↦ rw (cut, parse_line) (law key val e)
      ]

  -- The rounds of the loop over the lines, from an entry that has its identity and nothing else.
  parse_lines-IsEntryOf :
      (p : FilePath) (c : BlsEntryMetadata) (ls : List Text)
      → IsEntryOf m p c ls (with_pretty_name (parse_lines m ls (identified p c)))
  unfolding identified with_pretty_name
  parse_lines-IsEntryOf p c ls = record {
    entry_path =
        kept-parse_lines (λ x. x.entry_path) (λ key val x. entry_path-set_key m key val x) ls
          (identified p c);
    name =
        kept-parse_lines (λ x. x.name) (λ key val x. name-set_key m key val x) ls (identified p c);
    tries_left =
        kept-parse_lines (λ x. x.tries_left) (λ key val x. tries_left-set_key m key val x) ls
          (identified p c);
    tries_done =
        kept-parse_lines (λ x. x.tries_done) (λ key val x. tries_done-set_key m key val x) ls
          (identified p c);
    title =
        field-parse_lines m (codes "title") (λ x. x.title) (λ a v. some (trim v)) (title-set_key m)
          ls (identified p c)
        ∙ foldl-overwritten (λ v. some (trim v)) none (values (codes "title") ls);
    version =
        field-parse_lines m (codes "version") (λ x. x.version) (λ a v. some (trim v))
          (version-set_key m) ls (identified p c)
        ∙ foldl-overwritten (λ v. some (trim v)) none (values (codes "version") ls);
    machine_id =
        field-parse_lines m (codes "machine-id") (λ x. x.machine_id) (λ a v. some (trim v))
          (machine_id-set_key m) ls (identified p c)
        ∙ foldl-overwritten (λ v. some (trim v)) none (values (codes "machine-id") ls);
    sort_key =
        field-parse_lines m (codes "sort-key") (λ x. x.sort_key) (λ a v. some (trim v))
          (sort_key-set_key m) ls (identified p c)
        ∙ foldl-overwritten (λ v. some (trim v)) none (values (codes "sort-key") ls);
    architecture =
        field-parse_lines m (codes "architecture") (λ x. x.architecture)
          (λ a v. to_option (arch_from_str v)) (architecture-set_key m) ls (identified p c)
        ∙ foldl-overwritten (λ v. to_option (arch_from_str v)) none
            (values (codes "architecture") ls);
    efi =
        field-parse_lines m (codes "efi") (λ x. x.efi) (λ a v. some (on_mount m v)) (efi-set_key m)
          ls (identified p c)
        ∙ foldl-overwritten (λ v. some (on_mount m v)) none (values (codes "efi") ls);
    linux =
        field-parse_lines m (codes "linux") (λ x. x.linux) (λ a v. some (on_mount m v))
          (linux-set_key m) ls (identified p c)
        ∙ foldl-overwritten (λ v. some (on_mount m v)) none (values (codes "linux") ls);
    devicetree =
        field-parse_lines m (codes "devicetree") (λ x. x.devicetree) (λ a v. some (on_mount m v))
          (devicetree-set_key m) ls (identified p c)
        ∙ foldl-overwritten (λ v. some (on_mount m v)) none (values (codes "devicetree") ls);
    initrd =
        field-parse_lines m (codes "initrd") (λ x. x.initrd)
          (λ a v. extend a (map (on_mount m) (split_ascii_whitespace v))) (initrd-set_key m) ls
          (identified p c)
        ∙ foldl-extend (λ v. map (on_mount m) (split_ascii_whitespace v))
            (values (codes "initrd") ls);
    devicetree_overlay =
        field-parse_lines m (codes "devicetree-overlay") (λ x. x.devicetree_overlay)
          (λ a v. extend a (map (on_mount m) (split_ascii_whitespace v)))
          (devicetree_overlay-set_key m) ls (identified p c)
        ∙ foldl-extend (λ v. map (on_mount m) (split_ascii_whitespace v))
            (values (codes "devicetree-overlay") ls);
    options =
        field-parse_lines m (codes "options") (λ x. x.options)
          (λ a v. a ++ split_whitespace (trim v)) (options-set_key m) ls (identified p c)
        ∙ foldl-flat_map (λ v. split_whitespace (trim v)) [] (values (codes "options") ls);
    pretty_name =
        ap
          (λ (n : Text).
            pretty n (parse_lines m ls (identified p c)).title
              (parse_lines m ls (identified p c)).version)
          (kept-parse_lines (λ x. x.name) (λ key val x. name-set_key m key val x) ls
            (identified p c));
    is_default =
        kept-parse_lines (λ x. x.is_default) (λ key val x. is_default-set_key m key val x) ls
          (identified p c);
  }

-- The description leaves nothing open.
IsEntryOf-unique :
    (m p : FilePath) (c : BlsEntryMetadata) (ls : List Text) (a b : BlsEntry)
    → IsEntryOf m p c ls a
    → IsEntryOf m p c ls b
    → a ≡ b
IsEntryOf-unique m p c ls a b h k = ground arith

-- A file is read as an entry exactly when its path ends in a file name that the convention
-- accepts, and then the entry is what its path, that name and its lines say, whatever it holds.
pub parse_entry_conf_iff :
    (m p : FilePath) (contents : Text) (e : BlsEntry)
    → (parse_entry_conf m p contents ≡ ok e) ↔ (
        (f : Text) × (c : BlsEntryMetadata) × (file_name p ≡ some f)
        × (parse_entry_filename f ≡ ok c)
        × IsEntryOf m p c (lines contents) e)
unfolding parse_entry_conf
parse_entry_conf_iff m p contents e = (
  (λ h. elim (Option-cases (file_name p)) [
    | inl no_name ↦ cc (rw no_name at h)
    | inr (f, named) ↦ elim (Result-cases (parse_entry_filename f)) [
      | inr (bad, refused) ↦ cc (rw (named, refused) at h)
      | inl (c, accepted) ↦ (
        f,
        c,
        named,
        accepted,
        subst (IsEntryOf m p c (lines contents)) (ok-injective (rw (named, accepted) at h))
            (parse_lines-IsEntryOf m p c (lines contents)),
      )
    ]
  ]),
  (λ h.
      rw (h.2, h.3)
        (ap ok (
          IsEntryOf-unique m p h.1 (lines contents) _ e
            (parse_lines-IsEntryOf m p h.1 (lines contents)) h.4))),
)
