-- ===== src/Dev/Devices/Kept.antt =====
-- The shape of the tree of devices, which every change keeps.
use mathlib.Core.Path.{subst}
use tinyboot.Prelude.{
  ℕ, Bool, true, false, [], ◌∷◌, Option, none, some, if◌then◌else◌, ◌≡◌, refl, arith, ◌⊎◌, inl, inr,
  sym, ◌∙◌,
}
use tinyboot.Text.{Text, codes, equal}
use tinyboot.FilePath.{FilePath, equal_path, append}
use tinyboot.FilePath.Laws.{IsFileName, equal_path_iff}
use tinyboot.Fs.{Node, file, dir, lookup}
use tinyboot.Fs.Laws.{lookup-insert}
use tinyboot.Dev.Devices.{
  DevFile, special, link, DevTree, dev_dir, disk_dir, part_dir, disk_link, disk_part_dir, part_link,
}
use tinyboot.Dev.Devices.Links.{ensure}

-- A directory or nothing.
abbrev pub MayBeDir : Option (Node DevFile) → Type 0
MayBeDir none = Unit
MayBeDir (some dir) = Unit
MayBeDir (some (file f)) = ⊥

-- A link or nothing.
abbrev pub MayBeLink : Option (Node DevFile) → Type 0
MayBeLink none = Unit
MayBeLink (some dir) = ⊥
MayBeLink (some (file (special kind major minor))) = ⊥
MayBeLink (some (file (link target))) = Unit

-- /dev is there, and the paths of the links of the program hold nothing but these links and the
-- directories that they are in.
pub record IsDevTree (t : DevTree) : Type 0 where
  pub dev : lookup dev_dir t ≡ some dir
  pub disk : MayBeDir (lookup disk_dir t)
  pub part : MayBeDir (lookup part_dir t)
  pub disk_part : (n : ℕ) → MayBeDir (lookup (disk_part_dir n) t)
  pub disk_links : (n : ℕ) → MayBeLink (lookup (disk_link n) t)
  pub part_links : (n k : ℕ) → MayBeLink (lookup (part_link n k) t)

-- The name of a device that stands in /dev itself.
pub record IsDevName (name : Text) : Type 0 where
  pub is_name : IsFileName name
  pub ne_disk : equal name (codes "disk") ≡ false
  pub ne_part : equal name (codes "part") ≡ false

-- The path of a device that stands in /dev itself.
abbrev pub plain_path : Text → FilePath
plain_path name = record { absolute = true; parts = codes "dev" ∷ name ∷ [] }

pub MayBeDir-cases : (o : Option (Node DevFile)) → MayBeDir o → (o ≡ none) ⊎ (o ≡ some dir)
MayBeDir-cases none h = inl refl
MayBeDir-cases (some dir) h = inr refl
MayBeDir-cases (some (file f)) h = elim h [ ]

pub MayBeLink-cases :
    (o : Option (Node DevFile))
    → MayBeLink o
    → (o ≡ none) ⊎ ((target : FilePath) × (o ≡ some (file (link target))))
MayBeLink-cases none h = inl refl
MayBeLink-cases (some dir) h = elim h [ ]
MayBeLink-cases (some (file (special kind major minor))) h = elim h [ ]
MayBeLink-cases (some (file (link target))) h = inr (target, refl)

pub lookup-ensure :
    (p q : FilePath) (t : DevTree)
    → MayBeDir (lookup p t)
    → lookup q (ensure p t) ≡ (if equal_path p q then some dir else lookup q t)
unfolding ensure
lookup-ensure p q t h = elim (MayBeDir-cases (lookup p t) h) [
  | inl e ↦ rw (e, ensure) (lookup-insert p q dir t)
  | inr e ↦ rw (e, ensure) (ground (arith, equal_path_iff p q))
]

abbrev pub When : Bool → Type 0 → Type 0
When true P = P
When false P = Unit

-- A node that the path may come to hold.
pub record Suits (p : FilePath) (o : Option (Node DevFile)) : Type 0 where
  pub dev : equal_path p dev_dir ≡ false
  pub disk : When (equal_path p disk_dir) (MayBeDir o)
  pub part : When (equal_path p part_dir) (MayBeDir o)
  pub disk_part : (n : ℕ) → When (equal_path p (disk_part_dir n)) (MayBeDir o)
  pub disk_links : (n : ℕ) → When (equal_path p (disk_link n)) (MayBeLink o)
  pub part_links : (n k : ℕ) → When (equal_path p (part_link n k)) (MayBeLink o)

chosen :
    (P : Option (Node DevFile) → Type 0) (b : Bool) (o old now : Option (Node DevFile))
    → now ≡ (if b then o else old)
    → When b (P o)
    → P old
    → P now
chosen P true o old now e h k = subst P (sym e) h
chosen P false o old now e h k = subst P (sym e) k

pub change-IsDevTree :
    (p : FilePath) (o : Option (Node DevFile)) (t t' : DevTree)
    → ((q : FilePath) → lookup q t' ≡ (if equal_path p q then o else lookup q t))
    → Suits p o
    → IsDevTree t
    → IsDevTree t'
change-IsDevTree p o t t' law s k = record {
  dev = law dev_dir ∙ rw s.dev k.dev;
  disk = chosen MayBeDir _ o _ _ (law disk_dir) s.disk k.disk;
  part = chosen MayBeDir _ o _ _ (law part_dir) s.part k.part;
  disk_part = λ n. chosen MayBeDir _ o _ _ (law (disk_part_dir n)) (s.disk_part n) (k.disk_part n);
  disk_links = λ n. chosen MayBeLink _ o _ _ (law (disk_link n)) (s.disk_links n) (k.disk_links n);
  part_links =
      λ n m. chosen MayBeLink _ o _ _ (law (part_link n m)) (s.part_links n m) (k.part_links n m);
}

when-ne : (p q : FilePath) (P : Type 0) → equal_path p q ≡ false → When (equal_path p q) P
when-ne p q P e = subst (λ c. When c P) (sym e) tt

when : (b : Bool) (P : Type 0) → P → When b P
when true P h = h
when false P h = tt

pub device-Suits :
    (name : Text) (o : Option (Node DevFile)) → IsDevName name → Suits (plain_path name) o
unfolding equal_path append
device-Suits name o h = record {
  dev = ground arith;
  disk = when-ne (plain_path name) disk_dir (MayBeDir o) (ground (arith, h.ne_disk));
  part = when-ne (plain_path name) part_dir (MayBeDir o) (ground (arith, h.ne_part));
  disk_part =
      λ n. when-ne (plain_path name) (disk_part_dir n) (MayBeDir o) (ground (arith, h.ne_part));
  disk_links =
      λ n. when-ne (plain_path name) (disk_link n) (MayBeLink o) (ground (arith, h.ne_disk));
  part_links =
      λ n k. when-ne (plain_path name) (part_link n k) (MayBeLink o) (ground (arith, h.ne_part));
}

pub disk_link-Suits : (m : ℕ) (o : Option (Node DevFile)) → MayBeLink o → Suits (disk_link m) o
unfolding equal_path append
disk_link-Suits m o h = record {
  dev = refl;
  disk = when-ne (disk_link m) disk_dir (MayBeDir o) (ground arith);
  part = tt;
  disk_part = λ n. tt;
  disk_links = λ n. when _ _ h;
  part_links = λ n k. tt;
}

pub part_link-Suits : (m j : ℕ) (o : Option (Node DevFile)) → MayBeLink o → Suits (part_link m j) o
unfolding equal_path append
part_link-Suits m j o h = record {
  dev = refl;
  disk = tt;
  part = when-ne (part_link m j) part_dir (MayBeDir o) (ground arith);
  disk_part = λ n. when-ne (part_link m j) (disk_part_dir n) (MayBeDir o) (ground arith);
  disk_links = λ n. tt;
  part_links = λ n k. when _ _ h;
}

pub disk_dir-Suits : Suits disk_dir (some dir)
unfolding equal_path append
disk_dir-Suits = record {
  dev = refl;
  disk = tt;
  part = tt;
  disk_part = λ n. tt;
  disk_links = λ n. tt;
  part_links = λ n k. tt;
}

pub part_dir-Suits : Suits part_dir (some dir)
unfolding equal_path append
part_dir-Suits = record {
  dev = refl;
  disk = tt;
  part = tt;
  disk_part = λ n. tt;
  disk_links = λ n. tt;
  part_links = λ n k. tt;
}

pub disk_part-Suits : (m : ℕ) → Suits (disk_part_dir m) (some dir)
unfolding equal_path append
disk_part-Suits m = record {
  dev = refl;
  disk = tt;
  part = tt;
  disk_part = λ n. when _ _ tt;
  disk_links = λ n. tt;
  part_links =
      λ n k. when-ne (disk_part_dir m) (part_link n k) (MayBeLink (some dir)) (ground arith);
}

pub ensure-IsDevTree :
    (p : FilePath) (t : DevTree)
    → MayBeDir (lookup p t)
    → Suits p (some dir)
    → IsDevTree t
    → IsDevTree (ensure p t)
ensure-IsDevTree p t h s =
    change-IsDevTree p (some dir) t (ensure p t) (λ q. lookup-ensure p q t h) s
