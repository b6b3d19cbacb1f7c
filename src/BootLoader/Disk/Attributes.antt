-- ===== src/BootLoader/Disk/Attributes.antt =====
-- The attributes of a disk that sysfs shows.
use mathlib.Core.List.{reverse-reverse}
use tinyboot.Prelude.{
  ℕ, Bool, true, false, List, [], ◌∷◌, reverse, ◌≡◌, ◌≢◌, refl, arith, ◌∙◌, sym, ap, Bool-cases,
  inl, inr,
}
use tinyboot.Result.{Result-cases}
use tinyboot.Text.{Text, codes, equal, is_whitespace, trim, trim_start_by, trim_end_by}
use tinyboot.Text.Cut.{equal_iff}
use tinyboot.FilePath.{FilePath, append, named}
use tinyboot.Fs.{Fs, read_to_string}
use tinyboot.BootLoader.Disk.{get_disk_attribute, get_attribute_bool, new}

trim_start_by-ne : (p : ℕ → Bool) (c : ℕ) (r s : Text) → p c ≡ true → trim_start_by p s ≢ c ∷ r
unfolding trim_start_by
trim_start_by-ne p c r [] h e = cc
trim_start_by-ne p c r (d ∷ s) h e = elim (Bool-cases (p d)) [
  | inl skipped ↦ trim_start_by-ne p c r s h (rw (skipped, trim_start_by) at e)
  | inr kept ↦ ground (arith, kept, rw (kept, trim_start_by) at e)
]

-- A text that was trimmed does not end in a line feed.
trim-ne : (s : Text) → equal (trim s) (codes "1\n") ≡ false
unfolding trim trim_end_by is_whitespace
trim-ne s = elim (Bool-cases (equal (trim s) (codes "1\n"))) [
  | inr other ↦ other
  | inl same ↦
      let end : List ℕ = reverse (trim_start_by is_whitespace s) in
      let e : trim s ≡ codes "1\n" = (equal_iff (trim s) (codes "1\n")).0 same in
      let back : trim_start_by is_whitespace end ≡ b'\n' ∷ b'1' ∷ [] =
        sym (reverse-reverse _) ∙ ap reverse e in
      absurd (trim_start_by-ne is_whitespace b'\n' (b'1' ∷ []) end refl back)
]

-- No disk is found to be removable, whatever its attributes hold: the text is trimmed before it is
-- compared with one that ends in a line feed.
new-not_removable :
    (diskseq : ℕ) (device_path : FilePath) (fs : Fs)
    → (new diskseq device_path fs).removable ≡ false
unfolding new get_attribute_bool get_disk_attribute
new-not_removable diskseq device_path fs =
    elim (Result-cases (read_to_string (append device_path (named (codes "removable"))) fs)) [
      | inl (val, found) ↦ rw (found, new, get_attribute_bool, get_disk_attribute) (trim-ne val)
      | inr (e, missing) ↦ rw (missing, new, get_attribute_bool, get_disk_attribute)
    ]
