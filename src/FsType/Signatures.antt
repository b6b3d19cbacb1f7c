-- ===== src/FsType/Signatures.antt =====
-- What `detect_fs_type` finds on a disk, by the bytes alone.
use tinyboot.Prelude.{
  ℕ, ◌-◌, ◌≤◌, Bool, false, ◌&&◌, ◌||◌, List, [], ◌∷◌, ◌++◌, none, some, if◌then◌else◌, leb, length,
  length-drop, drop, replicate, ◌≡◌, refl, arith,
}
use tinyboot.Text.{codes, equal}
use tinyboot.FsType.{
  FsType, vfat, iso9660, read_at, detect_text, detect_fat32, detect_fat12_16, detect_fat,
  detect_iso9660, detect_ext4, detect_fs_type, or_else, iso9660_magic_signature_starts,
}
use tinyboot.FsType.Disk.{Cursor, seek, read_exact, disk, opened, slice}

-- A reading of a place does not depend on where the last one ended, and leaves the bytes.
read_at-slice :
    (start len : ℕ) (c : Cursor)
    → ((read_at disk start len c).0 ≡ slice start len c.bytes)
      × ((read_at disk start len c).1.bytes ≡ c.bytes)
unfolding read_at seek read_exact slice
read_at-slice start len c = ground arith

-- The bytes at a place are there and pass the test.
abbrev holds : ℕ → ℕ → (List ℕ → Bool) → List ℕ → Bool
holds start len test bytes = elim (slice start len bytes) [ none ↦ false | some b ↦ test b ]

detect_text-holds :
    (start len : ℕ) (test : List ℕ → Bool) (t : FsType) (c : Cursor)
    → ((detect_text disk start len test t c).0
        ≡ (if holds start len test c.bytes then some t else none))
      × ((detect_text disk start len test t c).1.bytes ≡ c.bytes)
unfolding detect_text
detect_text-holds start len test t c = ground (arith, read_at-slice start len c)

abbrev pub is_fat : List ℕ → Bool
is_fat bytes =
    holds 510 2 (λ b. equal b (0x55 ∷ 0xaa ∷ [])) bytes
    && (holds 82 8 (λ b. equal b (codes "FAT32   ")) bytes
        || holds 54 8 (λ b. equal b (codes "FAT16   ") || equal b (codes "FAT12   ")) bytes)

detect_fat32-holds :
    (c : Cursor)
    → ((detect_fat32 disk c).0
        ≡ (if holds 82 8 (λ b. equal b (codes "FAT32   ")) c.bytes then some vfat else none))
      × ((detect_fat32 disk c).1.bytes ≡ c.bytes)
unfolding detect_fat32
detect_fat32-holds c = detect_text-holds 82 8 (λ b. equal b (codes "FAT32   ")) vfat c

detect_fat12_16-holds :
    (c : Cursor)
    → ((detect_fat12_16 disk c).0 ≡ (
        if holds 54 8 (λ b. equal b (codes "FAT16   ") || equal b (codes "FAT12   ")) c.bytes
        then some vfat
        else none))
      × ((detect_fat12_16 disk c).1.bytes ≡ c.bytes)
unfolding detect_fat12_16
detect_fat12_16-holds c =
    detect_text-holds 54 8 (λ b. equal b (codes "FAT16   ") || equal b (codes "FAT12   ")) vfat c

detect_fat-is_fat :
    (c : Cursor)
    → ((detect_fat disk c).0 ≡ (if is_fat c.bytes then some vfat else none))
      × ((detect_fat disk c).1.bytes ≡ c.bytes)
unfolding detect_fat or_else
detect_fat-is_fat c =
    let c' : Cursor = (read_at disk 510 2 c).1 in
    let c'' : Cursor = (detect_fat32 disk c').1 in
    ground (arith, read_at-slice 510 2 c, detect_fat32-holds c', detect_fat12_16-holds c'')

-- A place behind one that is not there is not there either.
slice-none :
    (a b len : ℕ) (bytes : List ℕ) → a ≤ b → slice a len bytes ≡ none → slice b len bytes ≡ none
unfolding slice
slice-none a b len bytes h e = ground (arith, length-drop a bytes, length-drop b bytes)

abbrev cd001 : List ℕ → Bool
cd001 b = equal b (codes "CD001")

-- One of the places is there and holds `CD001`.
abbrev pub any_holds : List ℕ → List ℕ → Bool
any_holds [] bytes = false
any_holds (start ∷ starts) bytes =
    holds start 5 (λ b. equal b (codes "CD001")) bytes || any_holds starts bytes

-- The places stand in order.
abbrev Ascending : ℕ → List ℕ → Type 0
Ascending low [] = Unit
Ascending low (s ∷ starts) = (low ≤ s) × Ascending s starts

any_holds-none :
    (low : ℕ) (starts bytes : List ℕ)
    → Ascending low starts
    → slice low 5 bytes ≡ none
    → any_holds starts bytes ≡ false
any_holds-none low [] bytes up h = refl
any_holds-none low (s ∷ starts) bytes up h =
    let gone : slice s 5 bytes ≡ none = slice-none low s 5 bytes up.0 h in
    rw (gone, holds) (any_holds-none s starts bytes up.1 gone)

detect_iso9660-any_holds :
    (low : ℕ) (starts : List ℕ) (c : Cursor)
    → Ascending low starts
    → ((detect_iso9660 disk starts c).0 ≡ (if any_holds starts c.bytes then some iso9660 else none))
      × ((detect_iso9660 disk starts c).1.bytes ≡ c.bytes)
unfolding detect_iso9660
detect_iso9660-any_holds low [] c up = (refl, refl)
detect_iso9660-any_holds low (s ∷ starts) c up =
    let c' : Cursor = (read_at disk s 5 c).1 in
    ground (
      arith,
      read_at-slice s 5 c,
      any_holds-none s starts c.bytes up.1,
      detect_iso9660-any_holds s starts c' up.1,
    )

short_buffer :
    (rest : List ℕ)
    → leb 2 (length rest) ≡ false
    → equal (rest ++ replicate (2 - length rest) 0) (0x53 ∷ 0xef ∷ []) ≡ false
unfolding equal
short_buffer [] h = refl
short_buffer (x ∷ []) h = ground arith
short_buffer (x ∷ y ∷ rest) h = ground arith

-- A failed read of two bytes has no second byte, so its buffer is not the signature of ext4.
detect_ext4-none : (c : Cursor) → (detect_ext4 disk c).0 ≡ none
unfolding detect_ext4 seek read_exact
detect_ext4-none c = ground (arith, short_buffer (drop 0x438 c.bytes))

-- On a disk of any bytes the type is that of the FAT signature with one of the three FAT names, or
-- else that of `CD001` at one of its three places, or else none. It is never ext4.
pub detect_fs_type-signatures :
    (bytes : List ℕ)
    → detect_fs_type disk (opened bytes) ≡ (
        if is_fat bytes
        then some vfat
        else if any_holds iso9660_magic_signature_starts bytes
        then some iso9660
        else none)
unfolding detect_fs_type or_else
detect_fs_type-signatures bytes =
    let c : Cursor = opened bytes in
    let c' : Cursor = (detect_fat disk c).1 in
    let c'' : Cursor = (detect_iso9660 disk iso9660_magic_signature_starts c').1 in
    ground (
      arith,
      detect_fat-is_fat c,
      detect_iso9660-any_holds 0 iso9660_magic_signature_starts c' (omega arith),
      detect_ext4-none c'',
    )
