-- ===== src/FsType.antt =====
-- tboot-loader/src/fs.rs: the file system on a partition, by the signatures in its bytes.
pub mod Disk
pub mod Signatures
mod Tests
use tinyboot.Prelude.{
  ℕ, zero, suc, ◌+◌, ◌*◌, ◌^◌, ◌%◌, ◌/◌, Bool, true, false, List, [], ◌∷◌, ◌||◌, Option, none, some,
  if◌then◌else◌,
}
use tinyboot.Text.{Text, codes, equal}

pub data FsType : Type 0 where
  ext4 vfat iso9660 : FsType

unfoldable pub as_str : FsType → Text
as_str iso9660 = codes "iso9660"
as_str ext4 = codes "ext4"
as_str vfat = codes "vfat"

abbrev fat_magic_signature_start : ℕ
fat_magic_signature_start = 510

abbrev fat_magic_signature_length : ℕ
fat_magic_signature_length = 2

abbrev fat32_identifier_start : ℕ
fat32_identifier_start = 82

abbrev fat32_identifier_length : ℕ
fat32_identifier_length = 8

abbrev fat16_identifier_start : ℕ
fat16_identifier_start = 54

abbrev fat16_identifier_length : ℕ
fat16_identifier_length = 8

abbrev ext4_superblock_start : ℕ
ext4_superblock_start = 0x400

abbrev ext4_magic_signature_start : ℕ
ext4_magic_signature_start = ext4_superblock_start + 0x38

abbrev ext4_magic_signature_length : ℕ
ext4_magic_signature_length = 2

abbrev pub iso9660_magic_signature_starts : List ℕ
iso9660_magic_signature_starts = 0x8001 ∷ 0x8801 ∷ 0x9001 ∷ []

abbrev iso9660_magic_signature_length : ℕ
iso9660_magic_signature_length = 5

-- The two lower bytes of EXT4_SUPER_MAGIC, 0xEF53, in little-endian order.
abbrev ext4_super_magic : List ℕ
ext4_super_magic = 0x53 ∷ 0xef ∷ []

-- `T: Read + Seek`. An operation says whether it succeeded; `read_exact` also gives the buffer, of
-- the length that was asked for, which may be filled in part where it failed.
pub record Reader : Type 1 where
  pub State : Type 0
  pub seek : ℕ → State → Bool × State
  pub read_exact : ℕ → State → Bool × List ℕ × State

-- `str::from_utf8(&buffer).map(|res| res == …)`: bytes that are equal to an ASCII text are UTF-8, so
-- the buffer is compared as it is.
module _ (r : Reader) where
  open r use {State, seek, read_exact}

  -- A step that may find the type, or go on from the state that it leaves.
  abbrev Detect : Type 0
  Detect = State → Option FsType × State

  -- `seek` and `read_exact`, each with a `break` on failure.
  unfoldable pub read_at : ℕ → ℕ → State → Option (List ℕ) × State
  read_at start len s =
      let (found, s') = seek start s in
      let (full, buffer, s'') = read_exact len s' in
      if found then if full then (some buffer, s'') else (none, s'') else (none, s')

  unfoldable pub or_else : Option FsType × State → Detect → Option FsType × State
  or_else (some t, s) next = (some t, s)
  or_else (none, s) next = next s

  -- A text at a place that passes a test gives the type.
  unfoldable pub detect_text : ℕ → ℕ → (List ℕ → Bool) → FsType → Detect
  detect_text start len test t s =
      let (read, s') = read_at start len s in
      elim read [
        | none ↦ (none, s')
        | some buffer ↦ if test buffer then (some t, s') else (none, s')
      ]

  unfoldable pub detect_fat32 : Detect
  detect_fat32 =
      detect_text fat32_identifier_start fat32_identifier_length
        (λ buffer. equal buffer (codes "FAT32   ")) vfat

  unfoldable pub detect_fat12_16 : Detect
  detect_fat12_16 =
      detect_text fat16_identifier_start fat16_identifier_length
        (λ buffer. equal buffer (codes "FAT16   ") || equal buffer (codes "FAT12   ")) vfat

  unfoldable pub detect_fat : Detect
  detect_fat s =
      let (read, s') = read_at fat_magic_signature_start fat_magic_signature_length s in
      elim read [
        | none ↦ (none, s')
        | some buffer ↦
            if equal buffer (0x55 ∷ 0xaa ∷ [])
            then or_else (detect_fat32 s') detect_fat12_16
            else (none, s')
      ]

  -- The loop over the three places is left at the first one that cannot be read.
  unfoldable pub detect_iso9660 : List ℕ → Detect
  detect_iso9660 [] s = (none, s)
  detect_iso9660 (start ∷ starts) s =
      let (read, s') = read_at start iso9660_magic_signature_length s in
      elim read [
        | none ↦ (none, s')
        | some buffer ↦ elim (equal buffer (codes "CD001")) [
          | true ↦ (some iso9660, s')
          | false ↦ detect_iso9660 starts s'
        ]
      ]

  -- The source breaks off where the read succeeded, so the buffer is compared after a failed read.
  unfoldable pub detect_ext4 : Detect
  detect_ext4 s =
      let (found, s') = seek ext4_magic_signature_start s in
      let (full, buffer, s'') = read_exact ext4_magic_signature_length s' in
      if found
      then if full
        then (none, s'')
        else if equal buffer ext4_super_magic
        then (some ext4, s'')
        else (none, s'')
      else (none, s')

  unfoldable pub detect_fs_type : State → Option FsType
  detect_fs_type s =
      (or_else (or_else (detect_fat s) (detect_iso9660 iso9660_magic_signature_starts))
        detect_ext4).0
