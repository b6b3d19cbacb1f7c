-- ===== src/FsType/Tests.antt =====
-- A disk with a FAT signature.
use tinyboot.Prelude.{ℕ, List, [], ◌∷◌, ◌++◌, none, some, if◌then◌else◌, replicate, ◌≡◌}
use tinyboot.Text.{codes}
use tinyboot.FsType.{vfat, iso9660, detect_fs_type, iso9660_magic_signature_starts}
use tinyboot.FsType.Disk.{disk, opened}
use tinyboot.FsType.Signatures.{is_fat, any_holds, detect_fs_type-signatures}

-- A boot sector of FAT32.
abbrev fat_sector : List ℕ
fat_sector = replicate 82 0 ++ (codes "FAT32   " ++ (replicate 420 0 ++ 0x55 ∷ 0xaa ∷ []))

detect_fs_type-signatures_example : detect_fs_type disk (opened fat_sector) ≡ (
    if is_fat fat_sector
    then some vfat
    else if any_holds iso9660_magic_signature_starts fat_sector
    then some iso9660
    else none)
detect_fs_type-signatures_example = detect_fs_type-signatures fat_sector
