-- ===== src/BootLoader/BlsBootLoader/Tests.antt =====
-- Runs on a machine with one disk.
use tinyboot.Text.Decimal.{to_string, from_str_radix}
use tinyboot.FsType.{
  read_at, or_else, detect_text, detect_iso9660, detect_fs_type, detect_fat32, detect_fat12_16,
  detect_fat, detect_ext4, as_str,
}
use tinyboot.FsType.Disk.{seek, read_exact}
use tinyboot.Dev.{parse_uevent_lines, parse_uevent, get}
use tinyboot.Prelude.{
  drop, ℕ, true, false, List, [], ◌∷◌, ◌++◌, none, some, replicate, ◌≡◌, refl, All,
}
use tinyboot.Result.{ok}
use tinyboot.Text.{
  trim_start_matches, trim_start_by, trim_matches_for, trim_end_matches, trim_end_by, trim,
  strip_prefix, split_onto, split_once, split, lines_onto, lines, is_whitespace, equal, codes,
}
use tinyboot.FilePath.{
  is_absolute, from_text, equal_path, equal_parts, components, parent, FilePath, append, named,
}
use tinyboot.Fs.{
  read_to_string, read_dir, insert, entries_of, create_dirs, create_dir_all, lookup, Fs, file, dir,
  create_dir,
}
use tinyboot.BootLoader.Disk.{
  new, get_disk_attribute, get_attribute_string, get_attribute_bool, Disk,
}
use tinyboot.BootLoader.BlsBootLoader.{
  sort_disks, setup_disk, setup_devices, setup_device, mbr_index, insert_disk, has_diskseq,
  gpt_index, diskseq_of, boot_part_idx, add_disk, Kernel, block_class_path, disk_mnt_path, mount,
  setup,
}
use tinyboot.BootLoader.BlsBootLoader.Disks.{AreDisks, setup-AreDisks}
use tinyboot.BootLoader.Loader.{new as new_loader}
use tinyboot.BootLoader.Loader.Protocol.{
  Op, setup_op, probe_op, shutdown_op, boot_devices_op, traced, perform_all,
}
use tinyboot.BootLoader.BlsBootLoader.Driven.{
  disk_loader, HasDisks, AllBoot, perform_all-disk_loader,
}

-- A boot sector of FAT16.
abbrev boot_sector : List ℕ
boot_sector = replicate 54 0 ++ (codes "FAT16   " ++ (replicate 448 0 ++ 0x55 ∷ 0xaa ∷ []))

abbrev machine : Kernel
machine = record {
  canonicalize = λ p fs. ok p;
  metadata = λ p fs. true;
  open_device = λ p fs. ok boot_sector;
  mount = λ part mountpoint t fs. (ok tt, fs);
  umount = λ mountpoint fs. (ok tt, fs);
  gpt_partitions = λ p fs. some ((1, true) ∷ []);
  mbr_types = λ p fs. none;
}

abbrev root : FilePath
root = record { absolute = true; parts = [] }

abbrev sda : FilePath
sda = append block_class_path (named (codes "sda"))

abbrev files : Fs
files =
    (block_class_path, dir)
    ∷ (sda, dir)
    ∷ (append sda (named (codes "diskseq")), file (codes "7\n"))
    ∷ (append sda (named (codes "uevent")), file (codes "DEVNAME=sda\n"))
    ∷ []

abbrev found_disk : Disk
found_disk = record {
  diskseq = 7;
  device_path = append sda (named (codes "device"));
  entries = [];
  mountpoint = some (append disk_mnt_path (named (codes "7")));
  timeout = 10;
  removable = false;
  vendor = none;
  model = none;
}

abbrev mounted_files : Fs
mounted_files =
    files
    ++ (record { absolute = true; parts = codes "mnt" ∷ [] }, dir)
      ∷ (disk_mnt_path, dir)
      ∷ (append disk_mnt_path (named (codes "7")), dir)
      ∷ []

one_disk_found : setup machine [] files ≡ some (true, found_disk ∷ [], mounted_files)
unfolding setup create_dir_all create_dirs lookup append insert read_dir setup_devices setup_device
    diskseq_of read_to_string from_str_radix trim_end_matches setup_disk get parse_uevent
    parse_uevent_lines lines add_disk boot_part_idx gpt_index has_diskseq insert_disk mbr_index
    mount sort_disks get_attribute_bool get_attribute_string get_disk_attribute new components
    equal_parts equal_path from_text is_absolute parent create_dir entries_of read_exact seek as_str
    detect_ext4 detect_fat detect_fat12_16 detect_fat32 detect_fs_type detect_iso9660 detect_text
    or_else read_at drop to_string equal is_whitespace lines_onto split split_once split_onto
    strip_prefix trim trim_end_by trim_matches_for trim_start_by trim_start_matches
one_disk_found = refl

no_disks-AreDisks : AreDisks (codes "x86_64") []
no_disks-AreDisks = record { unrepeated = tt; each = tt }

setup-AreDisks_example : AreDisks (codes "x86_64") (found_disk ∷ [])
setup-AreDisks_example =
    setup-AreDisks (codes "x86_64") machine [] (found_disk ∷ []) files mounted_files true
      no_disks-AreDisks one_disk_found

abbrev uses : List Op
uses = boot_devices_op ∷ probe_op true ∷ shutdown_op ∷ setup_op false ∷ []

perform_all-disk_loader_example :
    let p = disk_loader (codes "x86_64") machine in
    let l = perform_all p uses (new_loader (traced p) (some ([], files), [])) in
    HasDisks (codes "x86_64") l.inner.0 × All AllBoot l.boot_devices
perform_all-disk_loader_example =
    perform_all-disk_loader (codes "x86_64") machine uses (some ([], files))
