-- ===== src/BootLoader/BlsBootLoader.antt =====
-- `BlsBootLoader` of tboot-loader/src/boot_loader/disk.rs: the search for disks, their mounts, and
-- what is found on them.
pub mod Disks
pub mod Mounts
pub mod Probes
pub mod Driven
mod Tests
use tinyboot.Prelude.{
  ℕ, suc, ◌+◌, Bool, true, false, ◌&&◌, not, List, [], ◌∷◌, ◌++◌, Option, none, some, if◌then◌else◌,
  ◌==◌,
}
use tinyboot.Result.{Result, ok, err}
use tinyboot.Text.{Text, codes, trim_end_matches}
use tinyboot.Text.Decimal.{u64_max, from_str_radix, to_string}
use tinyboot.FilePath.{FilePath, append, named, from_text}
use tinyboot.Fs.{IoError, Fs, read_to_string, read_dir, create_dir, create_dir_all, remove_dir_all}
use tinyboot.FsType.{FsType, as_str, detect_fs_type}
use tinyboot.FsType.Disk.{disk, opened}
use tinyboot.Dev.{get, parse_uevent}
use tinyboot.BootLoader.{BootDevice}
use tinyboot.BootLoader.Entry.{BlsEntry}
use tinyboot.BootLoader.Conf.{LoaderConf, parse_loader_conf}
use tinyboot.BootLoader.Disk.{Disk, new, discover_entries, into_boot_device}

-- The kernel and the crate `gpt`. The paths below /sys are links, which the tree of files does not
-- have; a device gives its bytes. A partition of a GPT has its index and whether its type is `EFI`,
-- and an MBR has the types of its partitions; `none` is an error.
pub record Kernel : Type 0 where
  pub canonicalize : FilePath → Fs → Result FilePath IoError
  pub metadata : FilePath → Fs → Bool
  pub open_device : FilePath → Fs → Result (List ℕ) IoError
  pub mount : FilePath → FilePath → Text → Fs → Result (Unit {0}) IoError × Fs
  pub umount : FilePath → Fs → Result (Unit {0}) IoError × Fs
  pub gpt_partitions : FilePath → Fs → Option (List (ℕ × Bool))
  pub mbr_types : FilePath → Fs → Option (List ℕ)

abbrev pub disk_mnt_path : FilePath
disk_mnt_path = record { absolute = true; parts = codes "mnt" ∷ codes "disk" ∷ [] }

abbrev pub block_class_path : FilePath
block_class_path = record {
  absolute = true;
  parts = codes "sys" ∷ codes "class" ∷ codes "block" ∷ [];
}

abbrev pub dev_path : FilePath
dev_path = record { absolute = true; parts = codes "dev" ∷ [] }

abbrev pub dev_part_path : FilePath
dev_part_path = record { absolute = true; parts = codes "dev" ∷ codes "part" ∷ [] }

abbrev pub conf_path : FilePath
conf_path = record { absolute = false; parts = codes "loader" ∷ codes "loader.conf" ∷ [] }

abbrev pub mountpoint_of : Disk → FilePath
mountpoint_of d = append disk_mnt_path (named (to_string d.diskseq))

-- The first EFI partition of a GPT.
unfoldable pub gpt_index : List (ℕ × Bool) → Option ℕ
gpt_index [] = none
gpt_index ((idx, is_efi) ∷ ps) = if is_efi then some idx else gpt_index ps

-- The first boot partition of an MBR, counted from 1.
unfoldable pub mbr_index : ℕ → List ℕ → Option ℕ
mbr_index idx [] = none
mbr_index idx (os_type ∷ ts) = if os_type == 0xea then some (idx + 1) else mbr_index (idx + 1) ts

abbrev found_in {ℓ} : {A : Type ℓ} → (A → Option ℕ) → Option A → Option ℕ
found_in f none = none
found_in f (some a) = f a

pub has_diskseq : ℕ → List Disk → Bool
has_diskseq n [] = false
has_diskseq n (d ∷ ds) = if d.diskseq == n then true else has_diskseq n ds

-- `sort_by` of the disks, a stable sort: removable ones come first.
pub insert_disk : Disk → List Disk → List Disk
insert_disk x [] = x ∷ []
insert_disk x (y ∷ ys) =
    let rest = insert_disk x ys in if not x.removable && y.removable then y ∷ rest else x ∷ y ∷ ys

pub sort_disks : List Disk → List Disk
sort_disks [] = []
sort_disks (d ∷ ds) = insert_disk d (sort_disks ds)

module _ (k : Kernel) where
  -- `Disk::mount`: whether it succeeded, the disk and the tree.
  pub mount : FilePath → Disk → Fs → Bool × Disk × Fs
  mount partition_chardev_path d fs =
      let (created, fs') = create_dir (mountpoint_of d) fs in
      elim created [
        | err e ↦ (false, d, fs')
        | ok _ ↦ elim (k.open_device partition_chardev_path fs') [
          | err e ↦ (false, d, fs')
          | ok bytes ↦ elim (detect_fs_type disk (opened bytes)) [
            | none ↦ (false, d, fs')
            | some t ↦
                let (mounted, fs'') =
                  k.mount partition_chardev_path (mountpoint_of d) (as_str t) fs' in
                elim mounted [
                  | err e ↦ (false, d, fs'')
                  | ok _ ↦ (true, record d { mountpoint = some (mountpoint_of d) }, fs'')
                ]
          ]
        ]
      ]

  -- `Disk::unmount`; a failure is logged.
  unfoldable pub unmount : Disk → Fs → Fs
  unmount d fs = elim d.mountpoint [ none ↦ fs | some mountpoint ↦ (k.umount mountpoint fs).1 ]

  unfoldable pub boot_part_idx : FilePath → Fs → Option ℕ
  boot_part_idx disk_chardev_path fs =
      elim (found_in gpt_index (k.gpt_partitions disk_chardev_path fs)) [
        | some gpt_idx ↦ some gpt_idx
        | none ↦ found_in (mbr_index 0) (k.mbr_types disk_chardev_path fs)
      ]

  -- The end of a round of the loop over the devices: the disk is mounted, and added if it is new.
  pub add_disk : ℕ → FilePath → ℕ → List Disk → Fs → List Disk × Fs
  add_disk diskseq device_path part_idx disks fs =
      let partition_chardev_path =
        append (append dev_part_path (named (to_string diskseq))) (named (to_string part_idx)) in
      let (mounted, d, fs') = mount partition_chardev_path (new diskseq device_path fs) fs in
      if mounted
      then if has_diskseq diskseq disks then (disks, fs') else (disks ++ d ∷ [], fs')
      else (disks, fs')

  unfoldable pub diskseq_of : FilePath → Fs → Option ℕ
  diskseq_of block_dev_path fs =
      elim (read_to_string (append block_dev_path (named (codes "diskseq"))) fs) [
        | err e ↦ none
        | ok diskseq_str ↦ from_str_radix u64_max (trim_end_matches (codes "\n") diskseq_str)
      ]

  -- The part of a round that looks at a disk with a number; `none` is a panic.
  pub setup_disk : FilePath → FilePath → ℕ → List Disk → Fs → Option (List Disk × Fs)
  setup_disk block_dev_path device_path diskseq disks fs =
      elim (read_to_string (append block_dev_path (named (codes "uevent"))) fs) [
        | err e ↦ none
        | ok contents ↦ elim (get (codes "DEVNAME") (parse_uevent contents)) [
          | none ↦ some (disks, fs)
          | some devname ↦ elim (boot_part_idx (append dev_path (from_text devname)) fs) [
            | none ↦ some (disks, fs)
            | some part_idx ↦ some (add_disk diskseq device_path part_idx disks fs)
          ]
        ]
      ]

  -- One round of the loop over the block devices.
  pub setup_device : FilePath → List Disk → Fs → Option (List Disk × Fs)
  setup_device block_dev disks fs = elim (k.canonicalize block_dev fs) [
    | err e ↦ none
    | ok block_dev_path ↦
        let device_link = append block_dev_path (named (codes "device")) in
        if k.metadata device_link fs
        then (elim (k.canonicalize device_link fs) [
          | err e ↦ none
          | ok device_path ↦ elim (diskseq_of block_dev_path fs) [
            | none ↦ some (disks, fs)
            | some diskseq ↦ setup_disk block_dev_path device_path diskseq disks fs
          ]
        ])
        else some (disks, fs)
  ]

  pub setup_devices : List FilePath → List Disk → Fs → Option (List Disk × Fs)
  setup_devices [] disks fs = some (disks, fs)
  setup_devices (block_dev ∷ block_devs) disks fs = elim (setup_device block_dev disks fs) [
    | none ↦ none
    | some (disks', fs') ↦ setup_devices block_devs disks' fs'
  ]

  -- `setup`: whether it succeeded, the disks and the tree; `none` is a panic.
  unfoldable pub setup : List Disk → Fs → Option (Bool × List Disk × Fs)
  setup disks fs =
      let (made, fs') = create_dir_all disk_mnt_path fs in
      elim made [
        | err e ↦ none
        | ok _ ↦ elim (read_dir block_class_path fs') [
          | err e ↦ some (false, disks, fs')
          | ok block_devs ↦ elim (setup_devices block_devs disks fs') [
            | none ↦ none
            | some (disks', fs'') ↦ some (true, sort_disks disks', fs'')
          ]
        ]
      ]

  unfoldable pub unmount_all : List Disk → Fs → Fs
  unmount_all [] fs = fs
  unmount_all (d ∷ ds) fs = unmount_all ds (unmount d fs)

  -- `teardown`; a failure is logged.
  unfoldable pub teardown : List Disk → Fs → Fs
  teardown disks fs = (remove_dir_all disk_mnt_path (unmount_all disks fs)).1

-- One round of the loop of `probe`: the disk, and its boot device if it has one.
pub probe_disk : Text → Fs → Disk → Disk × Option (BootDevice BlsEntry)
probe_disk arch fs d = elim d.mountpoint [
  | none ↦ (d, none)
  | some mountpoint ↦ elim (read_to_string (append mountpoint conf_path) fs) [
    | err e ↦ (d, none)
    | ok contents ↦
        let loader_conf = parse_loader_conf contents in
        let d' =
          discover_entries arch loader_conf.default_entry fs
            (record d { timeout = loader_conf.timeout }) in
        (d', some (into_boot_device d'))
  ]
]

abbrev pub push {ℓ} : {A : Type ℓ} → Option A → List A → List A
push none xs = xs
push (some x) xs = x ∷ xs

-- `probe`: the devices, and the disks after it.
unfoldable pub probe : Text → Fs → List Disk → List (BootDevice BlsEntry) × List Disk
probe arch fs [] = ([], [])
probe arch fs (d ∷ ds) =
    let (devs, ds') = probe arch fs ds in
    let (d', dev) = probe_disk arch fs d in (push dev devs, d' ∷ ds')
