-- ===== src/BootLoader/BlsBootLoader/Driven.antt =====
-- `BlsBootLoader` and `BlsEntry` of tboot-loader/src/boot_loader/disk.rs as the loader and the entry
-- that a `Loader` drives.
use tinyboot.Prelude.{Bool, false, List, [], Option, none, some, ◌≡◌, refl, All}
use tinyboot.Text.{Text}
use tinyboot.Fs.{Fs}
use tinyboot.BootLoader.{Platform, LinuxBootParts, BootDevice, disk}
use tinyboot.BootLoader.Entry.{BlsEntry, select}
use tinyboot.BootLoader.Disk.{Disk}
use tinyboot.BootLoader.Disk.Listed.{CanBoot}
use tinyboot.BootLoader.Loader.{new}
use tinyboot.BootLoader.Loader.Protocol.{Op, traced, perform_all}
use tinyboot.BootLoader.Loader.Kept.{Keeps, perform_all-new}
use tinyboot.BootLoader.BlsBootLoader.{Kernel, setup, probe, teardown}
use tinyboot.BootLoader.BlsBootLoader.Disks.{AreDisks, setup-AreDisks}
use tinyboot.BootLoader.BlsBootLoader.Probes.{probe-AreDisks}

-- The disks of the loader and the tree of files; `none` once the program has panicked, and then
-- nothing happens any more.
abbrev pub Machine : Type 0
Machine = Option (List Disk × Fs)

abbrev pub fresh_loader : Machine → Machine
fresh_loader none = none
fresh_loader (some (disks, fs)) = some ([], fs)

abbrev pub after_setup : Option (Bool × List Disk × Fs) → Bool × Machine
after_setup none = (false, none)
after_setup (some (succeeded, disks, fs)) = (succeeded, some (disks, fs))

abbrev pub setup_loader : Kernel → Machine → Bool × Machine
setup_loader k none = (false, none)
setup_loader k (some (disks, fs)) = after_setup (setup k disks fs)

abbrev pub probe_loader : Text → Machine → List (BootDevice BlsEntry) × Machine
probe_loader arch none = ([], none)
probe_loader arch (some (disks, fs)) =
    let (devices, disks') = probe arch fs disks in (devices, some (disks', fs))

abbrev pub teardown_loader : Kernel → Machine → Machine
teardown_loader k none = none
teardown_loader k (some (disks, fs)) = some (disks, teardown k disks fs)

-- What is returned by a `select` that panics, which nothing sees.
abbrev no_parts : LinuxBootParts
no_parts = record { linux = record { absolute = false; parts = [] }; initrd = none; cmdline = none }

abbrev pub after_select : List Disk → Option (LinuxBootParts × Fs) → LinuxBootParts × Machine
after_select disks none = (no_parts, none)
after_select disks (some (parts, fs)) = (parts, some (disks, fs))

abbrev pub select_loader : BlsEntry → Machine → LinuxBootParts × Machine
select_loader e none = (no_parts, none)
select_loader e (some (disks, fs)) = after_select disks (select e fs)

abbrev pub disk_loader : Text → Kernel → Platform
disk_loader arch k = record {
  State = Machine;
  Entry = BlsEntry;
  fresh = fresh_loader;
  loader_type = λ m. disk;
  setup = setup_loader k;
  probe = probe_loader arch;
  teardown = teardown_loader k;
  is_default = λ e. e.is_default;
  show = λ e. e.pretty_name;
  select = select_loader;
}

-- The disks of a program that has not panicked.
abbrev pub HasDisks : Text → Machine → Type 0
HasDisks arch none = Unit
HasDisks arch (some (disks, fs)) = AreDisks arch disks

abbrev pub AllBoot : BootDevice BlsEntry → Type 0
AllBoot dev = All CanBoot dev.entries

module _ (arch : Text) (k : Kernel) where
  fresh-HasDisks : (m : Machine) → HasDisks arch (fresh_loader m)
  fresh-HasDisks none = tt
  fresh-HasDisks (some (disks, fs)) = record { unrepeated = tt; each = tt }

  setup-HasDisks : (m : Machine) → HasDisks arch m → HasDisks arch (setup_loader k m).1
  setup-HasDisks none h = tt
  setup-HasDisks (some (disks, fs)) h = by_result (setup k disks fs) refl
    where
      by_result :
          (r : Option (Bool × List Disk × Fs))
          → setup k disks fs ≡ r
          → HasDisks arch (after_setup r).1
      by_result none e = tt
      by_result (some (succeeded, disks', fs')) e =
          setup-AreDisks arch k disks disks' fs fs' succeeded h e

  probe-HasDisks :
      (m : Machine)
      → HasDisks arch m
      → HasDisks arch (probe_loader arch m).1 × All AllBoot (probe_loader arch m).0
  probe-HasDisks none h = (tt, tt)
  probe-HasDisks (some (disks, fs)) h = probe-AreDisks arch fs disks h

  teardown-HasDisks : (m : Machine) → HasDisks arch m → HasDisks arch (teardown_loader k m)
  teardown-HasDisks none h = tt
  teardown-HasDisks (some (disks, fs)) h = h

  disk_loader-Keeps : Keeps (disk_loader arch k) (HasDisks arch) AllBoot
  disk_loader-Keeps = record {
    fresh = fresh-HasDisks;
    setup = setup-HasDisks;
    probe = probe-HasDisks;
    teardown = teardown-HasDisks;
  }

  -- In any use of a new loader of disks, unless it panics, its disks are disks with no number twice,
  -- and each entry of a device that it lists can be selected with no panic and is not bad.
  pub perform_all-disk_loader :
      (os : List Op) (m : Machine)
      → let p = disk_loader arch k in
        let l = perform_all p os (new (traced p) (m, [])) in
        HasDisks arch l.inner.0 × All AllBoot l.boot_devices
  perform_all-disk_loader os m =
      perform_all-new (disk_loader arch k) (HasDisks arch) AllBoot disk_loader-Keeps os m
