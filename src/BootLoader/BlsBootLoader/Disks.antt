-- ===== src/BootLoader/BlsBootLoader/Disks.antt =====
-- The disks of the loader: none twice, each with its mountpoint and its listing.
use mathlib.Core.Path.{subst}
use tinyboot.Prelude.{
  ℕ, Bool, true, false, ◌&&◌, ◌||◌, not, List, [], ◌∷◌, ◌++◌, Option, none, some, if◌then◌else◌,
  ◌==◌, ◌≡◌, refl, arith, ◌∙◌, sym, ap, All, All-append, Bool-cases, Option-cases, inl, inr,
  some-injective,
}
use tinyboot.Result.{Result-cases}
use tinyboot.Text.{Text, codes}
use tinyboot.Text.Decimal.{to_string}
use tinyboot.Dev.{get, parse_uevent}
use tinyboot.FilePath.{FilePath, append, named, from_text}
use tinyboot.Fs.{Fs, read_to_string, read_dir, create_dir_all}
use tinyboot.BootLoader.Disk.{Disk, new}
use tinyboot.BootLoader.Disk.Listed.{IsListing}
use tinyboot.BootLoader.BlsBootLoader.{
  dev_part_path, dev_path, Kernel, mountpoint_of, disk_mnt_path, block_class_path, has_diskseq,
  insert_disk, sort_disks, mount, add_disk, setup_disk, setup_device, setup_devices, setup,
  boot_part_idx, diskseq_of,
}
use tinyboot.BootLoader.BlsBootLoader.Mounts.{IsMounted, mount-cases}

-- No two disks have the same number.
abbrev Unrepeated : List Disk → Type 0
Unrepeated [] = Unit
Unrepeated (d ∷ ds) = (has_diskseq d.diskseq ds ≡ false) × Unrepeated ds

has_diskseq-concat :
    (n : ℕ) (ds : List Disk) (d : Disk)
    → has_diskseq n (ds ++ d ∷ []) ≡ (has_diskseq n ds || (d.diskseq == n))
unfolding has_diskseq
has_diskseq-concat n [] d = ground arith
has_diskseq-concat n (x ∷ ds) d = ground (arith, has_diskseq-concat n ds d)

Unrepeated-concat :
    (ds : List Disk) (d : Disk)
    → has_diskseq d.diskseq ds ≡ false
    → Unrepeated ds
    → Unrepeated (ds ++ d ∷ [])
unfolding has_diskseq
Unrepeated-concat [] d h u = (refl, tt)
Unrepeated-concat (x ∷ ds) d h u =
    let here : has_diskseq x.diskseq (ds ++ d ∷ []) ≡ false =
      ground (arith, has_diskseq-concat x.diskseq ds d, u.0) in
    let later : has_diskseq d.diskseq ds ≡ false = ground arith in
    (here, Unrepeated-concat ds d later u.1)

has_diskseq-insert_disk :
    (n : ℕ) (x : Disk) (ys : List Disk)
    → has_diskseq n (insert_disk x ys) ≡ (if x.diskseq == n then true else has_diskseq n ys)
unfolding has_diskseq insert_disk
has_diskseq-insert_disk n x [] = refl
has_diskseq-insert_disk n x (y ∷ ys) = ground (arith, has_diskseq-insert_disk n x ys)

Unrepeated-insert_disk :
    (x : Disk) (ys : List Disk)
    → has_diskseq x.diskseq ys ≡ false
    → Unrepeated ys
    → Unrepeated (insert_disk x ys)
unfolding insert_disk has_diskseq
Unrepeated-insert_disk x [] h u = (refl, tt)
Unrepeated-insert_disk x (y ∷ ys) h u =
    let later : has_diskseq x.diskseq ys ≡ false = ground arith in
    let here : has_diskseq y.diskseq (insert_disk x ys) ≡ false =
      ground (arith, has_diskseq-insert_disk y.diskseq x ys, u.0) in
    elim (Bool-cases (not x.removable && y.removable)) [
      | inl behind ↦ rw (behind, insert_disk) (here, Unrepeated-insert_disk x ys later u.1)
      | inr before ↦ rw (before, insert_disk) (h, u)
    ]

module _ (P : Disk → Type 0) where
  All-insert_disk : (x : Disk) (ys : List Disk) → P x → All P ys → All P (insert_disk x ys)
  unfolding insert_disk
  All-insert_disk x [] h hs = (h, tt)
  All-insert_disk x (y ∷ ys) h hs = elim (Bool-cases (not x.removable && y.removable)) [
    | inl behind ↦ rw (behind, insert_disk) (hs.0, All-insert_disk x ys h hs.1)
    | inr before ↦ rw (before, insert_disk) (h, hs)
  ]

  All-sort_disks : (ds : List Disk) → All P ds → All P (sort_disks ds)
  unfolding sort_disks
  All-sort_disks [] hs = tt
  All-sort_disks (d ∷ ds) hs = All-insert_disk d (sort_disks ds) hs.0 (All-sort_disks ds hs.1)

has_diskseq-sort_disks : (n : ℕ) (ds : List Disk) → has_diskseq n (sort_disks ds) ≡ has_diskseq n ds
unfolding sort_disks has_diskseq
has_diskseq-sort_disks n [] = refl
has_diskseq-sort_disks n (d ∷ ds) =
    ground (arith, has_diskseq-insert_disk n d (sort_disks ds), has_diskseq-sort_disks n ds)

Unrepeated-sort_disks : (ds : List Disk) → Unrepeated ds → Unrepeated (sort_disks ds)
unfolding sort_disks
Unrepeated-sort_disks [] u = tt
Unrepeated-sort_disks (d ∷ ds) u =
    Unrepeated-insert_disk d (sort_disks ds) (has_diskseq-sort_disks d.diskseq ds ∙ u.0)
      (Unrepeated-sort_disks ds u.1)

-- The disk has its mountpoint, and its entries are a listing.
pub record IsDisk (arch : Text) (d : Disk) : Type 0 where
  pub mounted : IsMounted d
  pub listed : IsListing arch d.entries

pub record AreDisks (arch : Text) (ds : List Disk) : Type 0 where
  pub unrepeated : Unrepeated ds
  pub each : All (IsDisk arch) ds

module _ (arch : Text) (k : Kernel) where
  -- A new disk that was mounted.
  mounted-IsDisk :
      (part device_path : FilePath) (n : ℕ) (fs : Fs)
      → (mount k part (new n device_path fs) fs).0 ≡ true
      → IsDisk arch (mount k part (new n device_path fs) fs).1
        × ((mount k part (new n device_path fs) fs).1.diskseq ≡ n)
  unfolding new
  mounted-IsDisk part device_path n fs h = elim (mount-cases k part (new n device_path fs) fs) [
    | inl (failed, same) ↦ cc (failed, h)
    | inr (good, given) ↦ (
      record {
        mounted =
            ap (λ (x : Disk). x.mountpoint) given
            ∙ sym (ap (λ (x : Disk). some (mountpoint_of x)) given);
        listed =
            subst (IsListing arch) (sym (ap (λ (x : Disk). x.entries) given))
              (record { distinct = tt; ranked = tt; running = tt });
      },
      ap (λ (x : Disk). x.diskseq) given,
    )
  ]

  add_disk-AreDisks :
      (n : ℕ) (device_path : FilePath) (idx : ℕ) (ds : List Disk) (fs : Fs)
      → AreDisks arch ds
      → AreDisks arch (add_disk k n device_path idx ds fs).0
  unfolding add_disk
  add_disk-AreDisks n device_path idx ds fs h =
      let part : FilePath =
        append (append dev_part_path (named (to_string n))) (named (to_string idx)) in
      let d : Disk = (mount k part (new n device_path fs) fs).1 in
      elim (Bool-cases (mount k part (new n device_path fs) fs).0) [
        | inr failed ↦ rw (failed, add_disk) h
        | inl good ↦ elim (Bool-cases (has_diskseq n ds)) [
          | inl there ↦ rw (good, there, add_disk) h
          | inr fresh ↦
              let (is_disk, number) = mounted-IsDisk part device_path n fs good in
              let fresh' : has_diskseq d.diskseq ds ≡ false =
                ap (λ (m : ℕ). has_diskseq m ds) number ∙ fresh in
              rw (good, fresh, add_disk)
                (record {
                  unrepeated = Unrepeated-concat ds d fresh' h.unrepeated;
                  each = All-append (IsDisk arch) ds (d ∷ []) h.each (is_disk, tt);
                })
        ]
      ]

  -- What a step leaves, if it does not panic.
  abbrev Stays : Option (List Disk × Fs) → Type 0
  Stays none = Unit
  Stays (some (ds, fs)) = AreDisks arch ds

  setup_disk-Stays :
      (path device_path : FilePath) (n : ℕ) (ds : List Disk) (fs : Fs)
      → AreDisks arch ds
      → Stays (setup_disk k path device_path n ds fs)
  unfolding setup_disk
  setup_disk-Stays path device_path n ds fs h =
      elim (Result-cases (read_to_string (append path (named (codes "uevent"))) fs)) [
        | inr (e, bad) ↦ rw (bad, setup_disk) tt
        | inl (contents, read) ↦
            elim (Option-cases (get (codes "DEVNAME") (parse_uevent contents))) [
              | inl no_name ↦ rw (read, no_name, setup_disk) h
              | inr (devname, named_so) ↦
                  elim (Option-cases (boot_part_idx k (append dev_path (from_text devname)) fs)) [
                    | inl no_part ↦ rw (read, named_so, no_part, setup_disk) h
                    | inr (idx, found) ↦
                        rw (read, named_so, found, setup_disk)
                          (add_disk-AreDisks n device_path idx ds fs h)
                  ]
            ]
      ]

  setup_device-Stays :
      (path : FilePath) (ds : List Disk) (fs : Fs)
      → AreDisks arch ds
      → Stays (setup_device k path ds fs)
  unfolding setup_device
  setup_device-Stays path ds fs h = elim (Result-cases (k.canonicalize path fs)) [
    | inr (e, bad) ↦ rw (bad, setup_device) tt
    | inl (real, found) ↦ elim (Bool-cases (k.metadata (append real (named (codes "device"))) fs)) [
      | inr no_device ↦ rw (found, no_device, setup_device) h
      | inl device ↦
          elim (Result-cases (k.canonicalize (append real (named (codes "device"))) fs)) [
            | inr (e, bad) ↦ rw (found, device, bad, setup_device) tt
            | inl (device_path, good) ↦ elim (Option-cases (diskseq_of k real fs)) [
              | inl no_number ↦ rw (found, device, good, no_number, setup_device) h
              | inr (n, number) ↦
                  rw (found, device, good, number, setup_device)
                    (setup_disk-Stays real device_path n ds fs h)
            ]
          ]
    ]
  ]

  setup_devices-Stays :
      (paths : List FilePath) (ds : List Disk) (fs : Fs)
      → AreDisks arch ds
      → Stays (setup_devices k paths ds fs)
  unfolding setup_devices
  setup_devices-Stays [] ds fs h = h
  setup_devices-Stays (path ∷ paths) ds fs h = elim (Option-cases (setup_device k path ds fs)) [
    | inl panics ↦ rw (panics, setup_devices) tt
    | inr ((ds', fs'), goes_on) ↦
        rw (goes_on, setup_devices)
          (setup_devices-Stays paths ds' fs'
            (subst Stays goes_on (setup_device-Stays path ds fs h)))
  ]

  same_disks :
      {b c : Bool} {ds ds' : List Disk} {fs fs' : Fs}
      → ◌≡◌ {A = Option (Bool × List Disk × Fs)} (some (b, ds, fs)) (some (c, ds', fs'))
      → ds ≡ ds'
  same_disks e = ap (λ (x : Bool × List Disk × Fs). x.1) (some-injective e)

  -- The disks behind a setup that does not panic, whether it succeeds or not, are disks again: no
  -- disk is there twice, each has the mountpoint of its number, and its entries are a listing.
  pub setup-AreDisks :
      (ds ds' : List Disk) (fs fs' : Fs) (succeeded : Bool)
      → AreDisks arch ds
      → setup k ds fs ≡ some (succeeded, ds', fs')
      → AreDisks arch ds'
  unfolding setup
  setup-AreDisks ds ds' fs fs' succeeded h r =
      elim (Result-cases (create_dir_all disk_mnt_path fs).0) [
        | inr (e, bad) ↦ cc (rw (bad, setup) at r)
        | inl (u, made) ↦
            elim (Result-cases (read_dir block_class_path (create_dir_all disk_mnt_path fs).1)) [
              | inr (e, bad) ↦ subst (AreDisks arch) (same_disks (rw (made, bad, setup) at r)) h
              | inl (paths, read) ↦
                  elim (Option-cases
                    (setup_devices k paths ds (create_dir_all disk_mnt_path fs).1)) [
                      | inl panics ↦ cc (rw (made, read, panics, setup) at r)
                      | inr ((found, fs''), goes_on) ↦
                          let stays : AreDisks arch found =
                            subst Stays goes_on (
                              setup_devices-Stays paths ds (create_dir_all disk_mnt_path fs).1 h) in
                          subst (AreDisks arch) (same_disks (rw (made, read, goes_on, setup) at r))
                            (record {
                              unrepeated = Unrepeated-sort_disks found stays.unrepeated;
                              each = All-sort_disks (IsDisk arch) found stays.each;
                            })
                    ]
            ]
      ]
