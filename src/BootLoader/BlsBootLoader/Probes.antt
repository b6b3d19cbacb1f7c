-- ===== src/BootLoader/BlsBootLoader/Probes.antt =====
-- What a probe lists, and what it leaves of the disks.
use mathlib.Core.Path.{subst}
use tinyboot.Prelude.{
  ℕ, false, List, [], ◌∷◌, Option, none, some, ◌≡◌, refl, arith, ◌∙◌, sym, ap, All, Option-cases,
  inl, inr, ◌⊎◌,
}
use tinyboot.Result.{Result-cases}
use tinyboot.Text.{Text}
use tinyboot.Text.Decimal.{to_string}
use tinyboot.FilePath.{append, named}
use tinyboot.Fs.{Fs, read_to_string}
use tinyboot.BootLoader.{BootDevice}
use tinyboot.BootLoader.Entry.{BlsEntry}
use tinyboot.BootLoader.Conf.{parse_loader_conf}
use tinyboot.BootLoader.Disk.{Disk, discover_entries, into_boot_device}
use tinyboot.BootLoader.Disk.Listed.{CanBoot, discover_entries-IsListing, into_boot_device-CanBoot}
use tinyboot.BootLoader.BlsBootLoader.{
  conf_path, disk_mnt_path, has_diskseq, probe_disk, probe, push,
}
use tinyboot.BootLoader.BlsBootLoader.Disks.{IsDisk, AreDisks}

discover_entries-diskseq :
    (arch : Text) (name : Option Text) (fs : Fs) (d : Disk)
    → (discover_entries arch name fs d).diskseq ≡ d.diskseq
unfolding discover_entries
discover_entries-diskseq arch name fs d = ground arith

discover_entries-mountpoint :
    (arch : Text) (name : Option Text) (fs : Fs) (d : Disk)
    → (discover_entries arch name fs d).mountpoint ≡ d.mountpoint
unfolding discover_entries
discover_entries-mountpoint arch name fs d = ground arith

-- A disk with its timeout, and the entries that are found on it.
abbrev probed_disk : Text → Fs → Disk → ℕ → Option Text → Disk
probed_disk arch fs d timeout name = discover_entries arch name fs (record d { timeout = timeout })

module _ (arch : Text) (fs : Fs) where
  probe_disk-cases :
      (d : Disk)
      → (probe_disk arch fs d ≡ (d, none))
        ⊎ ((timeout : ℕ) × (name : Option Text) × (probe_disk arch fs d ≡ (
          probed_disk arch fs d timeout name,
          some (into_boot_device (probed_disk arch fs d timeout name)),
        )))
  unfolding probe_disk
  probe_disk-cases d = elim (Option-cases d.mountpoint) [
    | inl unmounted ↦ inl (ground (arith, unmounted))
    | inr (m, mounted) ↦ elim (Result-cases (read_to_string (append m conf_path) fs)) [
      | inr (e, unread) ↦ inl (ground (arith, mounted, unread))
      | inl (contents, read) ↦ inr (
        (parse_loader_conf contents).timeout,
        (parse_loader_conf contents).default_entry,
        ground (arith, mounted, read),
      )
    ]
  ]

  -- A disk that can follow another one.
  record Follows (d : Disk) (r : Disk × Option (BootDevice BlsEntry)) : Type 0 where
    pub diskseq : r.0.diskseq ≡ d.diskseq
    pub is_disk : IsDisk arch r.0
    pub can_boot : All (λ dev. All CanBoot dev.entries) (push r.1 [])

  probed_disk-IsDisk :
      (d : Disk) (timeout : ℕ) (name : Option Text)
      → IsDisk arch d
      → IsDisk arch (probed_disk arch fs d timeout name)
  probed_disk-IsDisk d timeout name h =
      let d0 : Disk = record d { timeout = timeout } in
      record {
        mounted =
            discover_entries-mountpoint arch name fs d0
            ∙ h.mounted
            ∙ ap (λ (n : ℕ). some (append disk_mnt_path (named (to_string n))))
                (sym (discover_entries-diskseq arch name fs d0));
        listed = discover_entries-IsListing arch name fs d0 h.listed;
      }

  probe_disk-Follows : (d : Disk) → IsDisk arch d → Follows d (probe_disk arch fs d)
  probe_disk-Follows d h = elim (probe_disk-cases d) [
    | inl same ↦
        subst (Follows d) (sym same) (record { diskseq = refl; is_disk = h; can_boot = tt })
    | inr (timeout, name, same) ↦ subst (Follows d) (sym same) (record {
      diskseq = discover_entries-diskseq arch name fs (record d { timeout = timeout });
      is_disk = probed_disk-IsDisk d timeout name h;
      can_boot = (into_boot_device-CanBoot (probed_disk arch fs d timeout name), tt);
    })
  ]

  has_diskseq-probe :
      (n : ℕ) (ds : List Disk)
      → All (IsDisk arch) ds
      → has_diskseq n (probe arch fs ds).1 ≡ has_diskseq n ds
  unfolding probe has_diskseq
  has_diskseq-probe n [] hs = refl
  has_diskseq-probe n (d ∷ ds) hs =
      rw ((probe_disk-Follows d hs.0).diskseq, has_diskseq-probe n ds hs.1)

  push-CanBoot :
      (dev : Option (BootDevice BlsEntry)) (devs : List (BootDevice BlsEntry))
      → All (λ x. All CanBoot x.entries) (push dev [])
      → All (λ x. All CanBoot x.entries) devs
      → All (λ x. All CanBoot x.entries) (push dev devs)
  push-CanBoot none devs h hs = hs
  push-CanBoot (some dev) devs h hs = (h.0, hs)

  -- A probe leaves the disks as disks, and lists devices whose entries can all be selected with no
  -- panic and are not bad.
  pub probe-AreDisks :
      (ds : List Disk)
      → AreDisks arch ds
      → AreDisks arch (probe arch fs ds).1
        × All (λ dev. All CanBoot dev.entries) (probe arch fs ds).0
  unfolding probe
  probe-AreDisks [] h = (record { unrepeated = tt; each = tt }, tt)
  probe-AreDisks (d ∷ ds) h =
      let (later, devs) =
        probe-AreDisks ds (record { unrepeated = h.unrepeated.1; each = h.each.1 }) in
      let follows : Follows d (probe_disk arch fs d) = probe_disk-Follows d h.each.0 in
      let fresh : has_diskseq (probe_disk arch fs d).0.diskseq (probe arch fs ds).1 ≡ false =
        ap (λ (n : ℕ). has_diskseq n (probe arch fs ds).1) follows.diskseq
        ∙ has_diskseq-probe d.diskseq ds h.each.1
        ∙ h.unrepeated.0 in
      (
        record { unrepeated = (fresh, later.unrepeated); each = (follows.is_disk, later.each) },
        push-CanBoot (probe_disk arch fs d).1 (probe arch fs ds).0 follows.can_boot devs,
      )
