-- ===== src/BootLoader/Disk/Listed.antt =====
-- The entries that a disk lists, and those that a user can choose from.
use tinyboot.Prelude.{
  List, [], ◌∷◌, Option, none, some, ◌≡◌, ◌≢◌, arith, All, All-append, Bool-cases, Option-cases,
  inl, inr,
}
use mathlib.Core.Path.{subst}
use tinyboot.Result.{ok, Result-cases, ok-injective}
use tinyboot.Text.{Text}
use tinyboot.FilePath.{FilePath, append}
use tinyboot.Fs.{Fs, read_to_string, read_dir, is_file}
use tinyboot.BootLoader.Entry.{BlsEntry, parse_entry_conf, try_into, select, is_zero}
use tinyboot.BootLoader.Disk.{
  Disk, sort_entries, has_name, names_entry, runs_on, add_entry, discover_path, discover_paths,
  discover_entries, entries_srel, entry_dir, other_type, accepted, into_boot_device,
}
use tinyboot.BootLoader.Disk.Rank.{Ranked, Sorted-Ranked, SuitsOption, runs_on-Suits}
use tinyboot.BootLoader.Disk.Order.{
  Sorted-sort_entries, All-sort_entries, Distinct, Distinct-sort_entries, Distinct-concat,
}

-- An entry that is meant for the running architecture, if it names one that is known.
abbrev Runs : Text → BlsEntry → Type 0
Runs arch e = SuitsOption e.architecture arch

module _ (arch : Text) where
  add_entry-Distinct :
      (e : BlsEntry) (es : List BlsEntry) → Distinct es → Distinct (add_entry arch e es)
  unfolding add_entry
  add_entry-Distinct e es s = elim (Bool-cases (has_name e.name es)) [
    | inl there ↦ rw (there, add_entry) s
    | inr fresh ↦ elim (Bool-cases (runs_on e.architecture arch)) [
      | inl runs ↦ rw (fresh, runs, add_entry) (Distinct-concat es e fresh s)
      | inr other ↦ rw (fresh, other, add_entry) s
    ]
  ]

  add_entry-Runs :
      (e : BlsEntry) (es : List BlsEntry)
      → All (Runs arch) es
      → All (Runs arch) (add_entry arch e es)
  unfolding add_entry
  add_entry-Runs e es s = elim (Bool-cases (has_name e.name es)) [
    | inl there ↦ rw (there, add_entry) s
    | inr fresh ↦ elim (Bool-cases (runs_on e.architecture arch)) [
      | inl runs ↦
          rw (fresh, runs, add_entry)
            (All-append (Runs arch) es (e ∷ []) s (runs_on-Suits e.architecture arch runs, tt))
      | inr other ↦ rw (fresh, other, add_entry) s
    ]
  ]

  -- What `add_entry` keeps, the loop over the directory keeps.
  module _ (P : List BlsEntry → Type 0)
      (kept : (e : BlsEntry) (es : List BlsEntry) → P es → P (add_entry arch e es)) (m : FilePath)
      (default_name : Option Text) (fs : Fs) where
    keeps-discover_path :
        (path : FilePath) (es : List BlsEntry)
        → P es
        → P (discover_path arch m default_name fs path es)
    unfolding discover_path
    keeps-discover_path path es h = elim (Bool-cases (is_file path fs)) [
      | inr other ↦ rw (other, discover_path) h
      | inl yes_file ↦ elim (Result-cases (read_to_string path fs)) [
        | inr (bad, unread) ↦ rw (yes_file, unread, discover_path) h
        | inl (contents, read) ↦ elim (Result-cases (parse_entry_conf m path contents)) [
          | inr (bad, refused) ↦ rw (yes_file, read, refused, discover_path) h
          | inl (e, parsed) ↦
              rw (yes_file, read, parsed, discover_path)
                (kept (record e { is_default = names_entry e.name default_name }) es h)
        ]
      ]
    ]

    keeps-discover_paths :
        (paths : List FilePath) (es : List BlsEntry)
        → P es
        → P (discover_paths arch m default_name fs paths es)
    unfolding discover_paths
    keeps-discover_paths [] es h = h
    keeps-discover_paths (path ∷ paths) es h =
        keeps-discover_paths paths (discover_path arch m default_name fs path es)
          (keeps-discover_path path es h)

-- No two entries have the same name, they are ranked, and each is for the running architecture, if
-- it names one that is known.
pub record IsListing (arch : Text) (es : List BlsEntry) : Type 0 where
  pub distinct : Distinct es
  pub ranked : Ranked es
  pub running : All (Runs arch) es

pub discover_entries-IsListing :
    (arch : Text) (default_name : Option Text) (fs : Fs) (d : Disk)
    → IsListing arch d.entries
    → IsListing arch (discover_entries arch default_name fs d).entries
unfolding discover_entries
discover_entries-IsListing arch default_name fs d h = elim (Option-cases d.mountpoint) [
  | inl unmounted ↦ rw (unmounted, discover_entries) h
  | inr (m, mounted) ↦ elim (Bool-cases (other_type (read_to_string (append m entries_srel) fs))) [
    | inl other ↦ rw (mounted, other, discover_entries) h
    | inr own ↦ elim (Result-cases (read_dir (append m entry_dir) fs)) [
      | inr (bad, unread) ↦ rw (mounted, own, unread, discover_entries) h
      | inl (paths, read) ↦
          let found : List BlsEntry = discover_paths arch m default_name fs paths d.entries in
          rw (mounted, own, read, discover_entries)
            (record {
              distinct = Distinct-sort_entries found (
                  keeps-discover_paths arch Distinct (add_entry-Distinct arch) m default_name fs
                    paths d.entries h.distinct);
              ranked = Sorted-Ranked (sort_entries found) (Sorted-sort_entries found);
              running = All-sort_entries (Runs arch) found (
                  keeps-discover_paths arch (All (Runs arch)) (add_entry-Runs arch) m default_name
                    fs paths d.entries h.running);
            })
    ]
  ]
]

-- An entry that `select` can boot, and that has tries left, if it counts them.
pub record CanBoot (e : BlsEntry) : Type 0 where
  pub has_linux : (fs : Fs) → select e fs ≢ none
  pub has_tries : e.tries_left ≢ some 0

select-ne-none : (e : BlsEntry) (l : FilePath) → e.linux ≡ some l → (fs : Fs) → select e fs ≢ none
unfolding select
select-ne-none e l h fs none_selected = cc (rw (h, select) at none_selected)

try_into-CanBoot : (e e' : BlsEntry) → try_into e ≡ ok e' → CanBoot e'
unfolding try_into
try_into-CanBoot e e' h = elim (Option-cases e.efi) [
  | inr (x, efi) ↦ cc (rw (efi, try_into) at h)
  | inl no_efi ↦ elim (Option-cases e.linux) [
    | inl no_linux ↦ cc (rw (no_efi, no_linux, try_into) at h)
    | inr (l, linux) ↦ elim (Bool-cases (is_zero e.tries_left)) [
      | inl bad ↦ cc (rw (no_efi, linux, bad, try_into) at h)
      | inr fine ↦
          subst CanBoot (ok-injective (rw (no_efi, linux, fine, try_into) at h))
            (record { has_linux = select-ne-none e l linux; has_tries = λ z. ground arith })
    ]
  ]
]

accepted-CanBoot : (es : List BlsEntry) → All CanBoot (accepted es)
unfolding accepted
accepted-CanBoot [] = tt
accepted-CanBoot (e ∷ es) = elim (Result-cases (try_into e)) [
  | inl (e', good) ↦ rw (good, accepted) (try_into-CanBoot e e' good, accepted-CanBoot es)
  | inr (bad, refused) ↦ rw (refused, accepted) (accepted-CanBoot es)
]

-- Each entry of a boot device can be selected with no panic, and is not bad.
pub into_boot_device-CanBoot : (d : Disk) → All CanBoot (into_boot_device d).entries
unfolding into_boot_device
into_boot_device-CanBoot d = accepted-CanBoot d.entries
