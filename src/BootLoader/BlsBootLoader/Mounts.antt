-- ===== src/BootLoader/BlsBootLoader/Mounts.antt =====
-- What a mount leaves of a disk, and of the tree.
use tinyboot.Prelude.{true, false, some, ◌≡◌, refl, arith, ◌∙◌, ap, Option-cases, inl, inr, ◌⊎◌}
use tinyboot.Result.{ok, err, Result-cases}
use tinyboot.Text.{Text}
use tinyboot.FilePath.{FilePath}
use tinyboot.Fs.Laws.{lookup-insert}
use tinyboot.FilePath.Laws.{equal_path_iff}
use tinyboot.Fs.{already_exists, IoError, Fs, dir, create_dir}
use tinyboot.FsType.{as_str, detect_fs_type}
use tinyboot.FsType.Disk.{disk, opened}
use tinyboot.BootLoader.Disk.{Disk}
use tinyboot.BootLoader.BlsBootLoader.{Kernel, mountpoint_of, mount}

-- The disk has its mountpoint.
abbrev pub IsMounted : Disk → Type 0
IsMounted d = d.mountpoint ≡ some (mountpoint_of d)

module _ (k : Kernel) where
  -- A mount fails and leaves the disk as it was, or gives it its mountpoint.
  pub mount-cases :
      (part : FilePath) (d : Disk) (fs : Fs)
      → (((mount k part d fs).0 ≡ false) × ((mount k part d fs).1 ≡ d))
        ⊎ (((mount k part d fs).0 ≡ true)
            × ((mount k part d fs).1 ≡ record d { mountpoint = some (mountpoint_of d) }))
  unfolding mount
  mount-cases part d fs = elim (Result-cases (create_dir (mountpoint_of d) fs).0) [
    | inr (e, bad) ↦ inl (rw (bad, mount), rw (bad, mount))
    | inl (u, made) ↦ elim (Result-cases (k.open_device part (create_dir (mountpoint_of d) fs).1)) [
      | inr (e, bad) ↦ inl (rw (made, bad, mount), rw (made, bad, mount))
      | inl (bytes, open_bytes) ↦ elim (Option-cases (detect_fs_type disk (opened bytes))) [
        | inl unknown ↦
            inl (rw (made, open_bytes, unknown, mount), rw (made, open_bytes, unknown, mount))
        | inr (t, known) ↦
            elim (Result-cases
              (k.mount part (mountpoint_of d) (as_str t) (create_dir (mountpoint_of d) fs).1).0) [
                | inr (e, bad) ↦ inl (
                  rw (made, open_bytes, known, bad, mount),
                  rw (made, open_bytes, known, bad, mount),
                )
                | inl (v, good) ↦ inr (
                  rw (made, open_bytes, known, good, mount),
                  rw (made, open_bytes, known, good, mount),
                )
              ]
      ]
    ]
  ]

-- A mount that fails changes no file.
abbrev pub FailsCleanly : Kernel → Type 0
FailsCleanly k =
    (part mountpoint : FilePath) (t : Text) (fs : Fs) (e : IoError)
    → (k.mount part mountpoint t fs).0 ≡ err e
    → (k.mount part mountpoint t fs).1 ≡ fs

-- A directory that was made cannot be made again.
create_dir-again :
    (p : FilePath) (fs : Fs)
    → (create_dir p fs).0 ≡ ok tt
    → (create_dir p (create_dir p fs).1).0 ≡ err already_exists
unfolding create_dir
create_dir-again p fs h = ground (arith, lookup-insert p p dir fs, (equal_path_iff p p).1 refl)

mount-exists :
    (k : Kernel) (part : FilePath) (d : Disk) (fs : Fs)
    → (create_dir (mountpoint_of d) fs).0 ≡ err already_exists
    → (mount k part d fs).0 ≡ false
unfolding mount
mount-exists k part d fs h = rw (h, mount)

module _ (k : Kernel) (clean : FailsCleanly k) where
  -- What a mount that fails leaves in the tree.
  mount-leaves :
      (part : FilePath) (d : Disk) (fs : Fs)
      → (mount k part d fs).0 ≡ false
      → (mount k part d fs).2 ≡ (create_dir (mountpoint_of d) fs).1
  unfolding mount
  mount-leaves part d fs h = elim (Result-cases (create_dir (mountpoint_of d) fs).0) [
    | inr (e, bad) ↦ rw (bad, mount)
    | inl (u, made) ↦ elim (Result-cases (k.open_device part (create_dir (mountpoint_of d) fs).1)) [
      | inr (e, bad) ↦ rw (made, bad, mount)
      | inl (bytes, open_bytes) ↦ elim (Option-cases (detect_fs_type disk (opened bytes))) [
        | inl unknown ↦ rw (made, open_bytes, unknown, mount)
        | inr (t, known) ↦
            elim (Result-cases
              (k.mount part (mountpoint_of d) (as_str t) (create_dir (mountpoint_of d) fs).1).0) [
                | inr (e, bad) ↦
                    rw (made, open_bytes, known, bad, mount)
                      (clean part (mountpoint_of d) (as_str t) (create_dir (mountpoint_of d) fs).1 e
                        bad)
                | inl (v, good) ↦ cc (rw (made, open_bytes, known, good, mount) at h)
              ]
      ]
    ]
  ]

  -- A disk whose mount failed behind the making of its directory cannot be mounted any more, even
  -- where nothing is wrong with it now: the directory is left, and it cannot be made again.
  mount_again :
      (part : FilePath) (d : Disk) (fs : Fs)
      → (create_dir (mountpoint_of d) fs).0 ≡ ok tt
      → (mount k part d fs).0 ≡ false
      → (later : Kernel) → (mount later part d (mount k part d fs).2).0 ≡ false
  mount_again part d fs made failed later = mount-exists later part d (mount k part d fs).2 (
      ap (λ (x : Fs). (create_dir (mountpoint_of d) x).0) (mount-leaves part d fs failed)
      ∙ create_dir-again (mountpoint_of d) fs made)
