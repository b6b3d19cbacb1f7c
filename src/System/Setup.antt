-- ===== src/System/Setup.antt =====
-- `setup_system` of tboot/src/system.rs: the directories, mounts and links of a new system.
use tinyboot.Prelude.{ℕ, true, List, [], ◌∷◌, Option, some, ◌>>=◌}
use tinyboot.Text.{Text, codes}
use tinyboot.FilePath.{FilePath}
use tinyboot.Fs.{create_dir_all, create_new}
use tinyboot.Dev.Devices.{DevTree, link, unwrap}

pub data MsFlag : Type 0 where
  ms_nosuid ms_nodev ms_noexec ms_relatime ms_silent : MsFlag

-- The system calls of `setup_system`, in their order.
pub data Step : Type 0 where
  make_dir : FilePath → Step
  mount_at : FilePath → Text → List MsFlag → Step
  symlink_at : FilePath → FilePath → Step
  set_mode : FilePath → ℕ → Step

abbrev pub path : List Text → FilePath
path parts = record { absolute = true; parts = parts }

abbrev pub proc_fd : Text → FilePath
proc_fd n = path (codes "proc" ∷ codes "self" ∷ codes "fd" ∷ n ∷ [])

abbrev pub in_dev : Text → FilePath
in_dev name = path (codes "dev" ∷ name ∷ [])

unfoldable pub setup_steps : List Step
setup_steps =
    make_dir (path (codes "proc" ∷ []))
    ∷ make_dir (path (codes "sys" ∷ []))
    ∷ make_dir (path (codes "dev" ∷ []))
    ∷ make_dir (path (codes "run" ∷ []))
    ∷ make_dir (path (codes "mnt" ∷ []))
    ∷ mount_at (path (codes "proc" ∷ [])) (codes "proc") (ms_nosuid ∷ ms_nodev ∷ ms_noexec ∷ [])
    ∷ mount_at (path (codes "dev" ∷ [])) (codes "devtmpfs") (ms_silent ∷ ms_nosuid ∷ ms_noexec ∷ [])
    ∷ mount_at (path (codes "sys" ∷ [])) (codes "sysfs")
        (ms_nosuid ∷ ms_nodev ∷ ms_noexec ∷ ms_relatime ∷ [])
    ∷ mount_at (path (codes "sys" ∷ codes "kernel" ∷ codes "security" ∷ [])) (codes "securityfs")
        (ms_nosuid ∷ ms_nodev ∷ ms_noexec ∷ ms_relatime ∷ [])
    ∷ symlink_at (proc_fd (codes "0")) (in_dev (codes "stdin"))
    ∷ symlink_at (proc_fd (codes "1")) (in_dev (codes "stdout"))
    ∷ symlink_at (proc_fd (codes "2")) (in_dev (codes "stderr"))
    ∷ mount_at (path (codes "run" ∷ [])) (codes "tmpfs") (ms_nosuid ∷ ms_nodev ∷ [])
    ∷ set_mode (path (codes "run" ∷ [])) 0o777
    ∷ make_dir (path (codes "run" ∷ codes "lock" ∷ []))
    ∷ make_dir (in_dev (codes "pts"))
    ∷ mount_at (in_dev (codes "pts")) (codes "devpts") (ms_nosuid ∷ ms_noexec ∷ ms_relatime ∷ [])
    ∷ []

-- The kernel: a mount and a change of permissions, on the tree; `none` is a failure, which panics.
module _ (mount : FilePath → Text → List MsFlag → DevTree → Option DevTree)
    (set_permissions : FilePath → ℕ → DevTree → Option DevTree) where
  unfoldable pub perform : Step → DevTree → Option DevTree
  perform (make_dir p) t = unwrap (create_dir_all p t)
  perform (mount_at p fstype flags) t = mount p fstype flags t
  perform (symlink_at target p) t = unwrap (create_new p (link target) t)
  perform (set_mode p mode) t = set_permissions p mode t

  unfoldable pub perform_all : List Step → DevTree → Option DevTree
  perform_all [] t = some t
  perform_all (s ∷ ss) t = perform s t >>= perform_all ss

  abbrev pub setup_system : DevTree → Option DevTree
  setup_system t = perform_all setup_steps t
