-- ===== src/System/Tests.antt =====
-- Logs of the kernel, and a system that is set up.
use tinyboot.FilePath.{FilePath, append, equal_path, equal_parts, parent}
use tinyboot.Fs.{file, dir, lookup, insert, create_dir_all, create_dirs, create_new}
use tinyboot.Dev.Devices.{DevTree, link}
use tinyboot.System.Setup.{
  MsFlag, path, proc_fd, in_dev, setup_steps, perform, perform_all, setup_system,
}
use tinyboot.System.Visible.{setup_system-links}
use tinyboot.Prelude.{
  ℕ, Bool, true, false, List, [], ◌∷◌, Option, none, some, ◌≡◌, refl, arith, ap, sym,
  some-injective,
}
use tinyboot.Result.{ok, err}
use tinyboot.Text.{Text, codes, equal, split}
use tinyboot.System.{
  logs, failed, panicked, max_level, line_level, filter_line, fold_lines, remove, kernel_logs,
}
use tinyboot.System.Log.{Entry, log, shown, shown_as, kernel_logs-log}

abbrev booting : List Entry
booting =
    record { level = 6; head = b'a'; tail = codes "b" }
    ∷ record { level = 3; head = b'c'; tail = [] }
    ∷ record { level = 4; head = b'd'; tail = [] }
    ∷ []

kernel_logs-log_example :
    kernel_logs {E = ℕ} (λ bytes. true) (ok (log booting)) 4
    ≡ shown_as (λ bytes. true) (shown 4 booting)
kernel_logs-log_example =
    kernel_logs-log (λ bytes. true) 4 booting
      (
        record { digit = omega arith; one_line = (refl, (refl, tt)) },
        (
          record { digit = omega arith; one_line = (refl, tt) },
          (record { digit = omega arith; one_line = (refl, tt) }, tt),
        ),
      )

two_lines :
    kernel_logs {E = ℕ} (λ bytes. true) (ok (codes "<6>ab\n<3>c\n<4>d\n")) 4 ≡ logs (codes "c\nd")
unfolding kernel_logs remove fold_lines split filter_line line_level max_level
two_lines = refl

nothing_to_show : kernel_logs {E = ℕ} (λ bytes. true) (ok (codes "<6>ab\n")) 4 ≡ panicked
unfolding kernel_logs remove fold_lines split filter_line line_level max_level
nothing_to_show = refl

no_permission : kernel_logs {E = ℕ} (λ bytes. true) (err 1) 4 ≡ failed 1
unfolding kernel_logs
no_permission = refl

-- A priority with a facility, which takes two digits, is read as its first one.
of_a_daemon : kernel_logs {E = ℕ} (λ bytes. true) (ok (codes "<30>e\n")) 4 ≡ logs (codes ">e")
unfolding kernel_logs remove fold_lines split filter_line line_level max_level
of_a_daemon = refl

-- A kernel whose mounts show what is there already.
abbrev mount : FilePath → Text → List MsFlag → DevTree → Option DevTree
mount p fstype flags t = some t

abbrev set_permissions : FilePath → ℕ → DevTree → Option DevTree
set_permissions p mode t = some t

-- The tree has the directory of securityfs, which sysfs brings.
abbrev at_start : DevTree
at_start =
    (path (codes "sys" ∷ []), dir)
    ∷ (path (codes "sys" ∷ codes "kernel" ∷ []), dir)
    ∷ (path (codes "sys" ∷ codes "kernel" ∷ codes "security" ∷ []), dir)
    ∷ []

abbrev tree_after : Option DevTree → DevTree
tree_after none = []
tree_after (some t) = t

abbrev is_up : Option DevTree → Bool
is_up none = false
is_up (some t) = true

is_up-some : (o : Option DevTree) → is_up o ≡ true → o ≡ some (tree_after o)
is_up-some none h = cc
is_up-some (some t) h = refl

abbrev ready : Option DevTree
ready = setup_system mount set_permissions at_start

ready-is_up : is_up ready ≡ true
unfolding setup_steps perform perform_all create_dir_all create_dirs create_new lookup insert append
    equal_path equal_parts equal parent
ready-is_up = refl

setup_system-links_example :
    (lookup (in_dev (codes "stdin")) (tree_after ready) ≡ some (file (link (proc_fd (codes "0")))))
    × (lookup (in_dev (codes "stdout")) (tree_after ready)
        ≡ some (file (link (proc_fd (codes "1")))))
    × (lookup (in_dev (codes "stderr")) (tree_after ready)
        ≡ some (file (link (proc_fd (codes "2")))))
setup_system-links_example =
    setup_system-links mount set_permissions
      (λ p fstype flags t t' h q free. ap (lookup q) (sym (some-injective h)))
      (λ p mode t t' h q. ap (lookup q) (sym (some-injective h))) at_start (tree_after ready)
      (is_up-some ready ready-is_up)
