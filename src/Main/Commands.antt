-- ===== src/Main/Commands.antt =====
-- `handle_commands` of main.rs.
pub mod Laws
pub mod Chosen
use tinyboot.Prelude.{
  ℕ, zero, suc, ◌+◌, Bool, true, false, List, [], ◌∷◌, ◌++◌, Option, none, some, if◌then◌else◌,
  find, get_elem?, first,
}
use tinyboot.Text.{Text}
use tinyboot.BootLoader.{LoaderType, disk, BootDevice, Platform}
use tinyboot.BootLoader.Loader.{Loader, new, probe, boot_devices, shutdown}
use tinyboot.Cmd.{Command, Topic, print_help, loader, help, list, boot, dmesg, rescan, shell}
use tinyboot.Main.Messages.{
  ClientToServer, user_is_present, command, ServerToClient, server_is_ready, stop, Outcome, reboot,
  poweroff, kexec, Host,
}
use tinyboot.Main.Autoboot.{boot_entry}

-- What is printed, or logged.
pub data Line : Type 0 where
  no_loader_selected rescan_failed no_devices cannot_select load_failed : Line
  kernel_logs : ℕ → Line
  usage : Topic → Line
  device entry : ℕ → Text → Line
  selected : Text → Line
  using : LoaderType → Line

module _ (p : Platform) (h : Host p) where
  -- The variable `loader`, and the machine where there is none.
  pub data Current : Type 0 where
    no_loader : p.State → Current
    current : Loader p → Current

  abbrev pub state_of : Current → p.State
  state_of (no_loader s) = s
  state_of (current l) = l.inner

  -- The end of the variable's life.
  unfoldable pub drop_current : Current → Current
  drop_current (no_loader s) = no_loader s
  drop_current (current l) = current (shutdown p l)

  -- The value at an index that counts from 1; no index and the index 0 are the fallback.
  unfoldable pub at_index {ℓ} : {A : Type ℓ} → List A → Option A → Option ℕ → Option A
  at_index xs fallback none = fallback
  at_index xs fallback (some zero) = fallback
  at_index xs fallback (some (suc i)) = get_elem? xs i

  unfoldable pub select_entry : List (BootDevice p.Entry) → Option ℕ → Option ℕ → Option p.Entry
  select_entry devs dev_idx entry_idx = elim (at_index devs (first devs) dev_idx) [
    | none ↦ none
    | some boot_dev ↦ at_index boot_dev.entries (find p.is_default boot_dev.entries) entry_idx
  ]

  pub entry_lines : ℕ → List p.Entry → List Line
  entry_lines n [] = []
  entry_lines n (e ∷ es) = entry n (p.show e) ∷ entry_lines (n + 1) es

  pub device_lines : ℕ → List (BootDevice p.Entry) → List Line
  device_lines n [] = []
  device_lines n (d ∷ ds) = device n d.name ∷ (entry_lines 1 d.entries ++ device_lines (n + 1) ds)

  -- After a message the loop goes on, or ends with `Stop` sent and an outcome.
  pub data Step : Type 0 where
    continue : List Line → Current → Step
    finish : List Line → Outcome → Current → Step

  unfoldable pub boot_selected : Loader p → Option p.Entry → Step
  boot_selected l none = continue (cannot_select ∷ []) (current l)
  boot_selected l (some e) =
      let (loaded, s) = boot_entry p h e l.inner in
      if loaded
      then finish (selected (p.show e) ∷ []) kexec (current (record l { inner = s }))
      else continue (selected (p.show e) ∷ load_failed ∷ []) (current (record l { inner = s }))

  unfoldable pub handle_boot : Option ℕ → Option ℕ → Current → Step
  handle_boot dev_idx entry_idx (no_loader s) = continue (no_loader_selected ∷ []) (no_loader s)
  handle_boot dev_idx entry_idx (current l) =
      let (succeeded, l') = boot_devices p l in
      if succeeded
      then boot_selected l' (select_entry l'.boot_devices dev_idx entry_idx)
      else continue (no_devices ∷ []) (current l')

  unfoldable pub handle_rescan : Current → Step
  handle_rescan (no_loader s) = continue (no_loader_selected ∷ []) (no_loader s)
  handle_rescan (current l) =
      let (succeeded, l') = probe p true l in
      continue (if succeeded then [] else rescan_failed ∷ []) (current l')

  unfoldable pub handle_list : Current → Step
  handle_list (no_loader s) = continue (no_loader_selected ∷ []) (no_loader s)
  handle_list (current l) =
      let (succeeded, l') = boot_devices p l in
      continue (if succeeded then device_lines 1 l'.boot_devices else no_devices ∷ []) (current l')

  -- A desired loader takes the place of the current one, which is shut down, and dropped.
  unfoldable pub handle_loader : Option LoaderType → Current → Step
  handle_loader (some disk) c =
      continue [] (current (new p (state_of (drop_current (drop_current c)))))
  handle_loader none (no_loader s) = continue (no_loader_selected ∷ []) (no_loader s)
  handle_loader none (current l) = continue (using (p.loader_type l.inner) ∷ []) (current l)

  unfoldable pub run_busybox : Current → Current
  run_busybox (no_loader s) = no_loader (h.busybox s)
  run_busybox (current l) = current (record l { inner = h.busybox l.inner })

  unfoldable pub handle : ClientToServer → Current → Step
  handle user_is_present c = continue [] c
  handle (command shell) c = continue [] (run_busybox c)
  handle (command (dmesg level)) c = continue (kernel_logs level ∷ []) c
  handle (command (help topic)) c = continue (usage (print_help topic) ∷ []) c
  handle (command Command.reboot) c = finish [] reboot c
  handle (command Command.poweroff) c = finish [] poweroff c
  handle (command rescan) c = handle_rescan c
  handle (command list) c = handle_list c
  handle (command (boot dev_idx entry_idx)) c = handle_boot dev_idx entry_idx c
  handle (command (loader desired)) c = handle_loader desired c

  -- The loop, up to an outcome, or to where `recv` waits for a message: what was sent, the outcome,
  -- and what is left of the loader.
  unfoldable pub handle_commands :
      List ClientToServer → Current → List ServerToClient × Option Outcome × Current
  handle_commands [] c = (server_is_ready ∷ [], none, c)
  handle_commands (m ∷ ms) c = elim (handle m c) [
    | continue lines c' ↦
        let (sent, outcome, last) = handle_commands ms c' in (server_is_ready ∷ sent, outcome, last)
    | finish lines o c' ↦ (server_is_ready ∷ stop ∷ [], some o, drop_current c')
  ]
