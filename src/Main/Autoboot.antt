-- ===== src/Main/Autoboot.antt =====
-- The loop `'autoboot` of main.rs.
pub mod Laws
use tinyboot.Prelude.{
  ℕ, zero, suc, Bool, true, false, List, [], ◌∷◌, Option, none, some, if◌then◌else◌, find,
}
use tinyboot.BootLoader.{LinuxBootParts, BootDevice, Platform}
use tinyboot.BootLoader.Loader.{Loader, boot_devices, shutdown}
use tinyboot.Main.Messages.{
  ClientToServer, user_is_present, command, Received, timeout, message, Host,
}

-- `while !time_left.is_zero()`, with ticks of one second: was the user there in time? What is
-- received later is left. No messages are silence.
unfoldable pub countdown : ℕ → List Received → Bool × List Received
countdown zero rs = (false, rs)
countdown (suc n) [] = (false, [])
countdown (suc n) (timeout ∷ rs) = countdown n rs
countdown (suc n) (message user_is_present ∷ rs) = (true, rs)
countdown (suc n) (message (command c) ∷ rs) = countdown n rs

pub data Auto : Type 0 where
  user_present kexec_loaded kexec_failed no_entry_booted : Auto

module _ (p : Platform) (h : Host p) where
  -- `'default`: the first default entry behind the first entry, or the first entry.
  unfoldable pub default_entry : p.Entry → List p.Entry → p.Entry
  default_entry first_entry entries = elim (find p.is_default entries) [
    | none ↦ first_entry
    | some e ↦ e
  ]

  -- `select` and `kexec_load` of an entry
  unfoldable pub boot_entry : p.Entry → p.State → Bool × p.State
  boot_entry e s = let (parts, s') = p.select e s in h.kexec_load parts s'

  unfoldable pub boot_first :
      p.Entry → List p.Entry → List Received → p.State → Auto × List Received × p.State
  boot_first first_entry entries rs s =
      let (loaded, s') = boot_entry (default_entry first_entry entries) s in
      if loaded then (kexec_loaded, rs, s') else (kexec_failed, rs, s')

  unfoldable pub autoboot_devices :
      List (BootDevice p.Entry) → List Received → p.State → Auto × List Received × p.State
  autoboot_devices [] rs s = (no_entry_booted, rs, s)
  autoboot_devices (dev ∷ devs) rs s =
      let (present, rs') = countdown dev.timeout rs in
      elim present [
        | true ↦ (user_present, rs', s)
        | false ↦ elim dev.entries [
          | [] ↦ autoboot_devices devs rs' s
          | e ∷ es ↦ boot_first e es rs' s
        ]
      ]

  -- The loader is dropped at the end of the round, whatever happened in it.
  unfoldable pub autoboot : Loader p → List Received → Auto × List Received × p.State
  autoboot loader rs =
      let (succeeded, l) = boot_devices p loader in
      if succeeded
      then (let (auto, rs', s) = autoboot_devices l.boot_devices rs l.inner in
          (auto, rs', (shutdown p (record l { inner = s })).inner))
      else (no_entry_booted, rs, (shutdown p l).inner)
