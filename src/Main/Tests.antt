-- ===== src/Main/Tests.antt =====
-- Runs of the program on a machine with one disk.
use tinyboot.Prelude.{ℕ, suc, ◌-◌, true, List, [], ◌∷◌, none, some, ◌≡◌, refl}
use tinyboot.Text.{Text, codes, equal}
use tinyboot.FilePath.{named}
use tinyboot.BootLoader.{disk, BootDevice, Platform}
use tinyboot.BootLoader.Loader.{new, boot_devices}
use tinyboot.BootLoader.Loader.Protocol.{traced}
use tinyboot.Cmd.{loader, list, boot}
use tinyboot.Main.Messages.{ClientToServer, user_is_present, command, timeout, message, kexec, Host}
use tinyboot.Main.Autoboot.{countdown, boot_entry, autoboot, autoboot_devices}
use tinyboot.Main.Autoboot.Laws.{Boots, autoboot_devices-Silent}
use tinyboot.Main.Commands.{
  handle_loader, handle_list, handle_boot, handle, boot_selected, at_index, entry, no_loader,
  select_entry, device_lines, entry_lines, handle_commands,
}
use tinyboot.Main.Commands.Laws.{
  Answered, Stands, device_block, handle_commands-Answered, select_entry-get_elem?,
}
use tinyboot.Main.Commands.Chosen.{Loaded, handle_commands-Loaded}
use tinyboot.Main.Resources.{Released, traced_host, prepare_boot-Released}
use tinyboot.Main.{interact, done, prepare_boot}

abbrev sda : BootDevice Text
sda = record { name = codes "sda"; entries = codes "nixos" ∷ codes "rescue" ∷ []; timeout = 2 }

-- A machine with one disk that always works.
abbrev machine : Platform
machine = record {
  State = ℕ;
  Entry = Text;
  fresh = λ s. s;
  loader_type = λ s. disk;
  setup = λ s. (true, suc s);
  probe = λ s. (sda ∷ [], s);
  teardown = λ s. s - 1;
  is_default = λ e. equal e (codes "rescue");
  show = λ e. e;
  select = λ e s. (record { linux = named e; initrd = none; cmdline = none }, s);
}

abbrev host : Host machine
host = record { kexec_load = λ parts s. (true, s); busybox = λ s. s }

abbrev typed : List ClientToServer
typed = command (loader (some disk)) ∷ command list ∷ command (boot (some 1) (some 2)) ∷ []

autoboot_devices-Silent_example :
    let r = autoboot_devices machine host (sda ∷ []) (timeout ∷ timeout ∷ []) 5 in
    Boots machine host (sda ∷ []) 5 (r.0, r.2)
autoboot_devices-Silent_example =
    autoboot_devices-Silent machine host (sda ∷ []) (timeout ∷ timeout ∷ []) 5 (refl, (refl, tt))

handle_commands-Answered_example :
    Answered machine host typed (handle_commands machine host typed (no_loader 0))
handle_commands-Answered_example = handle_commands-Answered machine host typed (no_loader 0)

select_entry-get_elem?_example :
    (select_entry machine host (sda ∷ []) (some 1) (some 2) ≡ some (codes "rescue"))
    × Stands machine host (device_block machine host 1 sda) (device_lines machine host 1 (sda ∷ []))
    × Stands machine host (entry 2 (codes "rescue") ∷ []) (entry_lines machine host 1 sda.entries)
select_entry-get_elem?_example =
    select_entry-get_elem? machine host (sda ∷ []) 0 1 sda (codes "rescue") refl refl

typed_kexec : (handle_commands machine host typed (no_loader 0)).1 ≡ some kexec
unfolding handle_commands handle handle_loader handle_list handle_boot boot_devices new
    boot_selected select_entry at_index boot_entry
typed_kexec = refl

handle_commands-Loaded_example :
    Loaded machine host typed (no_loader 0) (handle_commands machine host typed (no_loader 0)).2
handle_commands-Loaded_example = handle_commands-Loaded machine host typed (no_loader 0) typed_kexec

prepared_kexec :
    (prepare_boot
      (traced machine)
      (traced_host machine host)
      (timeout ∷ message user_is_present ∷ [])
      typed
      (0, [])).0
    ≡ done kexec
unfolding prepare_boot autoboot boot_devices new autoboot_devices countdown interact handle_commands
    handle handle_loader handle_list handle_boot boot_selected select_entry at_index boot_entry
prepared_kexec = refl

prepare_boot-Released_example :
    Released
      (prepare_boot
        (traced machine)
        (traced_host machine host)
        (timeout ∷ message user_is_present ∷ [])
        typed
        (0, [])).1.1
prepare_boot-Released_example =
    prepare_boot-Released machine host (timeout ∷ message user_is_present ∷ []) typed 0 kexec
      prepared_kexec
