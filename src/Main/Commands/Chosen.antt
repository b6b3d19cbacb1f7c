-- ===== src/Main/Commands/Chosen.antt =====
-- The entry that is loaded where the command loop ends in a kexec.
use tinyboot.Prelude.{
  ◌++◌, append_assoc, sym, ℕ, true, List, [], ◌∷◌, Option, none, some, ◌≡◌, refl, ◌∙◌, ap,
  Bool-cases, inl, inr, some-injective, Option-cases,
}
use tinyboot.BootLoader.{disk, Platform}
use tinyboot.BootLoader.Loader.{Loader, boot_devices}
use tinyboot.Cmd.{Command, boot, loader, help, list, dmesg, rescan, shell}
use tinyboot.Main.Messages.{
  ClientToServer, user_is_present, command, ServerToClient, Outcome, kexec, Host,
}
use tinyboot.Main.Autoboot.{boot_entry}
use tinyboot.Main.Commands.{
  continue, Line, Current, no_loader, current, select_entry, drop_current, Step, finish,
  boot_selected, handle_boot, handle_rescan, handle_list, handle_loader, handle, handle_commands,
}
use mathlib.Core.Path.{subst}
use tinyboot.Main.Commands.Laws.{handle_commands-finish, handle_commands-continue, Step-cases}

module _ (p : Platform) (h : Host p) where
  abbrev Handled : Type 0
  Handled = List ServerToClient × Option Outcome × Current p h

  -- The messages are taken one by one, and the loop goes on behind each of them.
  pub data Reaches (c : Current p h) : List ClientToServer → Current p h → Type 0 where
    here : Reaches c [] c
    behind :
        {ms : List ClientToServer} {d e : Current p h} (m : ClientToServer) (lines : List Line)
        → Reaches c ms d
        → handle p h m d ≡ continue lines e
        → Reaches c (ms ++ m ∷ []) e

  -- A boot command with a loader whose devices can be listed: an entry of just those devices is
  -- selected, its parts are loaded with success, and this is what is left.
  pub data Booted : ClientToServer → Current p h → Current p h → Type 0 where
    booted :
        {d : Current p h} (dev_idx entry_idx : Option ℕ) (l : Loader p) (e : p.Entry)
        → (boot_devices p l).0 ≡ true
        → select_entry p h (boot_devices p l).1.boot_devices dev_idx entry_idx ≡ some e
        → (let (parts, s) = p.select e (boot_devices p l).1.inner in
            (h.kexec_load parts s).0 ≡ true)
        → (let (parts, s) = p.select e (boot_devices p l).1.inner in
            d ≡ current (record (boot_devices p l).1 { inner = (h.kexec_load parts s).1 }))
        → Booted (command (boot dev_idx entry_idx)) (current l) d

  -- The last message that was taken is such a command, and then only the loader was dropped.
  pub record Loaded (ms : List ClientToServer) (c last : Current p h) : Type 0 where
    pub before : List ClientToServer
    pub message : ClientToServer
    pub after : List ClientToServer
    pub at : Current p h
    pub left : Current p h
    pub are : ms ≡ before ++ message ∷ after
    pub reached : Reaches c before at
    pub is_booted : Booted message at left
    pub dropped : last ≡ drop_current p h left

  finish-current :
      {lines lines' : List Line} {o o' : Outcome} {c c' : Current p h}
      → ◌≡◌ {A = Step p h} (finish lines o c) (finish lines' o' c')
      → c' ≡ c
  finish-current e = cc

  boot_selected-Booted :
      (l : Loader p) (dev_idx entry_idx : Option ℕ) {lines : List Line} {c : Current p h}
      → (boot_devices p l).0 ≡ true
      → boot_selected p h
          (boot_devices p l).1
          (select_entry p h (boot_devices p l).1.boot_devices dev_idx entry_idx)
        ≡ finish lines kexec c
      → Booted (command (boot dev_idx entry_idx)) (current l) c
  unfolding boot_selected boot_entry
  boot_selected-Booted l dev_idx entry_idx listed f =
      let l' : Loader p = (boot_devices p l).1 in
      elim (Option-cases (select_entry p h l'.boot_devices dev_idx entry_idx)) [
        | inl none_there ↦ cc (rw (none_there, boot_selected) at f)
        | inr (e, there) ↦ elim (Bool-cases (boot_entry p h e l'.inner).0) [
          | inl good ↦
              booted dev_idx entry_idx l e listed there good
                (finish-current (rw (there, boot_selected, good) at f))
          | inr bad ↦ cc (rw (there, boot_selected, bad) at f)
        ]
      ]

  handle_boot-Booted :
      (dev_idx entry_idx : Option ℕ) (c : Current p h) {lines : List Line} {c' : Current p h}
      → handle_boot p h dev_idx entry_idx c ≡ finish lines kexec c'
      → Booted (command (boot dev_idx entry_idx)) c c'
  unfolding handle_boot
  handle_boot-Booted dev_idx entry_idx (no_loader s) f = cc
  handle_boot-Booted dev_idx entry_idx (current l) f = elim (Bool-cases (boot_devices p l).0) [
    | inl good ↦ boot_selected-Booted l dev_idx entry_idx good (rw good at f)
    | inr bad ↦ cc (rw bad at f)
  ]

  handle-Booted :
      (m : ClientToServer) (c : Current p h) {lines : List Line} {c' : Current p h}
      → handle p h m c ≡ finish lines kexec c'
      → Booted m c c'
  unfolding handle handle_rescan handle_list handle_loader
  handle-Booted user_is_present c f = cc
  handle-Booted (command shell) c f = cc
  handle-Booted (command (dmesg level)) c f = cc
  handle-Booted (command (help topic)) c f = cc
  handle-Booted (command Command.reboot) c f = cc
  handle-Booted (command Command.poweroff) c f = cc
  handle-Booted (command rescan) (no_loader s) f = cc
  handle-Booted (command rescan) (current l) f = cc
  handle-Booted (command list) (no_loader s) f = cc
  handle-Booted (command list) (current l) f = cc
  handle-Booted (command (boot dev_idx entry_idx)) c f = handle_boot-Booted dev_idx entry_idx c f
  handle-Booted (command (loader (some disk))) c f = cc
  handle-Booted (command (loader none)) (no_loader s) f = cc
  handle-Booted (command (loader none)) (current l) f = cc

  no_outcome : (c : Current p h) → (handle_commands p h [] c).1 ≡ none
  unfolding handle_commands
  no_outcome c = refl

  handle_commands-Loaded_from :
      (c0 : Current p h) (ms0 ms : List ClientToServer) (c : Current p h)
      → Reaches c0 ms0 c
      → (handle_commands p h ms c).1 ≡ some kexec
      → Loaded (ms0 ++ ms) c0 (handle_commands p h ms c).2
  handle_commands-Loaded_from c0 ms0 [] c r f = cc (no_outcome c)
  handle_commands-Loaded_from c0 ms0 (m ∷ ms) c r f = elim (Step-cases p h (handle p h m c)) [
    | inl (lines, c', e) ↦
        let eq = handle_commands-continue p h m ms c e in
        let later : Loaded ((ms0 ++ m ∷ []) ++ ms) c0 (handle_commands p h ms c').2 =
          handle_commands-Loaded_from c0 (ms0 ++ m ∷ []) ms c' (behind m lines r e) (rw eq at f) in
        subst (λ x. Loaded x c0 (handle_commands p h (m ∷ ms) c).2) (append_assoc ms0 (m ∷ []) ms)
          (subst (Loaded ((ms0 ++ m ∷ []) ++ ms) c0) (sym (ap (λ (x : Handled). x.2) eq)) later)
    | inr (lines, o, c', e) ↦
        let eq = handle_commands-finish p h m ms c e in
        let same : o ≡ kexec = some-injective (rw eq at f) in
        record {
          before = ms0;
          message = m;
          after = ms;
          at = c;
          left = c';
          are = refl;
          reached = r;
          is_booted = handle-Booted m c (e ∙ ap (λ (x : Outcome). finish lines x c') same);
          dropped = ap (λ (x : Handled). x.2) eq;
        }
  ]

  -- A command loop that ends in a kexec has taken a boot command, behind messages after which it
  -- went on: the loader that it had then listed its devices, the entry with the indices of the
  -- command was selected among those devices, and what it selected was loaded with success; then only
  -- the loader was dropped.
  pub handle_commands-Loaded :
      (ms : List ClientToServer) (c : Current p h)
      → (handle_commands p h ms c).1 ≡ some kexec
      → Loaded ms c (handle_commands p h ms c).2
  handle_commands-Loaded ms c f = handle_commands-Loaded_from c [] ms c here f
