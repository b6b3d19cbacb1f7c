-- ===== src/Main/Resources.antt =====
-- The loader behind is released before the program goes on to boot, reboot or power off.
use tinyboot.Prelude.{
  ℕ, true, List, [], ◌∷◌, Option, none, some, ◌≡◌, refl, arith, ◌∙◌, ap, Bool-cases, Option-cases,
  inl, inr,
}
use mathlib.Core.Path.{subst}
use tinyboot.BootLoader.{LoaderType, disk, Platform, BootDevice}
use tinyboot.BootLoader.Loader.{Loader, new, boot_devices, shutdown}
use tinyboot.BootLoader.Loader.Protocol.{
  Call, down, after_calls, traced, IsSound, new-IsSound, probe-IsSound, boot_devices-IsSound,
  shutdown-IsSound,
}
use tinyboot.Cmd.{Command, boot, loader, help, list, dmesg, rescan, shell}
use tinyboot.Main.Messages.{ClientToServer, user_is_present, command, Received, Outcome, Host}
use tinyboot.Main.Autoboot.{boot_entry, boot_first, autoboot_devices, autoboot, countdown}
use tinyboot.Main.Commands.{
  Current, no_loader, current, state_of, drop_current, Step, continue, finish, boot_selected,
  handle_boot, handle_rescan, handle_list, handle_loader, run_busybox, handle, handle_commands,
  select_entry,
}
use tinyboot.Main.Commands.Laws.{Step-cases, handle_commands-continue, handle_commands-finish}
use tinyboot.Main.{done, interact, prepare_boot}

-- The host of a platform that writes down its calls.
abbrev pub traced_host : (p : Platform) → Host p → Host (traced p)
traced_host p h = record {
  kexec_load = λ parts s. let (loaded, s') = h.kexec_load parts s.0 in (loaded, (s', s.1));
  busybox = λ s. (h.busybox s.0, s.1);
}

-- All calls were allowed, and the last loader is released.
abbrev pub Released : List Call → Type 0
Released calls = after_calls down calls ≡ some down

module _ (p : Platform) (h : Host p) where
  abbrev th : Host (traced p)
  th = traced_host p h

  abbrev IsSoundCurrent : Current (traced p) th → Type 0
  IsSoundCurrent (no_loader s) = Released s.1
  IsSoundCurrent (current l) = IsSound p l

  shutdown-Released :
      (l : Loader (traced p)) → IsSound p l → Released (shutdown (traced p) l).inner.1
  shutdown-Released l sound = (shutdown-IsSound p l sound).in_protocol ∙ (unfold shutdown in refl)

  drop_current-Released :
      (c : Current (traced p) th)
      → IsSoundCurrent c
      → Released (state_of (traced p) th (drop_current (traced p) th c)).1
  unfolding drop_current
  drop_current-Released (no_loader s) sound = sound
  drop_current-Released (current l) sound = shutdown-Released l sound

  drop_current-Sound :
      (c : Current (traced p) th) → IsSoundCurrent c → IsSoundCurrent (drop_current (traced p) th c)
  unfolding drop_current
  drop_current-Sound (no_loader s) sound = sound
  drop_current-Sound (current l) sound = shutdown-IsSound p l sound

  -- A change of the machine that calls no loader.
  inner-IsSound :
      (l : Loader (traced p)) (s : p.State × List Call)
      → s.1 ≡ l.inner.1
      → IsSound p l
      → IsSound p (record l { inner = s })
  inner-IsSound l s same sound = record {
    in_protocol = ap (after_calls down) same ∙ sound.in_protocol;
    hides_devices = sound.hides_devices;
  }

  trace-autoboot_devices :
      (devs : List (BootDevice p.Entry)) (rs : List Received) (s : p.State × List Call)
      → (autoboot_devices (traced p) th devs rs s).2.1 ≡ s.1
  unfolding autoboot_devices boot_first boot_entry
  trace-autoboot_devices [] rs s = refl
  trace-autoboot_devices (dev ∷ devs) rs s =
      ground (arith, trace-autoboot_devices devs (countdown dev.timeout rs).1 s)

  autoboot-Released :
      (l : Loader (traced p)) (rs : List Received)
      → IsSound p l
      → Released (autoboot (traced p) th l rs).2.1
  unfolding autoboot
  autoboot-Released l rs sound =
      let (succeeded, l') = boot_devices (traced p) l in
      let after : IsSound p (boot_devices (traced p) l).1 = boot_devices-IsSound p l sound in
      let (auto, rs', s) = autoboot_devices (traced p) th l'.boot_devices rs l'.inner in
      let kept = trace-autoboot_devices l'.boot_devices rs l'.inner in
      elim (Bool-cases (boot_devices (traced p) l).0) [
        | inl succeeds ↦
            rw (succeeds)
              (shutdown-Released (record l' { inner = s }) (inner-IsSound l' s kept after))
        | inr fails ↦ rw (fails) (shutdown-Released l' after)
      ]

  StepIsSound : Step (traced p) th → Type 0
  StepIsSound (continue lines c) = IsSoundCurrent c
  StepIsSound (finish lines o c) = IsSoundCurrent c

  boot_selected-Sound :
      (l : Loader (traced p)) (e : Option p.Entry)
      → IsSound p l
      → StepIsSound (boot_selected (traced p) th l e)
  unfolding boot_selected boot_entry StepIsSound
  boot_selected-Sound l none sound = sound
  boot_selected-Sound l (some e) sound = elim (Bool-cases (boot_entry (traced p) th e l.inner).0) [
    | inl loads ↦ rw (loads) (inner-IsSound l (boot_entry (traced p) th e l.inner).1 refl sound)
    | inr fails ↦ rw (fails) (inner-IsSound l (boot_entry (traced p) th e l.inner).1 refl sound)
  ]

  handle_boot-Sound :
      (d e : Option ℕ) (c : Current (traced p) th)
      → IsSoundCurrent c
      → StepIsSound (handle_boot (traced p) th d e c)
  unfolding handle_boot StepIsSound
  handle_boot-Sound d e (no_loader s) sound = sound
  handle_boot-Sound d e (current l) sound =
      let after : IsSound p (boot_devices (traced p) l).1 = boot_devices-IsSound p l sound in
      let l' = (boot_devices (traced p) l).1 in
      elim (Bool-cases (boot_devices (traced p) l).0) [
        | inl succeeds ↦
            rw (succeeds)
              (boot_selected-Sound l' (select_entry (traced p) th l'.boot_devices d e) after)
        | inr fails ↦ rw (fails) after
      ]

  handle_loader-Sound :
      (t : Option LoaderType) (c : Current (traced p) th)
      → IsSoundCurrent c
      → StepIsSound (handle_loader (traced p) th t c)
  unfolding handle_loader StepIsSound
  handle_loader-Sound none (no_loader s) sound = sound
  handle_loader-Sound none (current l) sound = sound
  handle_loader-Sound (some disk) c sound =
      new-IsSound p
        (state_of (traced p) th (drop_current (traced p) th (drop_current (traced p) th c)))
        (drop_current-Released (drop_current (traced p) th c) (drop_current-Sound c sound))

  handle-Sound :
      (m : ClientToServer) (c : Current (traced p) th)
      → IsSoundCurrent c
      → StepIsSound (handle (traced p) th m c)
  unfolding handle StepIsSound handle_rescan handle_list run_busybox
  handle-Sound user_is_present c sound = sound
  handle-Sound (command shell) (no_loader s) sound = sound
  handle-Sound (command shell) (current l) sound = inner-IsSound l (th.busybox l.inner) refl sound
  handle-Sound (command (dmesg level)) c sound = sound
  handle-Sound (command (help topic)) c sound = sound
  handle-Sound (command Command.reboot) c sound = sound
  handle-Sound (command Command.poweroff) c sound = sound
  handle-Sound (command rescan) (no_loader s) sound = sound
  handle-Sound (command rescan) (current l) sound = probe-IsSound p true l sound
  handle-Sound (command list) (no_loader s) sound = sound
  handle-Sound (command list) (current l) sound = boot_devices-IsSound p l sound
  handle-Sound (command (boot d e)) c sound = handle_boot-Sound d e c sound
  handle-Sound (command (loader t)) c sound = handle_loader-Sound t c sound

  handle_commands-Released :
      (ms : List ClientToServer) (c : Current (traced p) th) (o : Outcome)
      → IsSoundCurrent c
      → (handle_commands (traced p) th ms c).1 ≡ some o
      → Released (state_of (traced p) th (handle_commands (traced p) th ms c).2).1
  unfolding handle_commands StepIsSound
  handle_commands-Released [] c o sound finished = cc
  handle_commands-Released (m ∷ ms) c o sound finished =
      elim (Step-cases (traced p) th (handle (traced p) th m c)) [
        | inl (lines, c', e) ↦
            let sound' : IsSoundCurrent c' = subst StepIsSound e (handle-Sound m c sound) in
            let eq = handle_commands-continue (traced p) th m ms c e in
            rw eq (handle_commands-Released ms c' o sound' (rw eq at finished))
        | inr (lines, o', c', e) ↦
            let sound' : IsSoundCurrent c' = subst StepIsSound e (handle-Sound m c sound) in
            rw (handle_commands-finish (traced p) th m ms c e) (drop_current-Released c' sound')
      ]

  interact-Released :
      (shell_sends : List ClientToServer) (s : p.State × List Call) (o : Outcome)
      → Released s.1
      → (interact (traced p) th shell_sends s).0 ≡ done o
      → Released (interact (traced p) th shell_sends s).1.1
  unfolding interact
  interact-Released shell_sends s o sound finished =
      elim (Option-cases (handle_commands (traced p) th shell_sends (no_loader s)).1) [
        | inl blocks ↦ cc (rw blocks at finished)
        | inr (o', ends) ↦ handle_commands-Released shell_sends (no_loader s) o' sound ends
      ]

  -- Where the program goes on to boot, to reboot or to power off, whatever was received and typed
  -- before, each loader was probed and torn down only while it was set up, and none is set up now.
  pub prepare_boot-Released :
      (received : List Received) (shell_sends : List ClientToServer) (s : p.State) (o : Outcome)
      → (prepare_boot (traced p) th received shell_sends (s, [])).0 ≡ done o
      → Released (prepare_boot (traced p) th received shell_sends (s, [])).1.1
  unfolding prepare_boot
  prepare_boot-Released received shell_sends s o finished =
      let released : Released (autoboot (traced p) th (new (traced p) (s, [])) received).2.1 =
        autoboot-Released (new (traced p) (s, [])) received
          (new-IsSound p (s, []) (unfold after_calls in refl)) in
      ground (
        arith,
        released,
        interact-Released shell_sends (autoboot (traced p) th (new (traced p) (s, [])) received).2 o
            released,
      )
