-- ===== src/Main.antt =====
-- tboot-loader/src/main.rs: the automatic boot, and the commands of a user who stopped it.
pub mod Messages
pub mod Autoboot
pub mod Commands
pub mod Resources
mod Tests
use tinyboot.Prelude.{
  ℕ, zero, suc, Bool, true, false, List, [], ◌∷◌, Option, none, some, if◌then◌else◌,
}
use tinyboot.BootLoader.{LinuxBootParts, Platform}
use tinyboot.BootLoader.Loader.{Loader, new}
use Messages.{
  ClientToServer, ServerToClient, Received, timeout, message, user_is_present, command, Outcome,
  kexec, Host,
}
use Autoboot.{Auto, user_present, kexec_loaded, kexec_failed, no_entry_booted, autoboot}
use Commands.{Current, no_loader, handle_commands}

pub data Prepared : Type 0 where
  -- the outcome
  done : Outcome → Prepared
  -- `recv` waits for a message that never comes
  blocked : Prepared
  -- the assertion on the first message fails
  panicked : Prepared

-- `assert_eq!(server_rx.recv().unwrap(), UserIsPresent)`: `some true` if it holds, and the messages
-- that are left. `recv` waits through any time.
unfoldable wait_for_user : List Received → Option Bool
wait_for_user [] = none
wait_for_user (timeout ∷ rs) = wait_for_user rs
wait_for_user (message user_is_present ∷ rs) = some true
wait_for_user (message (command c) ∷ rs) = some false

module _ (p : Platform) (h : Host p) where
  abbrev prepared_of : Option Outcome → Prepared
  prepared_of none = blocked
  prepared_of (some o) = done o

  -- `run_shell` and `handle_commands`; the messages are those that the shell sends.
  pub interact : List ClientToServer → p.State → Prepared × p.State
  interact shell s =
      let (sent, outcome, last) = handle_commands p h shell (no_loader s) in
      (prepared_of outcome, Commands.state_of p h last)

  -- `prepare_boot`: what is received before the shell runs, and what the shell then sends.
  pub prepare_boot : List Received → List ClientToServer → p.State → Prepared × p.State
  prepare_boot received shell s =
      let (auto, rest, s') = autoboot p h (new p s) received in
      elim auto [
        | kexec_loaded ↦ (done kexec, s')
        | user_present ↦ interact shell s'
        | kexec_failed ↦ elim (wait_for_user rest) [
          | none ↦ (blocked, s')
          | some b ↦ if b then interact shell s' else (panicked, s')
        ]
        | no_entry_booted ↦ elim (wait_for_user rest) [
          | none ↦ (blocked, s')
          | some b ↦ if b then interact shell s' else (panicked, s')
        ]
      ]
