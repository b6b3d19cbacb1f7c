-- ===== src/Main/Messages.antt =====
-- The messages between the threads of main.rs, its outcomes, and what it does to the machine.
use tinyboot.Prelude.{Bool}
use tinyboot.BootLoader.{LinuxBootParts, Platform}
use tinyboot.Cmd.{Command}

pub data ClientToServer : Type 0 where
  command : Command → ClientToServer
  user_is_present : ClientToServer

pub data ServerToClient : Type 0 where
  server_is_ready stop : ServerToClient

pub data Outcome : Type 0 where
  reboot poweroff kexec : Outcome

-- What `recv_timeout` returns. (A sender is held by the receiving thread, so the channel is open.)
pub data Received : Type 0 where
  timeout : Received
  message : ClientToServer → Received

-- `kexec_load`, which says whether it succeeded, and a run of the busybox shell.
pub record Host (p : Platform) : Type 0 where
  pub kexec_load : LinuxBootParts → p.State → Bool × p.State
  pub busybox : p.State → p.State
