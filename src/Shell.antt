-- ===== src/Shell.antt =====
-- tboot-loader/src/shell.rs: the thread that reads command lines and sends commands to the server.
pub mod Session
mod Tests
use tinyboot.Prelude.{ℕ, List, [], ◌∷◌, Option, none, some}
use tinyboot.Result.{Result, ok, err}
use tinyboot.Text.{Text}
use tinyboot.Fs.{IoError}
use tinyboot.Cmd.{Command, parse_input}
use tinyboot.Main.Messages.{ClientToServer, command, ServerToClient, server_is_ready, stop}

-- Where the thread is: it waits in `recv` or in `read_line` for what does not come, or it returned.
pub data Status : Type 0 where
  waits_for_server waits_for_input returned : Status

-- `input.truncate(bytes_read - 1)` if anything was read. The last byte is taken to be a character,
-- as the line feed is.
pub truncate : Text → Text
truncate [] = []
truncate (c ∷ []) = []
truncate (c ∷ d ∷ s) = c ∷ truncate (d ∷ s)

-- What was sent, and where the thread is.
abbrev pub Shell : Type 0
Shell = List ClientToServer × Status

-- A `recv` of a message of the server, before the loop and at its end.
pub await_server : List ServerToClient → (List ServerToClient → Shell) → Shell
await_server [] next = ([], waits_for_server)
await_server (stop ∷ replies) next = ([], returned)
await_server (server_is_ready ∷ replies) next = next replies

pub send : Command → Shell → Shell
send cmd (sent, status) = (command cmd ∷ sent, status)

-- The command of what `read_line` returned, if there is one.
pub command_of : Text → Option Command
command_of input = elim (parse_input (truncate input)) [ err _ ↦ none | ok cmd ↦ cmd ]

-- The loop, over what `read_line` returns and what the server sends. After an error of `read_line`
-- nothing is sent, but a message of the server is awaited.
pub shell_loop : List (Result Text IoError) → List ServerToClient → Shell
shell_loop [] replies = ([], waits_for_input)
shell_loop (err e ∷ reads) replies = await_server replies (shell_loop reads)
shell_loop (ok input ∷ reads) replies = elim (command_of input) [
  | none ↦ shell_loop reads replies
  | some cmd ↦ send cmd (await_server replies (shell_loop reads))
]

pub run_shell : List (Result Text IoError) → List ServerToClient → Shell
run_shell reads replies = await_server replies (shell_loop reads)
