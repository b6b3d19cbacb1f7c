-- ===== src/Shell/Session.antt =====
-- The shell and the server together.
use mathlib.Core.Path.{subst}
use tinyboot.Prelude.{
  List, [], ◌∷◌, ◌++◌, append-nil, Option, none, some, ◌≡◌, refl, ◌∙◌, sym, ap, Option-cases, inl,
  inr,
}
use tinyboot.Result.{Result, ok, err}
use tinyboot.Text.{Text}
use tinyboot.Fs.{IoError}
use tinyboot.BootLoader.{Platform}
use tinyboot.Cmd.{Command}
use tinyboot.Main.Messages.{
  ClientToServer, command, ServerToClient, server_is_ready, stop, Outcome, Host,
}
use tinyboot.Main.Commands.{Line, Current, continue, finish, drop_current, handle, handle_commands}
use tinyboot.Main.Commands.Laws.{Step-cases, handle_commands-continue, handle_commands-finish}
use tinyboot.Shell.{
  waits_for_server, waits_for_input, returned, Shell, await_server, send, command_of, shell_loop,
  run_shell,
}

-- The messages of the lines that were typed, with no error.
abbrev pub typed : List Text → List ClientToServer
typed [] = []
typed (input ∷ inputs) =
    let rest = typed inputs in
    elim (command_of input) [ none ↦ rest | some cmd ↦ command cmd ∷ rest ]

-- Lines that were read, and what was read behind them.
abbrev pub reads_of : List Text → List (Result Text IoError) → List (Result Text IoError)
reads_of [] rest = rest
reads_of (input ∷ inputs) rest = ok input ∷ reads_of inputs rest

-- More messages in front.
abbrev after : List ClientToServer → Shell → Shell
after ms (sent, status) = (ms ++ sent, status)

-- A line with no command is passed over.
run_shell-skip :
    (input : Text) (reads : List (Result Text IoError)) (replies : List ServerToClient)
    → command_of input ≡ none
    → run_shell (ok input ∷ reads) replies ≡ run_shell reads replies
unfolding run_shell shell_loop await_server
run_shell-skip input reads [] none_there = refl
run_shell-skip input reads (stop ∷ replies) none_there = refl
run_shell-skip input reads (server_is_ready ∷ replies) none_there = rw (none_there, shell_loop)

-- A command is sent, and its answer awaited.
run_shell-send :
    (input : Text) (cmd : Command) (reads : List (Result Text IoError))
    (replies : List ServerToClient)
    → command_of input ≡ some cmd
    → run_shell (ok input ∷ reads) (server_is_ready ∷ replies) ≡ send cmd (run_shell reads replies)
unfolding run_shell shell_loop await_server
run_shell-send input cmd reads replies there = rw (there, shell_loop)

send-after :
    (cmd : Command) (ms : List ClientToServer) (s : Shell)
    → send cmd (after ms s) ≡ after (command cmd ∷ ms) s
unfolding send
send-after cmd ms s = refl

module _ (p : Platform) (h : Host p) where
  -- What the server sent, its outcome, and what is left of the loader.
  abbrev Served : Type 0
  Served = List ServerToClient × Option Outcome × Current p h

  -- The server first says that it is ready.
  handle_commands-ready :
      (ms : List ClientToServer) (c : Current p h)
      → (rs : List ServerToClient) × ((handle_commands p h ms c).0 ≡ server_is_ready ∷ rs)
  unfolding handle_commands
  handle_commands-ready [] c = ([], refl)
  handle_commands-ready (m ∷ ms) c = elim (Step-cases p h (handle p h m c)) [
    | inl (lines, c', e) ↦
        ((handle_commands p h ms c').0, ap (λ r. r.0) (handle_commands-continue p h m ms c e))
    | inr (lines, o, c', e) ↦ (stop ∷ [], ap (λ r. r.0) (handle_commands-finish p h m ms c e))
  ]

  -- As long as the server goes on, each line is answered, and the shell comes to what was read next.
  run_shell-reads_of :
      (inputs : List Text) (rest : List (Result Text IoError)) (c : Current p h)
      → (handle_commands p h (typed inputs) c).1 ≡ none
      → run_shell (reads_of inputs rest) (handle_commands p h (typed inputs) c).0
        ≡ after (typed inputs) (shell_loop rest [])
  unfolding run_shell shell_loop await_server send
  run_shell-reads_of [] rest c goes_on = unfold handle_commands in refl
  run_shell-reads_of (input ∷ inputs) rest c goes_on = elim (Option-cases (command_of input)) [
    | inl no_command ↦
        rw (no_command, typed)
          (run_shell-skip input (reads_of inputs rest) (handle_commands p h (typed inputs) c).0
              no_command
            ∙ run_shell-reads_of inputs rest c (rw (no_command, typed) at goes_on))
    | inr (cmd, there) ↦
        let ms : List ClientToServer = typed inputs in
        let goes_on' : (handle_commands p h (command cmd ∷ ms) c).1 ≡ none =
          rw (there, typed) at goes_on in
        elim (Step-cases p h (handle p h (command cmd) c)) [
          | inl (lines, c', e) ↦
              let taken = handle_commands-continue p h (command cmd) ms c e in
              rw (there, typed)
                (ap (λ (r : Served). run_shell (ok input ∷ reads_of inputs rest) r.0) taken
                  ∙ run_shell-send input cmd (reads_of inputs rest) (handle_commands p h ms c').0
                      there
                  ∙ ap (send cmd) (
                      run_shell-reads_of inputs rest c'
                        (ap (λ (r : Served). r.1) (sym taken) ∙ goes_on'))
                  ∙ send-after cmd ms (shell_loop rest []))
          | inr (lines, o, c', e) ↦
              cc (
                goes_on',
                ap (λ (r : Served). r.1) (handle_commands-finish p h (command cmd) ms c e),
              )
        ]
  ]

  -- While the server goes on, the shell sends the commands of all lines that were typed, and then
  -- waits for the next line.
  pub run_shell-open :
      (inputs : List Text) (c : Current p h)
      → (handle_commands p h (typed inputs) c).1 ≡ none
      → run_shell (reads_of inputs []) (handle_commands p h (typed inputs) c).0
        ≡ (typed inputs, waits_for_input)
  unfolding shell_loop
  run_shell-open inputs c goes_on =
      run_shell-reads_of inputs [] c goes_on
      ∙ ap (λ (ms : List ClientToServer). (ms, waits_for_input)) (append-nil (typed inputs))

  -- After an error of `read_line` both threads wait for ever: the shell has sent nothing more, and
  -- waits for the server, which has answered everything and waits for a command.
  pub run_shell-deadlock :
      (inputs : List Text) (e : IoError) (rest : List (Result Text IoError)) (c : Current p h)
      → (handle_commands p h (typed inputs) c).1 ≡ none
      → run_shell (reads_of inputs (err e ∷ rest)) (handle_commands p h (typed inputs) c).0
        ≡ (typed inputs, waits_for_server)
  unfolding shell_loop await_server
  run_shell-deadlock inputs e rest c goes_on =
      run_shell-reads_of inputs (err e ∷ rest) c goes_on
      ∙ ap (λ (ms : List ClientToServer). (ms, waits_for_server)) (append-nil (typed inputs))

  -- A session that ended: the shell returned, and what it sent until then is what the server took.
  pub record Ended (r : Served) (c : Current p h) (s : Shell) : Type 0 where
    pub is_returned : s.1 ≡ returned
    pub sent : handle_commands p h s.0 c ≡ r

  Ended-send :
      (cmd : Command) (c c' : Current p h) (r : Served) (s : Shell) {lines : List Line}
      → handle p h (command cmd) c ≡ continue lines c'
      → Ended r c' s
      → Ended (server_is_ready ∷ r.0, r.1, r.2) c (send cmd s)
  unfolding send
  Ended-send cmd c c' r s e ended = record {
    is_returned = ended.is_returned;
    sent =
        handle_commands-continue p h (command cmd) s.0 c e
        ∙ ap (λ (x : Served). (server_is_ready ∷ x.0, x.1, x.2)) ended.sent;
  }

  none_at_start : (c : Current p h) → (handle_commands p h [] c).1 ≡ none
  unfolding handle_commands
  none_at_start c = refl

  Ended-stop :
      (cmd : Command) (reads : List (Result Text IoError)) (c c' : Current p h) (o : Outcome)
      {lines : List Line}
      → handle p h (command cmd) c ≡ finish lines o c'
      → Ended
          (server_is_ready ∷ stop ∷ [], some o, drop_current p h c')
          c
          (send cmd (run_shell reads (stop ∷ [])))
  unfolding send run_shell await_server
  Ended-stop cmd reads c c' o e = record {
    is_returned = refl;
    sent = handle_commands-finish p h (command cmd) [] c e;
  }

  -- Where a command ends the server's loop, the shell returns too, and sends nothing behind that
  -- command: the server, with just what was sent, does the same.
  pub run_shell-Ended :
      (inputs : List Text) (rest : List (Result Text IoError)) (c : Current p h) (o : Outcome)
      → (handle_commands p h (typed inputs) c).1 ≡ some o
      → Ended
          (handle_commands p h (typed inputs) c)
          c
          (run_shell (reads_of inputs rest) (handle_commands p h (typed inputs) c).0)
  run_shell-Ended [] rest c o ends = cc (ends, none_at_start c)
  run_shell-Ended (input ∷ inputs) rest c o ends = elim (Option-cases (command_of input)) [
    | inl no_command ↦
        rw (no_command, typed)
          (subst (Ended (handle_commands p h (typed inputs) c) c)
            (sym (
              run_shell-skip input (reads_of inputs rest) (handle_commands p h (typed inputs) c).0
                no_command))
            (run_shell-Ended inputs rest c o (rw (no_command, typed) at ends)))
    | inr (cmd, there) ↦
        let ms : List ClientToServer = typed inputs in
        let ends' : (handle_commands p h (command cmd ∷ ms) c).1 ≡ some o =
          rw (there, typed) at ends in
        elim (Step-cases p h (handle p h (command cmd) c)) [
          | inl (lines, c', e) ↦
              let taken = handle_commands-continue p h (command cmd) ms c e in
              rw (there, typed)
                (subst (λ (r : Served). Ended r c (run_shell (ok input ∷ reads_of inputs rest) r.0))
                  (sym taken)
                  (subst
                    (Ended
                      (
                        server_is_ready ∷ (handle_commands p h ms c').0,
                        (handle_commands p h ms c').1,
                        (handle_commands p h ms c').2,
                      )
                      c)
                    (sym (
                      run_shell-send input cmd (reads_of inputs rest) (handle_commands p h ms c').0
                        there))
                    (Ended-send cmd c c' (handle_commands p h ms c') _ e (
                      run_shell-Ended inputs rest c' o
                        (ap (λ (r : Served). r.1) (sym taken) ∙ ends')))))
          | inr (lines, o', c', e) ↦
              rw (there, typed)
                (subst (λ (r : Served). Ended r c (run_shell (ok input ∷ reads_of inputs rest) r.0))
                  (sym (handle_commands-finish p h (command cmd) ms c e))
                  (subst (Ended (server_is_ready ∷ stop ∷ [], some o', drop_current p h c') c)
                    (sym (run_shell-send input cmd (reads_of inputs rest) (stop ∷ []) there))
                    (Ended-stop cmd (reads_of inputs rest) c c' o' e)))
        ]
  ]
