-- ===== src/Console/Start.antt =====
-- The whole of `repl_task` of main/main.c: the file system, the terminal, and the console with its
-- history. The driver's calls are kept in order. What `printf` writes, the start of the task by
-- `app_main`, and the deletion of the machine and of the task at the end are left out.
use esp32_berry_lang.Base.{
  ℕ, ◌≢◌, Bool, true, false, Bytes, List, [], ◌∷◌, Option, none, some, if◌then◌else◌,
}
use esp32_berry_lang.Events.{Stack}
use esp32_berry_lang.Events.Init.{Boot}
use esp32_berry_lang.Files.LittleFs.{Vfs, Mount, littlefs_init}
use esp32_berry_lang.Console.{Machine, is_entered}
use esp32_berry_lang.Console.Task.{repl_task}

-- The calls that set the terminal up
pub data TerminalCall : Type 0 where
  setvbuf_stdin setvbuf_stdout uart_driver_install use_driver rx_line_endings : TerminalCall
  tx_line_endings linenoise_probe set_dumb_mode : TerminalCall

-- Whether `uart_driver_install` returns `ESP_OK`, and whether `linenoiseProbe` finds no support of
-- escape sequences.
pub record Terminal : Type 0 where
  pub installs : Bool
  pub is_dumb : Bool

-- After the probe
unfoldable pub after_probe : Bool → List TerminalCall
after_probe true = set_dumb_mode ∷ []
after_probe false = []

-- The set-up of the terminal; `none` if `ESP_ERROR_CHECK` aborts.
unfoldable pub set_up : Terminal → Option (List TerminalCall)
set_up terminal =
    if terminal.installs
    then some (
        setvbuf_stdin
        ∷ setvbuf_stdout
        ∷ uart_driver_install
        ∷ use_driver
        ∷ rx_line_endings
        ∷ tx_line_endings
        ∷ linenoise_probe
        ∷ after_probe terminal.is_dumb)
    else none

-- The lines that `linenoiseHistoryAdd` is given
unfoldable pub history : List Bytes → List Bytes
history [] = []
history (line ∷ lines) = let rest = history lines in if is_entered line then line ∷ rest else rest

-- What the history should hold: the lines typed, in order, without the empty ones and those that
-- begin with a slash.
pub data Keeps : List Bytes → List Bytes → Type 0 where
  no_line : Keeps [] []
  empty : {lines kept : List Bytes} → Keeps lines kept → Keeps ([] ∷ lines) kept
  slash :
      {lines kept : List Bytes} (line : Bytes)
      → Keeps lines kept
      → Keeps ((b'/' ∷ line) ∷ lines) kept
  entered :
      {lines kept : List Bytes} (c : ℕ) (line : Bytes)
      → c ≢ b'/'
      → Keeps lines kept
      → Keeps ((c ∷ line) ∷ lines) ((c ∷ line) ∷ kept)

-- What `repl_task` comes to when no line is left
pub record Console (D M : Type 0) : Type 0 where
  pub mount : Mount D
  pub calls : List TerminalCall
  pub status : Bool
  pub stack : Stack
  pub machine : M
  pub entered : List Bytes

module _ {D File Dir M : Type 0} (vfs : Vfs D File Dir) (boot : Boot M) (vm : Machine M) where
  -- The console, with the terminal set up
  unfoldable pub with_terminal : List TerminalCall → Mount D → List Bytes → Console D M
  with_terminal calls s lines =
      let (status, stack, m) = repl_task boot vm lines in
      record {
        mount = s;
        calls = calls;
        status = status;
        stack = stack;
        machine = m;
        entered = history lines;
      }

  -- `repl_task`; the result of `littlefs_init` is not looked at.
  unfoldable pub whole_repl_task : Terminal → Mount D → List Bytes → Option (Console D M)
  whole_repl_task terminal s lines =
      let (err, s') = littlefs_init vfs s in
      elim (set_up terminal) [ none ↦ none | some calls ↦ some (with_terminal calls s' lines) ]
