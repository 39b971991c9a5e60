-- ===== src/Console/Session.antt =====
-- The console of main/main.c as a session that is idle or holds the lines of an unfinished source.
use esp32_berry_lang.Base.{◌≡◌, true, Bytes, List, [], ◌∷◌, ◌++◌, codes, if◌then◌else◌}
use esp32_berry_lang.Base.Int.{ℤ}
use esp32_berry_lang.Events.{Value, string, Stack}
use esp32_berry_lang.Events.Balance.{on}
use esp32_berry_lang.Console.{
  be_malloc_fail, Compiled, compiled, refused, no_memory, Ended, returned, thrown, exited,
  out_of_memory, Machine, ends_in_eos, is_string_of, text_of, print_value, is_entered,
}

-- The console waits for a first line, or holds a source with the exception that said it is not
-- complete.
pub data Session : Type 0 where
  idle : Session
  pending : Bytes → Value → Bytes → Session

-- What a line leads to: a session, the exit of a function with a code, or the end of the memory.
pub data Next (M : Type 0) : Type 0 where
  goes_on : Session → M → Next M
  exits : Value → Value → M → Next M
  fails : Next M

-- The stack of a session
unfoldable pub shape : Session → Stack
shape idle = on []
shape (pending src e msg) = on (string msg ∷ e ∷ string src ∷ [])

abbrev pub IsSession : Session → Type 0
IsSession idle = Unit
IsSession (pending src e msg) = ends_in_eos msg ≡ true

module _ {M : Type 0} (vm : Machine M) where
  unfoldable pub performed : Value → Ended × M → Next M
  performed f (returned v, m) = goes_on idle (print_value vm v m)
  performed f (thrown e msg, m) = goes_on idle (vm.dumpexcept e msg m)
  performed f (exited code, m) = exits code f m
  performed f (out_of_memory, m) = fails

  -- The function runs.
  unfoldable pub perform : Value → M → Next M
  perform f m = performed f (vm.pcall f m)

  -- A source has been compiled.
  unfoldable pub judged : Bytes → Compiled × M → Next M
  judged src (compiled f, m) = perform f m
  judged src (refused e msg, m) =
      if ends_in_eos (text_of vm msg)
      then goes_on (pending src e (text_of vm msg)) m
      else goes_on idle (vm.dumpexcept e (string (text_of vm msg)) m)
  judged src (no_memory, m) = fails

  unfoldable pub submit : Bytes → M → Next M
  submit src m = judged src (vm.loadbuffer src m)

  -- A first line has been tried as an expression.
  unfoldable pub tried : Bytes → Compiled × M → Next M
  tried line (compiled f, m) = perform f m
  tried line (refused e msg, m) =
      if is_string_of (codes "syntax_error") e
      then submit line m
      else goes_on idle (vm.dumpexcept e msg m)
  tried line (no_memory, m) = fails

  -- A line in a session
  unfoldable pub enter : Session → Bytes → M → Next M
  enter idle line m = tried line (vm.loadbuffer (codes "return (" ++ (line ++ codes ")")) m)
  enter (pending src e msg) line m = submit (src ++ (b'\n' ∷ line)) m

  -- What `repl_line` returns for it
  abbrev pub Agrees : Next M → ℤ × Stack × M → Type 0
  Agrees (goes_on t m) (res, s, m') = (s ≡ shape t) × (m' ≡ m) × IsSession t
  Agrees (exits code f m) (res, s, m') =
      (res ≡ vm.toindex code) × (s ≡ on (code ∷ f ∷ [])) × (m' ≡ m)
  Agrees fails (res, s, m') = res ≡ be_malloc_fail

  -- The rest of the lines, if the session goes on
  unfoldable pub continue_with : (Session → M → Next M) → Next M → Next M
  continue_with next (goes_on t m) = next t m
  continue_with next (exits code f m) = exits code f m
  continue_with next fails = fails

  -- A line that is typed; an empty one, and one that begins with a slash, is passed over.
  unfoldable pub type_line : Bytes → Session → M → Next M
  type_line line t m = if is_entered line then enter t line m else goes_on t m

  unfoldable pub type_lines : List Bytes → Session → M → Next M
  type_lines [] t m = goes_on t m
  type_lines (line ∷ lines) t m = continue_with (type_lines lines) (type_line line t m)

  -- What the lines lead to, as long as the session goes on
  abbrev pub Follows : Next M → Stack × M → Type 0
  Follows (goes_on t m) (s, m') = (s ≡ shape t) × (m' ≡ m) × IsSession t
  Follows _ _ = Unit
