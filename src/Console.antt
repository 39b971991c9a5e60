-- ===== src/Console.antt =====
-- The console, main/main.c: `is_multline`, `try_return`, `call_script`, `repl_line` and the reading
-- loop of `repl_task`. The Berry stack is that of Events. The compiler and the calls are a parameter
-- over the machine's state, the type `M`; what is printed is part of that state. The set-up of the
-- terminal is in Start.
pub mod Session
pub mod Start
pub mod Refines
pub mod Task
use esp32_berry_lang.Base.{
  ℕ, zero, suc, ◌-◌, ltb, ◌==◌, str_eq, Bool, true, false, not, ◌&&◌, ◌||◌, Bytes, List, [], ◌∷◌,
  ◌++◌, codes, Option, none, some, length, drop, if◌then◌else◌,
}
use esp32_berry_lang.Base.Int.{ℤ, pos, negsuc, leb_ℤ}
use esp32_berry_lang.Events.{Value, nil, string, is_nil, Stack, push, be_top, be_pop, value_at}

-- `berrorcode` as far as the code tells its values apart
abbrev pub be_ok : ℤ
be_ok = pos 0

abbrev pub be_malloc_fail : ℤ
be_malloc_fail = pos 2

abbrev pub be_exception : ℤ
be_exception = pos 3

-- How the compiler ends: with a function, with an exception and its argument, or without memory.
pub data Compiled : Type 0 where
  compiled : Value → Compiled
  refused : Value → Value → Compiled
  no_memory : Compiled

-- How a protected call of a function with no argument ends.
pub data Ended : Type 0 where
  returned : Value → Ended
  thrown : Value → Value → Ended
  exited : Value → Ended
  out_of_memory : Ended

-- The machine: `be_loadbuffer`, `be_pcall`, what `be_dumpvalue` and `be_dumpexcept` print, the text
-- that `be_tostring` makes of a value that is no string, and `be_toindex`.
pub record Machine (M : Type 0) : Type 0 where
  pub loadbuffer : Bytes → M → Compiled × M
  pub pcall : Value → M → Ended × M
  pub dumpvalue : Value → M → M
  pub dumpexcept : Value → Value → M → M
  pub val2str : Value → Bytes
  pub toindex : Value → ℤ

-- The value on the top becomes a string.
unfoldable pub set_top : Value → List Value → List Value
set_top v [] = []
set_top v (w ∷ values) = v ∷ values

-- `be_remove`, at this depth below the top
unfoldable pub remove_at : ℕ → List Value → List Value
remove_at n [] = []
remove_at zero (v ∷ values) = values
remove_at (suc n) (v ∷ values) = v ∷ remove_at n values

unfoldable pub be_remove : ℕ → Stack → Stack
be_remove n s = record s { values = remove_at n s.values }

-- `strlen(msg) > 5 && !strcmp(msg + len - 5, "'EOS'")`
unfoldable pub ends_in_eos : Bytes → Bool
ends_in_eos msg = ltb 5 (length msg) && str_eq (drop (length msg - 5) msg) (codes "'EOS'")

unfoldable pub is_string_of : Bytes → Value → Bool
is_string_of text (string s) = str_eq s text
is_string_of text _ = false

-- `strconcat(-2)`, of two strings
unfoldable pub concat : List Value → List Value
concat (string s ∷ string t ∷ values) = string s ∷ string (t ++ s) ∷ values
concat values = values

unfoldable pub be_strconcat : Stack → Stack
be_strconcat s = record s { values = concat s.values }

-- How many values the compiler has left above the source
unfoldable pub above : ℤ → ℕ
above (pos zero) = 1
above (pos (suc (suc zero))) = 0
above _ = 2

-- `be_getexcept(vm, res) == BE_SYNTAX_ERROR`
unfoldable pub is_syntax_error : ℤ → Stack → Bool
is_syntax_error (pos (suc (suc (suc zero)))) s =
    is_string_of (codes "syntax_error") (value_at 1 s.values)
is_syntax_error res s = false

unfoldable pub is_entered : Bytes → Bool
is_entered [] = false
is_entered (c ∷ line) = not (c == b'/')

module _ {M : Type 0} (vm : Machine M) where
  unfoldable pub text_of : Value → Bytes
  text_of (string s) = s
  text_of v = vm.val2str v

  -- `be_tostring(vm, -1)`
  unfoldable pub tostring : Stack → Bytes × Stack
  tostring s =
      let text = text_of (value_at 0 s.values) in
      (text, record s { values = set_top (string text) s.values })

  -- `is_multline`
  unfoldable pub is_multline : Stack → Bool × Stack
  is_multline s =
      let (msg, s') = tostring s in
      if leb_ℤ (pos 1) (be_top s) then (ends_in_eos msg, s') else (false, s)

  -- `be_loadbuffer`: the function, or the exception and its argument, is pushed.
  unfoldable pub loaded : Compiled × M → Stack → ℤ × Stack × M
  loaded (compiled f, m) s = (be_ok, push f s, m)
  loaded (refused e msg, m) s = (be_exception, push msg (push e s), m)
  loaded (no_memory, m) s = (be_malloc_fail, s, m)

  unfoldable pub be_loadbuffer : Bytes → Stack → M → ℤ × Stack × M
  be_loadbuffer source s m = loaded (vm.loadbuffer source m) s

  -- `try_return`
  unfoldable pub try_return : Bytes → Stack → M → ℤ × Stack × M
  try_return line s m =
      let source = codes "return (" ++ (line ++ codes ")") in
      let (res, s', m') = be_loadbuffer source (push (string source) s) m in
      (res, be_remove (above res) s', m')

  -- `be_dumpexcept`
  unfoldable pub be_dumpexcept : Stack → M → Stack × M
  be_dumpexcept s m =
      (be_pop (pos 2) s, vm.dumpexcept (value_at 1 s.values) (value_at 0 s.values) m)

  -- `be_dumpvalue` of a value that is not nil
  unfoldable pub print_value : Value → M → M
  print_value v m = if is_nil v then m else vm.dumpvalue v m

  -- `call_script`, after the call, and what `repl_line` returns; the function lies under the values
  -- that an exception or an exit has pushed.
  unfoldable pub after_call : Ended × M → Stack → ℤ × Stack × M
  after_call (returned v, m) s =
      (be_ok, be_pop (pos 1) (push v (be_pop (pos 1) s)), print_value v m)
  after_call (thrown e msg, m) s =
      let (s', m') = be_dumpexcept (push msg (push e s)) m in (be_ok, be_pop (pos 1) s', m')
  after_call (exited code, m) s = (vm.toindex code, push code s, m)
  after_call (out_of_memory, m) s = (be_malloc_fail, s, m)

  -- `call_script`
  unfoldable pub call_script : Stack → M → ℤ × Stack × M
  call_script s m = after_call (vm.pcall (value_at 0 s.values) m) s

  -- `RUN`
  unfoldable pub run : ℤ → Stack → M → ℤ × Stack × M
  run (pos zero) s m = call_script s m
  run (pos (suc (suc zero))) s m = (be_malloc_fail, s, m)
  run res s m = let (s', m') = be_dumpexcept s m in (res, s', m')

  -- `if (!res || !is_multline(vm))`
  unfoldable pub finish_source : ℤ → Bool × Stack → M → ℤ × Stack × M
  finish_source res (true, s) m = (res, s, m)
  finish_source res (false, s) m = run res (be_remove (above res) s) m

  unfoldable pub source_loaded : ℤ → Stack → M → ℤ × Stack × M
  source_loaded (pos zero) s m = run be_ok (be_remove 1 s) m
  source_loaded res s m = finish_source res (is_multline s) m

  -- The compilation of the source on the top
  unfoldable pub compile_source : Stack → M → ℤ × Stack × M
  compile_source s m =
      let (src, s1) = tostring s in
      let (res, s2, m') = be_loadbuffer src s1 m in source_loaded res s2 m'

  -- A first line
  unfoldable pub first_line : Bytes → Stack → M → ℤ × Stack × M
  first_line line s m =
      let (res, s1, m1) = try_return line s m in
      if is_syntax_error res s1
      then compile_source (push (string line) (be_pop (pos 2) s1)) m1
      else run res s1 m1

  -- A further line of a source that is not complete
  unfoldable pub more_line : Bytes → Stack → M → ℤ × Stack × M
  more_line line s m =
      let s1 = push (string (b'\n' ∷ line)) (be_pop (pos 2) s) in
      compile_source (be_pop (pos 1) (be_strconcat s1)) m

  unfoldable pub line_for : Bool × Stack → Bytes → M → ℤ × Stack × M
  line_for (true, s) line m = more_line line s m
  line_for (false, s) line m = first_line line s m

  -- `repl_line`
  unfoldable pub repl_line : Bytes → Stack → M → ℤ × Stack × M
  repl_line line s m = line_for (is_multline s) line m

  unfoldable pub enter_line : Bytes → Stack → M → Stack × M
  enter_line line s m =
      let (res, s', m') = repl_line line s m in if is_entered line then (s', m') else (s, m)

  -- The loop of `repl_task` over the lines that are typed; the prompt asks `is_multline` first.
  unfoldable pub repl_lines : List Bytes → Stack → M → Stack × M
  repl_lines [] s m = ((is_multline s).1, m)
  repl_lines (line ∷ lines) s m =
      let (s', m') = enter_line line (is_multline s).1 m in repl_lines lines s' m'
