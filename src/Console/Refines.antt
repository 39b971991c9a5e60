-- ===== src/Console/Refines.antt =====
-- The console of main/main.c refines its sessions.
use esp32_berry_lang.Base.{
  ◌≡◌, refl, Bool, true, false, Bool-cases, inl, inr, Bytes, List, [], ◌∷◌, ◌++◌, codes,
  if◌then◌else◌,
}
use esp32_berry_lang.Base.Int.{ℤ, pos}
use esp32_berry_lang.Events.{
  Value, string, Stack, push_on, push, be_top, pop_from, be_pop, value_at,
}
use esp32_berry_lang.Events.Balance.{on}
use esp32_berry_lang.Console.{
  be_malloc_fail, Compiled, compiled, refused, no_memory, Ended, returned, thrown, exited,
  out_of_memory, Machine, set_top, remove_at, be_remove, ends_in_eos, is_string_of, concat,
  be_strconcat, text_of, tostring, is_multline, loaded, be_loadbuffer, above, try_return,
  is_syntax_error, be_dumpexcept, after_call, call_script, run, finish_source, source_loaded,
  compile_source, first_line, more_line, line_for, repl_line, is_entered, enter_line, repl_lines,
}
use esp32_berry_lang.Console.Session.{
  Session, idle, pending, Next, goes_on, exits, fails, shape, IsSession, performed, perform, judged,
  submit, tried, enter, Agrees, continue_with, type_line, type_lines, Follows,
}

module _ {M : Type 0} (vm : Machine M) where
  performed-Agrees :
      (f : Value) (r : Ended × M) → Agrees vm (performed vm f r) (after_call vm r (on (f ∷ [])))
  unfolding performed after_call shape be_dumpexcept push push_on be_pop pop_from value_at
  performed-Agrees f (returned v, m) = (refl, refl, tt)
  performed-Agrees f (thrown e msg, m) = (refl, refl, tt)
  performed-Agrees f (exited code, m) = (refl, refl, refl)
  performed-Agrees f (out_of_memory, m) = refl

  perform-Agrees : (f : Value) (m : M) → Agrees vm (perform vm f m) (run vm (pos 0) (on (f ∷ [])) m)
  unfolding perform run call_script value_at
  perform-Agrees f m = performed-Agrees f (vm.pcall f m)

  pending_kept :
      (src : Bytes) (e : Value) (msg : Bytes) (m : M)
      → ends_in_eos msg ≡ true
      → Agrees vm
          (goes_on (pending src e msg) m)
          (finish_source vm (pos 3) (true, on (string msg ∷ e ∷ string src ∷ [])) m)
  unfolding finish_source shape
  pending_kept src e msg m eos = (refl, refl, eos)

  refused_printed :
      (src : Bytes) (e : Value) (msg : Bytes) (m : M)
      → Agrees vm
          (goes_on idle (vm.dumpexcept e (string msg) m))
          (finish_source vm (pos 3) (false, on (string msg ∷ e ∷ string src ∷ [])) m)
  unfolding finish_source run above be_remove remove_at be_dumpexcept be_pop pop_from value_at shape
  refused_printed src e msg m = (refl, refl, tt)

  memory_gone :
      (src : Bytes) (eos : Bool) (m : M)
      → (finish_source vm (pos 2) (eos, on (string src ∷ [])) m).0 ≡ be_malloc_fail
  unfolding finish_source run
  memory_gone src true m = refl
  memory_gone src false m = refl

  judged-Agrees :
      (src : Bytes) (r : Compiled × M)
      → let (res, s, m) = loaded vm r (on (string src ∷ [])) in
        Agrees vm (judged vm src r) (source_loaded vm res s m)
  unfolding judged loaded source_loaded push push_on be_remove remove_at is_multline tostring be_top
      value_at set_top text_of
  judged-Agrees src (compiled f, m) = perform-Agrees f m
  judged-Agrees src (refused e msg, m) = elim (Bool-cases (ends_in_eos (text_of vm msg))) [
    | inl eos ↦ rw eos (pending_kept src e (text_of vm msg) m eos)
    | inr other ↦ rw other (refused_printed src e (text_of vm msg) m)
  ]
  judged-Agrees src (no_memory, m) = memory_gone src (ends_in_eos src) m

  submit-Agrees :
      (src : Bytes) (m : M)
      → Agrees vm (submit vm src m) (compile_source vm (on (string src ∷ [])) m)
  unfolding submit compile_source tostring text_of set_top value_at be_loadbuffer
  submit-Agrees src m = judged-Agrees src (vm.loadbuffer src m)

  -- What a line that is no expression leads to.
  retried-Agrees :
      (line : Bytes) (e msg : Value) (m : M)
      → let s = on (msg ∷ e ∷ []) in
        Agrees vm (tried vm line (refused e msg, m)) (
          if is_string_of (codes "syntax_error") e
          then compile_source vm (push (string line) (be_pop (pos 2) s)) m
          else run vm (pos 3) s m)
  unfolding tried push push_on be_pop pop_from run be_dumpexcept value_at shape
  retried-Agrees line e msg m = elim (Bool-cases (is_string_of (codes "syntax_error") e)) [
    | inl syntax ↦ rw syntax (submit-Agrees line m)
    | inr other ↦ rw other (refl, refl, tt)
  ]

  tried-Agrees :
      (line src : Bytes) (r : Compiled × M)
      → let (res, s, m) = loaded vm r (on (string src ∷ [])) in
        let s1 = be_remove (above res) s in
        Agrees vm (tried vm line r) (
          if is_syntax_error res s1
          then compile_source vm (push (string line) (be_pop (pos 2) s1)) m
          else run vm res s1 m)
  unfolding loaded above be_remove remove_at is_syntax_error push push_on value_at
  tried-Agrees line src (compiled f, m) = unfold tried in perform-Agrees f m
  tried-Agrees line src (refused e msg, m) = retried-Agrees line e msg m
  tried-Agrees line src (no_memory, m) = unfold tried run in refl

  is_multline-shape : (t : Session) → IsSession t → (is_multline vm (shape t)).1 ≡ shape t
  unfolding is_multline tostring text_of set_top value_at be_top shape
  is_multline-shape idle h = refl
  is_multline-shape (pending src e msg) h = refl

  -- From the stack of a session, `repl_line` does to the stack and the machine what the line does to
  -- the session; after an exit it leaves the function and the code, and for the end of the memory it
  -- returns its code.
  pub repl_line-Agrees :
      (t : Session) (line : Bytes) (m : M)
      → IsSession t
      → Agrees vm (enter vm t line m) (repl_line vm line (shape t) m)
  unfolding enter repl_line line_for is_multline tostring text_of set_top value_at be_top shape
      first_line more_line try_return be_loadbuffer push push_on be_pop pop_from be_strconcat concat
  repl_line-Agrees idle line m h =
      let source = codes "return (" ++ (line ++ codes ")") in
      tried-Agrees line source (vm.loadbuffer source m)
  repl_line-Agrees (pending src e msg) line m h = rw h (submit-Agrees (src ++ (b'\n' ∷ line)) m)

  Agrees-Follows :
      (n : Next M) (res : ℤ) (s : Stack) (m : M) → Agrees vm n (res, s, m) → Follows vm n (s, m)
  Agrees-Follows (goes_on t m') res s m h = h
  Agrees-Follows (exits code f m') res s m h = tt
  Agrees-Follows fails res s m h = tt

  enter_line-Follows :
      (line : Bytes) (t : Session) (m : M)
      → IsSession t
      → Follows vm (type_line vm line t m) (enter_line vm line (shape t) m)
  unfolding enter_line type_line
  enter_line-Follows line t m h = elim (Bool-cases (is_entered line)) [
    | inl entered ↦
        rw entered (Agrees-Follows (enter vm t line m) _ _ _ (repl_line-Agrees t line m h))
    | inr passed ↦ rw passed (refl, refl, h)
  ]

  follow_on :
      (lines : List Bytes) (n : Next M) (r : Stack × M)
      → ((t : Session) (m : M)
          → IsSession t
          → Follows vm (type_lines vm lines t m) (repl_lines vm lines (shape t) m))
      → Follows vm n r
      → Follows vm (continue_with vm (type_lines vm lines) n) (repl_lines vm lines r.0 r.1)
  unfolding continue_with
  follow_on lines (goes_on t m) r rest h = rw (h.0, h.1) (rest t m h.2)
  follow_on lines (exits code f m) r rest h = tt
  follow_on lines fails r rest h = tt

  repl_lines_from :
      (lines : List Bytes) (t : Session) (m : M)
      → IsSession t
      → Follows vm (type_lines vm lines t m) (repl_lines vm lines (shape t) m)
  unfolding repl_lines type_lines
  repl_lines_from [] t m h = (is_multline-shape t h, refl, h)
  repl_lines_from (line ∷ lines) t m h = rw (is_multline-shape t h) (
      follow_on lines (type_line vm line t m) (enter_line vm line (shape t) m)
        (λ t' m' h'. repl_lines_from lines t' m' h') (enter_line-Follows line t m h))

  -- From an empty stack, the loop of `repl_task` over the lines typed leaves the stack and the
  -- machine that the session comes to, unless a line exits or runs out of memory.
  pub repl_lines-Follows :
      (lines : List Bytes) (m : M)
      → Follows vm (type_lines vm lines idle m) (repl_lines vm lines (on []) m)
  repl_lines-Follows lines m = unfold shape in repl_lines_from lines idle m tt
