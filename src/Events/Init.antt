-- ===== src/Events/Init.antt =====
-- `callBerryGC` and `BerryInit` of components/berry/port/be_portutils.c. The machine's state is the
-- type `M`, and what the interpreter does to it is a parameter. The deletion of an earlier machine and
-- the log are left out.
use esp32_berry_lang.Base.{
  ℕ, zero, suc, ◌≡◌, refl, Bool, true, Bytes, List, [], ◌∷◌, ◌++◌, codes, Option, none, some,
  if◌then◌else◌,
}
use esp32_berry_lang.Base.Int.{pos, leb_ℤ}
use esp32_berry_lang.Events.{
  Value, Stack, push, push_on, be_top, be_pop, pop_from, be_error_pop_all, Call, returned, failed,
  Interpreter, after_call, Event, finished, left_early, end_event, event_dispatcher,
}
use esp32_berry_lang.Events.Balance.{
  on, check_be_top_on, error_pop_all, IsBalanced, dispatch_event-IsBalanced,
}

-- How `be_loadstring` ends: with a function, or with an error code that is not 0 and values left on
-- the stack.
pub data Loaded : Type 0 where
  compiled : Value → Loaded
  refused : ℕ → List Value → Loaded

-- The machine: a new one with the hooks set and the libraries loaded, `gc.threshold`, the compiler,
-- the call of a function without arguments, what the machine is to the calls of an event, and what
-- an event of a type does to it.
pub record Boot (M : Type 0) : Type 0 where
  pub vm_new : M
  pub set_threshold : ℕ → M → M
  pub loadstring : Bytes → M → Loaded × M
  pub run : Value → M → Call × M
  pub interpreter : M → Interpreter
  pub after_event : Bytes → M → M

abbrev pub first_threshold : ℕ
first_threshold = 3584

module _ {M : Type 0} (vm : Boot M) where
  -- `callBerryEventDispatcher` with a type only, and `callBerryGC`
  unfoldable pub send : Bytes → Stack × M → Stack × M
  send type (s, m) =
      let sent = event_dispatcher (vm.interpreter m) (some type) none (pos 0) none [] s in
      (sent.1, vm.after_event type m)

  unfoldable pub call_gc : Stack × M → Stack × M
  call_gc s = send (codes "gc") s

  -- `if (be_top(*vm) > 1)`
  unfoldable pub pop_result : Stack → Stack
  pop_result s = if leb_ℤ (pos 2) (be_top s) then be_error_pop_all s else be_pop (pos 1) s

  -- After `be_pcall`
  unfoldable pub after_run : ℕ × Stack → M → Stack × M
  after_run (zero, s) m = call_gc (pop_result s, m)
  after_run (suc code, s) m = (be_error_pop_all s, m)

  unfoldable pub call_main : Stack → Call × M → Stack × M
  call_main s (c, m) = after_run (after_call 0 c s) m

  -- After `be_loadstring`
  unfoldable pub after_load : Loaded × M → Stack → Stack × M
  after_load (compiled f, m) s = call_main (push f s) (vm.run f m)
  after_load (refused code left, m) s =
      (be_error_pop_all (record s { values = left ++ s.values }), m)

  unfoldable pub run_program : Option Bytes → Stack → M → Stack × M
  run_program none s m = (s, m)
  run_program (some berry_prog) s m = after_load (vm.loadstring berry_prog m) s

  -- `BerryInit`: what it returns, the stack and the machine
  unfoldable pub berry_init : Option Bytes → Bool × Stack × M
  berry_init berry_prog =
      let (s, m) =
        send (codes "preinit")
          (run_program berry_prog (on []) (vm.set_threshold first_threshold vm.vm_new)) in
      (true, s, m)

  -- The machine after the program: the event `gc` is sent if it was compiled and returned.
  unfoldable pub ran : Call × M → M
  ran (returned v, m) = vm.after_event (codes "gc") m
  ran (failed code left, m) = m

  unfoldable pub loaded : Loaded × M → M
  loaded (compiled f, m) = ran (vm.run f m)
  loaded (refused code left, m) = m

  unfoldable pub program : Option Bytes → M → M
  program none m = m
  program (some berry_prog) m = loaded (vm.loadstring berry_prog m)

  end_event-on : (e : Event) → IsBalanced [] e → (end_event e).1 ≡ on []
  unfolding end_event IsBalanced
  end_event-on (finished ret s) h = rw h (check_be_top_on [])
  end_event-on (left_early ret s) h = h.0

  send-on :
      (type : Bytes) (vs : List Value) (m : M)
      → send type (on vs, m) ≡ (on [], vm.after_event type m)
  unfolding send event_dispatcher
  send-on type vs m =
      rw
        (
          check_be_top_on vs,
          end_event-on _
              (dispatch_event-IsBalanced (vm.interpreter m) (some type) none (pos 0) none [] []),
        )
        refl

  call_main-on : (f : Value) (r : Call × M) → call_main (push f (on [])) r ≡ (on [], ran r)
  unfolding call_main after_run after_call pop_result be_top be_pop pop_from call_gc push push_on
      ran
  call_main-on f (returned v, m) = send-on (codes "gc") [] m
  call_main-on f (failed code left, m) = simp (error_pop_all (left ++ (f ∷ []))) refl

  after_load-on : (r : Loaded × M) → after_load r (on []) ≡ (on [], loaded r)
  unfolding after_load loaded
  after_load-on (compiled f, m) = call_main-on f (vm.run f m)
  after_load-on (refused code left, m) = simp (error_pop_all (left ++ [])) refl

  run_program-on :
      (berry_prog : Option Bytes) (m : M)
      → run_program berry_prog (on []) m ≡ (on [], program berry_prog m)
  unfolding run_program program
  run_program-on none m = refl
  run_program-on (some berry_prog) m = after_load-on (vm.loadstring berry_prog m)

  -- Whatever the program is and however it ends, `BerryInit` returns true with an empty stack; on a
  -- new machine with the first threshold it has run the program, has sent the event `gc` if the
  -- program was compiled and returned, and has sent the event `preinit` last.
  pub berry_init_lem :
      (berry_prog : Option Bytes)
      → berry_init berry_prog ≡ (
        true,
        on [],
        vm.after_event
            (codes "preinit")
            (program berry_prog (vm.set_threshold first_threshold vm.vm_new)),
      )
  unfolding berry_init
  berry_init_lem berry_prog =
      rw (run_program-on berry_prog (vm.set_threshold first_threshold vm.vm_new))
        (simp (send-on (codes "preinit") [] _) refl)
