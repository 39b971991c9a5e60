-- ===== src/Tests/Events.antt =====
-- Calls of Berry code at concrete inputs.
use esp32_berry_lang.Base.{
  Bytes, List, true, ◌+◌, ◌*◌, ◌%◌, ◌^◌, ◌≤◌, ◌<◌, ◌⊎◌, arith, [], ◌∷◌, codes, none, some,
  if◌then◌else◌, ◌==◌, ◌≡◌, refl,
}
use esp32_berry_lang.Base.Int.{pos}
use esp32_berry_lang.Events.{
  nil, int, string, function, object, returned, failed, Interpreter, is_nil, ret_of, dispatch_event,
  event_dispatcher, fast_loop_body, fast_loop,
}
use esp32_berry_lang.Events.Balance.{on, IsBalanced, dispatch_event-IsBalanced}
use esp32_berry_lang.Events.Loop.{fails, three_below, fast_loop-on}
use esp32_berry_lang.Events.Run.{event_dispatcher_lem}
use esp32_berry_lang.Events.Init.{compiled, Boot, berry_init, program, loaded, ran, berry_init_lem}
use esp32_berry_lang.Events.Observability.{
  Names, collected, gc_start, gc_end, Observed, observe, to_int32, observe_gc,
}

-- A machine where `custom` has the method `event`, which returns 7, and `load` is a function.
abbrev vm : Interpreter
vm = record {
  getglobal = λ name. elim name [
    | [] ↦ none
    | c ∷ rest ↦ if c == 99 then some (object 1) else some (function 2)
  ];
  getmethod = λ self name. function 3;
  pcall = λ f args. returned (int (pos 7));
}

-- A machine where every call fails.
abbrev failing : Interpreter
failing = record vm { pcall = λ f args. failed 0 (string (codes "type_error") ∷ []) }

dispatch_event-IsBalanced_example :
    IsBalanced (nil ∷ []) (dispatch_event failing none none (pos 0) none [] (on (nil ∷ [])))
dispatch_event-IsBalanced_example =
    dispatch_event-IsBalanced failing none none (pos 0) none [] (nil ∷ [])

event_dispatcher_lem_example :
    event_dispatcher vm (some (codes "gc")) none (pos 4) none (1 ∷ []) (on (nil ∷ []))
    ≡ (pos 7, on [])
unfolding ret_of is_nil
event_dispatcher_lem_example =
    event_dispatcher_lem vm (some (codes "gc")) none (pos 4) none (1 ∷ []) (nil ∷ []) (object 1)
      (function 3) (int (pos 7)) refl refl refl refl refl

fast_loop-on_example :
    (fast_loop_body failing (on (nil ∷ nil ∷ []))
      ≡ (if fails failing then three_below else on (nil ∷ nil ∷ [])))
    × (fast_loop failing (on (nil ∷ nil ∷ [])) ≡ on [])
fast_loop-on_example = fast_loop-on failing (nil ∷ nil ∷ [])

-- A firmware whose programs compile to the function 5, which returns 7; the state is the list of the
-- events sent.
abbrev firmware : Boot (List Bytes)
firmware = record {
  vm_new = [];
  set_threshold = λ n m. m;
  loadstring = λ source m. (compiled (function 5), m);
  run = λ f m. (returned (int (pos 7)), m);
  interpreter = λ m. vm;
  after_event = λ type m. type ∷ m;
}

berry_init_lem_example :
    berry_init firmware (some (codes "x")) ≡ (true, on [], codes "preinit" ∷ codes "gc" ∷ [])
unfolding program loaded ran
berry_init_lem_example = berry_init_lem firmware (some (codes "x"))

abbrev no_names : Names
no_names = record { typename = λ v. []; classname = λ v. none }

abbrev unused : Observed
unused = record { vm_usage = pos 0; gc_time = 0; threshold = 30000 }

-- A collection of 3 milliseconds over the end of the 32 bits
observe_gc_example :
    let (s', log) =
      observe no_names [] 4294967298000 9000
        (gc_end (pos 9000) 40 12 [])
        (observe no_names [] 4294967295000 20000 (gc_start (pos 20000)) unused).0 in
    (log ≡ collected (pos 20000) (pos 9000) (to_int32 12) (to_int32 40) (pos 3) [] ∷ [])
    × (((unused.threshold ≤ 20 * 1024) × (s'.threshold ≡ unused.threshold))
        ⊎ ((20 * 1024 < unused.threshold) × (s'.threshold ≡ (9000 + 10 * 1024) % 2 ^ 32)))
observe_gc_example =
    observe_gc no_names [] [] 4294967295000 4294967298000 20000 9000 (pos 20000) (pos 9000) 40 12 []
      unused (omega arith) (omega arith)
