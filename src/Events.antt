-- ===== src/Events.antt =====
-- Calls of Berry code from the firmware: `checkBeTop`, `be_error_pop_all`,
-- `callBerryEventDispatcher`, `callBerryFastLoop` and `BrLoad` of
-- components/berry/port/be_portutils.c. What the interpreter finds and what the called code returns
-- is a parameter; the log is left out, and the observability hook is in Observability.
pub mod Balance
pub mod Init
pub mod Loop
pub mod Observability
pub mod Run
use esp32_berry_lang.Base.{
  ℕ, zero, suc, ◌+◌, ◌-◌, ltb, Bool, true, false, Bytes, List, [], ◌∷◌, ◌++◌, codes, Option, none,
  some, length, replicate, take, drop, if◌then◌else◌,
}
use esp32_berry_lang.Base.Int.{ℤ, pos, negsuc, sub_ℕ}

pub data Value : Type 0 where
  nil : Value
  bool : Bool → Value
  int : ℤ → Value
  string : Bytes → Value
  bytes : Bytes → Value
  function : ℕ → Value
  object : ℕ → Value

-- The stack above its base, the last value pushed first. `be_pop` moves the top without a test, so it
-- can come to stand below the base, by `below` slots.
pub record Stack : Type 0 where
  pub values : List Value
  pub below : ℕ

unfoldable pub push_on : ℕ → Value → Stack → Stack
push_on zero v s = record s { values = v ∷ s.values }
push_on (suc b) v s = record s { below = b }

unfoldable pub push : Value → Stack → Stack
push v s = push_on s.below v s

-- `be_top`
unfoldable pub be_top : Stack → ℤ
be_top s = sub_ℕ (length s.values) s.below

unfoldable pub pop_from : ℕ → List Value → ℕ → Stack
pop_from zero values below = record { values = values; below = below }
pop_from (suc n) [] below = pop_from n [] (suc below)
pop_from (suc n) (v ∷ values) below = pop_from n values below

-- `be_pop`; a negative count moves the top up, over slots that hold old values (here nil).
unfoldable pub be_pop : ℤ → Stack → Stack
be_pop (pos n) s = pop_from n s.values s.below
be_pop (negsuc k) s = record {
  values = replicate (suc k - s.below) nil ++ s.values;
  below = s.below - suc k;
}

-- `be_error_pop_all`
unfoldable pub be_error_pop_all : Stack → Stack
be_error_pop_all s = be_pop (be_top s) s

-- `checkBeTop`: it pops if the top is not 0, and to pop 0 values changes nothing.
unfoldable pub check_be_top : Stack → Stack
check_be_top s = be_pop (be_top s) s

-- How a protected call ends: with a result, or with an error code that is not 0 and values left on
-- the stack.
pub data Call : Type 0 where
  returned : Value → Call
  failed : ℕ → List Value → Call

-- What the interpreter finds and does: globals, members for the use as a method, which are nil where
-- there is none, and calls.
pub record Interpreter : Type 0 where
  pub getglobal : Bytes → Option Value
  pub getmethod : Value → Bytes → Value
  pub pcall : Value → List Value → Call

unfoldable pub is_nil : Value → Bool
is_nil nil = true
is_nil _ = false

-- The value under `n` others, nil where the stack has no such value.
unfoldable pub value_at : ℕ → List Value → Value
value_at n [] = nil
value_at zero (v ∷ values) = v
value_at (suc n) (v ∷ values) = value_at n values

unfoldable pub reverse_onto : List Value → List Value → List Value
reverse_onto [] acc = acc
reverse_onto (v ∷ values) acc = reverse_onto values (v ∷ acc)

-- `be_pcall(vm, argc)`: the function lies under its arguments and is replaced by the result; the
-- arguments stay. The first component is the error code.
unfoldable pub after_call : ℕ → Call → Stack → ℕ × Stack
after_call argc (returned v) s =
    (0, record s { values = take argc s.values ++ (v ∷ drop (suc argc) s.values) })
after_call argc (failed code left) s = (suc code, record s { values = left ++ s.values })

unfoldable pub be_pcall : Interpreter → ℕ → Stack → ℕ × Stack
be_pcall vm argc s =
    after_call argc (vm.pcall (value_at argc s.values) (reverse_onto (take argc s.values) [])) s

unfoldable pub truth : Bool → ℤ
truth true = pos 1
truth false = pos 0

-- `ret` from the result: the integer or the Boolean it is, and otherwise what `be_pcall` returned, 0.
unfoldable pub ret_of : Value → ℤ
ret_of (int n) = n
ret_of (bool b) = truth b
ret_of _ = pos 0

-- How `callBerryEventDispatcher` comes to its end: at its last check of the stack, or early with an
-- error code.
pub data Event : Type 0 where
  finished : ℤ → Stack → Event
  left_early : ℤ → Stack → Event

-- The dispatcher after the call, whose code and stack are given
unfoldable pub finish_event : ℕ × Stack → Event
finish_event (zero, s) =
    let popped = be_pop (pos 5) s in
    finished (ret_of (value_at 0 popped.values)) (be_pop (pos 1) (be_pop (pos 1) popped))
finish_event (suc code, s) = left_early (pos (suc code)) (be_error_pop_all s)

-- `be_pcall(vm, 6)` and the pop of the additional argument
unfoldable pub call_bytes : Interpreter → Stack → ℕ × Stack
call_bytes vm s = let (ret, s') = be_pcall vm 6 s in (ret, be_pop (pos 1) s')

-- NULL is `none`.
unfoldable pub text : Option Bytes → Bytes
text none = []
text (some t) = t

-- `if (data_len > 0)`
unfoldable pub call_event : Interpreter → Bytes → Stack → Event
call_event vm [] s = finish_event (be_pcall vm 5 s)
call_event vm (b ∷ bs) s = finish_event (call_bytes vm (push (bytes (b ∷ bs)) s))

-- The instance and the arguments from `type` to `payload`
unfoldable pub push_event : Option Bytes → Option Bytes → ℤ → Option Bytes → Stack → Stack
push_event type cmd idx payload s = push (string (text payload)) (
    push (int idx)
      (push (string (text cmd)) (push (string (text type)) (push (value_at 1 s.values) s))))

unfoldable pub value_or_nil : Option Value → Value
value_or_nil none = nil
value_or_nil (some v) = v

-- `callBerryEventDispatcher` between its two checks of the stack. `raw` is the `data_len` bytes of
-- the payload.
unfoldable pub dispatch_event :
    Interpreter → Option Bytes → Option Bytes → ℤ → Option Bytes → Bytes → Stack → Event
dispatch_event vm type cmd idx payload raw s =
    let custom = value_or_nil (vm.getglobal (codes "custom")) in
    let s1 = push custom s in
    let event = vm.getmethod custom (codes "event") in
    let s2 = push event s1 in
    if is_nil custom
    then finished (pos 0) (be_pop (pos 1) s1)
    else if is_nil event
    then finished (pos 0) (be_pop (pos 1) (be_pop (pos 1) s2))
    else call_event vm raw (push_event type cmd idx payload s2)

unfoldable pub end_event : Event → ℤ × Stack
end_event (finished ret s) = (ret, check_be_top s)
end_event (left_early ret s) = (ret, s)

-- `callBerryEventDispatcher` of a machine that is there
unfoldable pub event_dispatcher :
    Interpreter → Option Bytes → Option Bytes → ℤ → Option Bytes → Bytes → Stack → ℤ × Stack
event_dispatcher vm type cmd idx payload raw s =
    end_event (dispatch_event vm type cmd idx payload raw (check_be_top s))

unfoldable pub is_function : Value → Bool
is_function (function n) = true
is_function _ = false

unfoldable pub is_some : Option Value → Bool
is_some none = false
is_some (some v) = true

-- `callBerryFastLoop`, after the call
unfoldable pub after_loop : ℕ × Stack → Stack
after_loop (zero, s) = be_pop (pos 1) s
after_loop (suc code, s) = be_pop (pos 1) (be_error_pop_all s)

-- `callBerryFastLoop` of a machine that is there, up to the last clean-up
unfoldable pub fast_loop_body : Interpreter → Stack → Stack
fast_loop_body vm s =
    let global = vm.getglobal (codes "custom") in
    let s1 = push (value_or_nil global) s in
    let method = vm.getmethod (value_or_nil global) (codes "fast_loop") in
    let s2 = push method s1 in
    let looped = after_loop (be_pcall vm 1 (push (value_at 1 s2.values) s2)) in
    let s3 = if is_function method then looped else s2 in
    let s4 = if is_some global then be_pop (pos 1) s3 else s1 in be_pop (pos 1) s4

-- `callBerryFastLoop` of a machine that is there
unfoldable pub fast_loop : Interpreter → Stack → Stack
fast_loop vm s = let s' = fast_loop_body vm s in be_pop (be_top s') s'

-- `BrLoad`, after the call
unfoldable pub after_load : ℕ × Stack → Stack
after_load (zero, s) = be_pop (pos 2) s
after_load (suc code, s) = be_error_pop_all s

-- `BrLoad` of a machine that is there; whether the file was found only goes to the log.
unfoldable pub load : Interpreter → Bytes → Stack → Stack
load vm script_name s =
    let global = value_or_nil (vm.getglobal (codes "load")) in
    let s1 = push global s in
    let called = after_load (be_pcall vm 1 (push (string script_name) s1)) in
    if is_nil global then s1 else called
