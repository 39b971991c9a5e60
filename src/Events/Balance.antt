-- ===== src/Events/Balance.antt =====
-- The balance of the Berry stack over the calls of Berry code.
use esp32_berry_lang.Base.{
  ℕ, suc, Bool-cases, Bytes, List, [], ◌∷◌, ◌++◌, codes, Option, length, ◌≡◌, ◌≢◌, refl, inl, inr,
  arith,
}
use esp32_berry_lang.Base.Int.{ℤ, pos}
use esp32_berry_lang.Events.{
  Value, int, string, bytes, Stack, push_on, push, be_top, pop_from, be_pop, be_error_pop_all,
  check_be_top, Call, returned, failed, Interpreter, is_nil, value_at, after_call, be_pcall, Event,
  finished, left_early, finish_event, call_bytes, text, call_event, push_event, value_or_nil,
  dispatch_event,
}

-- A stack that holds these values.
abbrev pub on : List Value → Stack
on vs = record { values = vs; below = 0 }

pop_from_all : (values : List Value) → pop_from (length values) values 0 ≡ on []
unfolding pop_from
pop_from_all [] = refl
pop_from_all (v ∷ values) = pop_from_all values

be_top_on : (vs : List Value) → be_top (on vs) ≡ pos (length vs)
unfolding be_top
be_top_on vs = ground arith

pub pop_all : (vs : List Value) → be_pop (be_top (on vs)) (on vs) ≡ on []
unfolding be_pop
pop_all vs = rw (be_top_on vs) (pop_from_all vs)

pub check_be_top_on : (vs : List Value) → check_be_top (on vs) ≡ on []
unfolding check_be_top
check_be_top_on vs = pop_all vs

pub error_pop_all : (vs : List Value) → be_error_pop_all (on vs) ≡ on []
unfolding be_error_pop_all
error_pop_all vs = pop_all vs

-- The dispatcher ends at its last check with the values it has found, or early with none.
unfoldable pub IsBalanced : List Value → Event → Type 0
IsBalanced vs (finished ret s) = s ≡ on vs
IsBalanced vs (left_early ret s) = (s ≡ on []) × (ret ≢ pos 0)

pop_one :
    (left : List Value) (v : Value) (vs : List Value)
    → (ws : List Value) × (be_pop (pos 1) (on (left ++ (v ∷ vs))) ≡ on ws)
unfolding be_pop pop_from
pop_one [] v vs = (vs, refl)
pop_one (w ∷ left) v vs = (left ++ (v ∷ vs), refl)

left_early-IsBalanced :
    (vs ws : List Value) (code : ℕ) → IsBalanced vs (finish_event (suc code, on ws))
unfolding IsBalanced finish_event be_error_pop_all
left_early-IsBalanced vs ws code = (pop_all ws, λ h. ground arith)

five_returned :
    (v payload idx cmd type self custom : Value) (vs : List Value)
    → IsBalanced vs (finish_event (0, on (payload ∷ idx ∷ cmd ∷ type ∷ self ∷ v ∷ custom ∷ vs)))
unfolding IsBalanced finish_event be_pop pop_from
five_returned v payload idx cmd type self custom vs = refl

six_returned :
    (v raw payload idx cmd type self custom : Value) (vs : List Value)
    → IsBalanced vs (
        finish_event
          (0, be_pop (pos 1) (on (raw ∷ payload ∷ idx ∷ cmd ∷ type ∷ self ∷ v ∷ custom ∷ vs))))
unfolding IsBalanced finish_event be_pop pop_from
six_returned v raw payload idx cmd type self custom vs = refl

-- After the call of a method with five arguments, or six, over the instance.
five :
    (c : Call) (payload idx cmd type self event custom : Value) (vs : List Value)
    → IsBalanced vs (
        finish_event
          (after_call 5 c (on (payload ∷ idx ∷ cmd ∷ type ∷ self ∷ event ∷ custom ∷ vs))))
unfolding after_call
five (returned v) payload idx cmd type self event custom vs =
    five_returned v payload idx cmd type self custom vs
five (failed code left) payload idx cmd type self event custom vs = left_early-IsBalanced vs _ code

six :
    (c : Call) (raw payload idx cmd type self event custom : Value) (vs : List Value)
    → let (ret, s) =
        after_call 6 c (on (raw ∷ payload ∷ idx ∷ cmd ∷ type ∷ self ∷ event ∷ custom ∷ vs)) in
      IsBalanced vs (finish_event (ret, be_pop (pos 1) s))
unfolding after_call
six (returned v) raw payload idx cmd type self event custom vs =
    six_returned v raw payload idx cmd type self custom vs
six (failed code left) raw payload idx cmd type self event custom vs =
    let (ws, e) = pop_one left raw (payload ∷ idx ∷ cmd ∷ type ∷ self ∷ event ∷ custom ∷ vs) in
    rw e (left_early-IsBalanced vs ws code)

call_event-IsBalanced :
    (vm : Interpreter) (raw : Bytes) (payload idx cmd type self event custom : Value)
    (vs : List Value)
    → IsBalanced vs
        (call_event vm raw (on (payload ∷ idx ∷ cmd ∷ type ∷ self ∷ event ∷ custom ∷ vs)))
unfolding call_event call_bytes be_pcall push push_on
call_event-IsBalanced vm [] payload idx cmd type self event custom vs =
    five _ payload idx cmd type self event custom vs
call_event-IsBalanced vm (b ∷ bs) payload idx cmd type self event custom vs =
    six _ (bytes (b ∷ bs)) payload idx cmd type self event custom vs

-- Whatever the interpreter finds and whatever the called code does, `callBerryEventDispatcher`
-- comes to its last check with the values on the stack that it began with, or leaves early with a
-- code that is not 0 and an empty stack.
pub dispatch_event-IsBalanced :
    (vm : Interpreter) (type cmd : Option Bytes) (idx : ℤ) (payload : Option Bytes) (raw : Bytes)
    (vs : List Value)
    → IsBalanced vs (dispatch_event vm type cmd idx payload raw (on vs))
unfolding dispatch_event push_event push push_on be_pop pop_from IsBalanced value_at
dispatch_event-IsBalanced vm type cmd idx payload raw vs =
    elim (Bool-cases (is_nil (value_or_nil (vm.getglobal (codes "custom"))))) [
      | inl nothing ↦ rw nothing refl
      | inr custom ↦
          elim (Bool-cases (
            is_nil (vm.getmethod (value_or_nil (vm.getglobal (codes "custom"))) (codes "event")))) [
              | inl missing ↦ rw (custom, missing) refl
              | inr event ↦
                  rw (custom, event)
                    (call_event-IsBalanced vm raw (string (text payload)) (int idx)
                      (string (text cmd)) (string (text type)) _ _ _ vs)
            ]
    ]
