-- ===== src/Events/Run.antt =====
-- What the calls of Berry code return, and what they leave on the stack.
use esp32_berry_lang.Base.{ℕ, false, Bytes, List, [], ◌∷◌, ◌++◌, codes, Option, none, some, ◌≡◌}
use esp32_berry_lang.Base.Int.{ℤ}
use esp32_berry_lang.Events.{
  Value, nil, int, string, bytes, push_on, push, pop_from, be_pop, returned, failed, Interpreter,
  is_nil, value_at, reverse_onto, after_call, be_pcall, ret_of, finished, finish_event, call_bytes,
  text, call_event, push_event, value_or_nil, dispatch_event, end_event, event_dispatcher,
  after_load, load,
}
use esp32_berry_lang.Events.Balance.{on, check_be_top_on, error_pop_all}

-- The additional argument of an event with raw bytes.
abbrev pub raw_args : Bytes → List Value
raw_args [] = []
raw_args (b ∷ bs) = bytes (b ∷ bs) ∷ []

call_event-returned :
    (vm : Interpreter) (raw : Bytes) (payload idx cmd type self event custom v : Value)
    (vs : List Value)
    → vm.pcall event (self ∷ type ∷ cmd ∷ idx ∷ payload ∷ raw_args raw) ≡ returned v
    → call_event vm raw (on (payload ∷ idx ∷ cmd ∷ type ∷ self ∷ event ∷ custom ∷ vs))
      ≡ finished (ret_of v) (on vs)
unfolding call_event call_bytes be_pcall push push_on value_at reverse_onto finish_event after_call
    be_pop pop_from
call_event-returned vm [] payload idx cmd type self event custom v vs h = simp h
call_event-returned vm (b ∷ bs) payload idx cmd type self event custom v vs h = simp h

-- Let there be a value `custom` with a member `event`, neither nil, and let the call of that method
-- with the instance, the type, the command, the index, the payload, and the raw bytes if there are
-- any, return `v`. Then `callBerryEventDispatcher` returns what `v` is as an integer or a Boolean,
-- and 0 if it is neither, and leaves the stack empty.
pub event_dispatcher_lem :
    (vm : Interpreter) (type cmd : Option Bytes) (idx : ℤ) (payload : Option Bytes) (raw : Bytes)
    (vs : List Value) (self event v : Value)
    → vm.getglobal (codes "custom") ≡ some self
    → vm.getmethod self (codes "event") ≡ event
    → is_nil self ≡ false
    → is_nil event ≡ false
    → vm.pcall event (
        self
        ∷ string (text type)
        ∷ string (text cmd)
        ∷ int idx
        ∷ string (text payload)
        ∷ raw_args raw)
      ≡ returned v
    → event_dispatcher vm type cmd idx payload raw (on vs) ≡ (ret_of v, on [])
unfolding event_dispatcher dispatch_event push_event push push_on value_at value_or_nil end_event
event_dispatcher_lem vm type cmd idx payload raw vs self event v hg hm hs he hc = simp (
  check_be_top_on vs,
  hg,
  hm,
  hs,
  he,
  call_event-returned vm raw (string (text payload)) (int idx) (string (text cmd))
      (string (text type)) self event self v [] hc,
  check_be_top_on [],
)

-- If the call of `load` with the script's name returns, `BrLoad` leaves the stack as it was.
load-returned :
    (vm : Interpreter) (script_name : Bytes) (vs : List Value) (f v : Value)
    → vm.getglobal (codes "load") ≡ some f
    → is_nil f ≡ false
    → vm.pcall f (string script_name ∷ []) ≡ returned v
    → load vm script_name (on vs) ≡ on vs
unfolding load push push_on be_pcall value_at reverse_onto after_call after_load be_pop pop_from
    value_or_nil
load-returned vm script_name vs f v hg n h = simp (hg, n, h)

-- If the call of `load` with the script's name fails, `BrLoad` empties the stack.
pub load_failed :
    (vm : Interpreter) (script_name : Bytes) (vs : List Value) (f : Value) (code : ℕ)
    (left : List Value)
    → vm.getglobal (codes "load") ≡ some f
    → is_nil f ≡ false
    → vm.pcall f (string script_name ∷ []) ≡ failed code left
    → load vm script_name (on vs) ≡ on []
unfolding load push push_on be_pcall value_at reverse_onto after_call after_load value_or_nil
load_failed vm script_name vs f code left hg n h =
    simp (hg, n, h, error_pop_all (left ++ (string script_name ∷ f ∷ vs)))

-- If there is no `load`, `BrLoad` leaves a nil on the stack.
load_missing :
    (vm : Interpreter) (script_name : Bytes) (vs : List Value)
    → vm.getglobal (codes "load") ≡ none
    → load vm script_name (on vs) ≡ on (nil ∷ vs)
unfolding load push push_on value_or_nil is_nil
load_missing vm script_name vs hg = simp hg
