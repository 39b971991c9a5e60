-- ===== src/Tests/Closures.antt =====
-- A closure that is given for a callback's type, at concrete inputs.
use esp32_berry_lang.Base.{[], ◌∷◌, none, some, map, true, replicate, refl}
use esp32_berry_lang.Base.Int.{ℤ, pos}
use esp32_berry_lang.Callbacks
use esp32_berry_lang.Callbacks.{
  Callbacks, Berry, Pointer, berry_cb, foreign, returns, raises, malloc_fail, empty_hook, initial,
  make_cb,
}
use esp32_berry_lang.Callbacks.Slots.{free}
use esp32_berry_lang.Callbacks.Handlers.{handler, default_handler}
use esp32_berry_lang.ClassWrapper.Machine.{
  Value, nil, closure, string, comptr, other_value, passed_on, Outcome, done, raised, return,
  Interpreter,
}
use esp32_berry_lang.ClassWrapper.Callback.{HasCb}

-- A function returns a plain value, and a call from C the number of its closure.
abbrev berry : Berry
berry = record {
  be_call = λ vm f args cb. (returns Callbacks.nil, cb);
  be_pcall = λ vm f args cb. (some f, cb);
  be_toint = λ v. elim v [ Callbacks.closure n ↦ pos n | _ ↦ pos 0 ];
}

-- Slot 0 is used for closure 4 in machine 1, and closure 7 is a handler of it.
abbrev one_slot : Callbacks
one_slot = record initial {
  be_cb_hooks = record { vm = some 1; f = Callbacks.closure 4 } ∷ replicate 19 empty_hook;
  handlers = handler (1, Callbacks.closure 7) ∷ default_handler ∷ [];
}

abbrev seen_as : Value → Callbacks.Value
seen_as (closure n) = Callbacks.closure n
seen_as _ = Callbacks.nil

abbrev address_of : Pointer → ℤ
address_of (berry_cb n) = pos n
address_of (foreign n) = pos n

abbrev as_value : Callbacks.Value → Value
as_value (Callbacks.comptr p) = comptr (address_of p)
as_value _ = nil

abbrev ended : Callbacks.Outcome × Callbacks → Outcome Callbacks Value
ended (returns v, cb) = done (as_value v) cb
ended (raises name text, cb) = raised (passed_on 1) cb
ended (malloc_fail, cb) = raised (passed_on 2) cb

-- The global `cb` is module 1, every member is `make_cb`, and the state is that of the module.
abbrev cb_vm : Interpreter Callbacks
cb_vm = record {
  getglobal = λ name m. some (other_value 1);
  getmodule = λ name. return none;
  getmember = λ v name. return (some (other_value 2));
  setmember = λ v name w. return true;
  be_call = λ f args m. ended (make_cb berry 1 (map seen_as args) m);
  class_of = λ v m. other_value 3;
  derived = λ v w m. true;
  tobytes = λ n m. (pos 32, 5);
  float_of = λ n. n;
  pushstring = λ s. return (string (pos 96));
  string_at = λ a. return (string a);
  pushbytes = λ a n. return nil;
  free = λ a m. m;
}

abbrev cb_laws : HasCb cb_vm berry 1
cb_laws = record {
  cb_of = λ m. m;
  put = λ cb m. cb;
  cb_of-put = λ cb m. refl;
  seen = seen_as;
  seen-closure = λ n. refl;
  address = address_of;
  cb_module = 1;
  make_cb_function = other_value 2;
  call-make_cb = λ args m p cb e. rw e refl;
  getmember-make_cb = λ m. refl;
  text = λ s m. (pos 96, m);
  pushstring-text = λ s m. refl;
  text-cb_of = λ s m. refl;
}
