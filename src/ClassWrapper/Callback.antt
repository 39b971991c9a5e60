-- ===== src/ClassWrapper/Callback.antt =====
-- A closure at a callback's type: `be_convert_single_elt` of
-- components/berry/berry_mapping/src/be_class_wrapper.c over the module `cb` of be_cb_module.c.
use esp32_berry_lang.Base.{ℕ, Bytes, List, [], ◌∷◌, codes, none, some, map, ◌≡◌}
use esp32_berry_lang.Base.Int.{ℤ}
use esp32_berry_lang.Callbacks
use esp32_berry_lang.Callbacks.{Callbacks, Berry, Pointer, returns, make_cb}
use esp32_berry_lang.ClassWrapper.Machine.{
  Value, closure, string, comptr, other_value, done, Interpreter,
}

-- A machine with the module `cb`: where its globals are in the state, how it sees a value, the
-- address of a C function, the module and the native function `make_cb` in it. A native function is
-- called with its arguments and its result is what it leaves; a string is made without a change of
-- the module's globals.
pub record HasCb {M : Type 0} (vm : Interpreter M) (b : Berry) (machine : ℕ) : Type 0 where
  pub cb_of : M → Callbacks
  pub put : Callbacks → M → M
  pub cb_of-put : (cb : Callbacks) (m : M) → cb_of (put cb m) ≡ cb
  pub seen : Value → Callbacks.Value
  pub seen-closure : (n : ℕ) → seen (closure n) ≡ Callbacks.closure n
  pub address : Pointer → ℤ
  pub cb_module : ℕ
  pub make_cb_function : Value
  pub call-make_cb :
      (args : List Value) (m : M) (p : Pointer) (cb : Callbacks)
      → make_cb b machine (map seen args) (cb_of m) ≡ (returns (Callbacks.comptr p), cb)
      → vm.be_call make_cb_function args m ≡ done (comptr (address p)) (put cb m)
  pub getmember-make_cb :
      (m : M)
      → vm.getmember (other_value cb_module) (codes "make_cb") m ≡ done (some make_cb_function) m
  pub text : Bytes → M → ℤ × M
  pub pushstring-text :
      (s : Bytes) (m : M) → vm.pushstring s m ≡ done (string (text s m).0) (text s m).1
  pub text-cb_of : (s : Bytes) (m : M) → cb_of (text s m).1 ≡ cb_of m

module _ {M : Type 0} {vm : Interpreter M} {b : Berry} {machine : ℕ} (c : HasCb vm b machine) where
  open c use {cb_of, put, seen, address, cb_module, make_cb_function}

  -- The search for `cb` ends with the module: it is a global, or there is none and the module is
  -- loaded, which leaves the callbacks as they are.
  pub data Reaches : M → M → Type 0 where
    as_global : {m : M} → vm.getglobal (codes "cb") m ≡ some (other_value cb_module) → Reaches m m
    as_module :
        {m m1 : M}
        → vm.getglobal (codes "cb") m ≡ none
        → vm.getmodule (codes "cb") m ≡ done (some (other_value cb_module)) m1
        → cb_of m1 ≡ cb_of m
        → Reaches m m1

  -- The arguments of `make_cb`: the closure, `self` and the name of the callback's type
  unfoldable pub make_cb_args : Value → Bytes → ℕ → M → List Value
  make_cb_args self name n m1 = closure n ∷ self ∷ string (c.text name m1).0 ∷ []

  unfoldable pub request : Value → Bytes → ℕ → M → List Callbacks.Value
  request self name n m1 = seen self ∷ seen (string (c.text name m1).0) ∷ []
