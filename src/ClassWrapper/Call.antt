-- ===== src/ClassWrapper/Call.antt =====
-- The call of a C function, `be_call_c_func` and `be_set_ctor_ptr` of
-- components/berry/berry_mapping/src/be_class_wrapper.c.
use esp32_berry_lang.Base.{
  ℕ, ltb, ◌==◌, Bool, true, false, not, ◌&&◌, ◌||◌, Bytes, List, [], ◌∷◌, ◌++◌, Option, none, some,
  length, take, replicate, if◌then◌else◌,
}
use esp32_berry_lang.Base.Int.{ℤ, pos, ◌==ℤ◌}
use esp32_berry_lang.ClassWrapper.Machine.{
  Value, nil, int, bool, real, comptr, value_error, internal_error, attribute_error, done, Run,
  return, raise, broken, ◌>>=◌, ◌>>◌, Interpreter,
}
use esp32_berry_lang.ClassWrapper.Find.{Found, missing, single, method, find}
use esp32_berry_lang.ClassWrapper.Convert.{starts_with}
use esp32_berry_lang.ClassWrapper.Args.{check_arg_type}

-- `be_ctype_args_t`: a C function takes eight numbers, and returns one and what it leaves in
-- `return_len`; NULL is `none`.
pub record CtypeArgs (M : Type 0) : Type 0 where
  pub func : Option (List ℤ → Run M (ℤ × ℕ))
  pub return_type : Option Bytes
  pub arg_type : Option Bytes

-- A return type that begins with `+` or `=` is that of a constructor.
unfoldable pub is_ctor : Bytes → Bool
is_ctor return_type = starts_with b'+' return_type || starts_with b'=' return_type

-- The name of the attribute, behind a `+` or `=`
unfoldable pub skip_mark : Bytes → Bytes
skip_mark [] = []
skip_mark (c ∷ name) = if c == b'+' || c == b'=' then name else c ∷ name

unfoldable pub last : Value → List Value → Value
last v [] = v
last v (w ∷ values) = last w values

unfoldable pub self_of : List Value → Value
self_of [] = nil
self_of (v ∷ args) = v

-- The eight places of `p`, those that were not stored to 0.
unfoldable pub eight : List ℤ → List ℤ
eight p = take 8 (p ++ replicate 8 (pos 0))

-- NULL has no first letter.
unfoldable pub type_or_empty : Option Bytes → Bytes
type_or_empty none = []
type_or_empty (some return_type) = return_type

module _ {M : Type 0} where
  -- `if (f) ret = (*f)(…)`
  unfoldable pub call_pointer : Option (List ℤ → Run M (ℤ × ℕ)) → List ℤ → Run M (ℤ × ℕ)
  call_pointer none p = return (pos 0, 0)
  call_pointer (some f) p = f p

  -- The call, with `&return_len` behind the arguments if the return type begins with `&` and they
  -- leave room for it; the length is 0 without. More than eight arguments are stored past `p`.
  unfoldable pub invoke : ℤ → Option (List ℤ → Run M (ℤ × ℕ)) → Bool → List ℤ → Run M (ℤ × ℕ)
  invoke len_address f wants_len p =
      if ltb 8 (length p)
      then broken
      else if wants_len && ltb (length p) 8
      then call_pointer f (eight (p ++ (len_address ∷ [])))
      else (do ret ← call_pointer f (eight p); return (ret.0, 0))

module _ {M : Type 0} (vm : Interpreter M) where
  unfoldable pub was_set : Bool → Run M (Unit {0})
  was_set true = return tt
  was_set false = raise attribute_error

  unfoldable pub set_attribute : Value → ℤ → Bytes → Run M (Unit {0})
  set_attribute self ptr [] = return tt
  set_attribute self ptr (c ∷ name) = do ok ← vm.setmember self (c ∷ name) (comptr ptr); was_set ok

  unfoldable pub set_named : Value → ℤ → Bytes → Run M (Unit {0})
  set_named self ptr name =
      if starts_with b'+' name && (ptr ==ℤ pos 0)
      then raise value_error
      else set_attribute self ptr (skip_mark name)

  -- `be_set_ctor_ptr`
  unfoldable pub set_ctor_ptr : Value → ℤ → Option Bytes → Run M (Unit {0})
  set_ctor_ptr self ptr none = return tt
  set_ctor_ptr self ptr (some name) = set_named self ptr name

  -- A string, or nil for NULL; `release` is done to the state behind it.
  unfoldable pub string_or_nil : (M → M) → ℤ → Run M Value
  string_or_nil release ret =
      if ret ==ℤ pos 0 then return nil else (do text ← vm.string_at ret; λ m. done text (release m))

  -- The `switch` on a return type of one letter
  unfoldable pub return_letter : ℕ → ℤ → ℕ → Run M Value
  return_letter c ret return_len =
      if c == b'.' || c == b'i'
      then return (int ret)
      else if c == b'f'
      then return (real ret)
      else if c == b'b'
      then return (bool (not (ret ==ℤ pos 0)))
      else if c == b'c'
      then return (comptr ret)
      else if c == b's'
      then string_or_nil (λ m. m) ret
      else if c == b'$'
      then string_or_nil (vm.free ret) ret
      else if c == b'&'
      then vm.pushbytes ret return_len
      else raise internal_error

  -- The call of what lies under the pointer: the class, the instance of a method, or, where nothing
  -- was found, the last argument.
  unfoldable pub construct : List Value → ℤ → Found → Run M Value
  construct [] ret missing = broken
  construct (v ∷ args) ret missing = vm.be_call (last v args) (comptr ret ∷ [])
  construct args ret (single class) = vm.be_call class (comptr ret ∷ [])
  construct args ret (method f object) = vm.be_call object (comptr ret ∷ [])

  -- A class name
  unfoldable pub return_class : List Value → Bytes → ℤ → Run M Value
  return_class args return_type ret = do
    found ← find vm (some return_type)
    construct args ret found

  -- What the number that the function has returned becomes
  unfoldable pub return_value : List Value → Option Bytes → ℤ × ℕ → Run M Value
  return_value args none (ret, return_len) = return nil
  return_value args (some []) (ret, return_len) = return nil
  return_value args (some (c ∷ name)) (ret, return_len) =
      if is_ctor (c ∷ name)
      then (do set_ctor_ptr (self_of args) ret (some (c ∷ name)); return nil)
      else (elim name [
        | [] ↦ return_letter c ret return_len
        | d ∷ more ↦ return_class args (c ∷ d ∷ more) ret
      ])

  module _ (depth : ℕ) (vm_address len_address : ℤ) (def : CtypeArgs M) where
    -- The call with the arguments from `arg_start`, where `values` are all on the stack
    unfoldable pub call_from : List Value → List Value → Run M Value
    call_from values args = do
      p ← check_arg_type vm depth (self_of values) vm_address args def.arg_type
      ret ← invoke len_address def.func (starts_with b'&' (type_or_empty def.return_type)) p
      return_value values def.return_type ret

    -- A constructor. With no instance on the stack the count of the arguments would be -1.
    unfoldable pub call_ctor : List Value → Run M Value
    call_ctor [] = broken
    call_ctor (self ∷ comptr ptr ∷ rest) = do set_ctor_ptr self ptr def.return_type; return nil
    call_ctor (self ∷ args) = call_from (self ∷ args) args

    -- `be_call_c_func`, and `be_call_ctype_func`, which takes its arguments from the definition
    unfoldable pub call_c_func : List Value → Run M Value
    call_c_func values =
        if is_ctor (type_or_empty def.return_type)
        then call_ctor values
        else call_from values values
