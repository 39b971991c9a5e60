-- ===== src/ClassWrapper/Convert.antt =====
-- The conversion of one Berry value to an argument of a C function, `be_convert_single_elt` of
-- components/berry/berry_mapping/src/be_class_wrapper.c.
use esp32_berry_lang.Base.{
  ℕ, zero, suc, ltb, ◌==◌, str_eq, Bool, true, false, not, ◌&&◌, ◌||◌, Bytes, [], ◌∷◌, codes,
  Option, none, some, length, if◌then◌else◌,
}
use esp32_berry_lang.Base.Int.{ℤ, pos, ◌==ℤ◌}
use esp32_berry_lang.ClassWrapper.Machine.{
  Value, nil, int, bool, real, string, comptr, closure, instance_of, buffer, type_error,
  value_error, Run, return, raise, broken, ◌>>=◌, ◌>>◌, Interpreter,
}
use esp32_berry_lang.ClassWrapper.Find.{Found, missing, single, method, value_or_nil, find}

-- The argument, and the length stored in `*buf_len` if one is.
abbrev pub Converted : Type 0
Converted = ℤ × Option ℕ

-- `arg_type[0] == c`; the first byte of the empty string is 0.
unfoldable pub starts_with : ℕ → Bytes → Bool
starts_with c [] = false
starts_with c (d ∷ rest) = d == c

-- The name of a callback's type, behind a `^`, where it is not empty.
unfoldable pub callback_name : Bytes → Option Bytes
callback_name (c ∷ d ∷ rest) = if c == b'^' then some (d ∷ rest) else none
callback_name _ = none

unfoldable pub truth : Bool → ℤ
truth true = pos 1
truth false = pos 0

-- `be_tocomptr`: NULL for what is no pointer.
unfoldable pub to_comptr : Value → ℤ
to_comptr (comptr p) = p
to_comptr _ = pos 0

-- `type_ok`
unfoldable pub type_ok : Bytes → ℤ → ℕ → Bool
type_ok arg_type ret provided_type =
    starts_with b'.' arg_type
    || str_eq arg_type (provided_type ∷ [])
    || ((ret ==ℤ pos 0) && not (length arg_type == 1))
    || ((ret ==ℤ pos 0) && str_eq arg_type (b's' ∷ []))

-- NULL stands for any type.
unfoldable pub type_or_any : Option Bytes → Bytes
type_or_any none = b'.' ∷ []
type_or_any (some arg_type) = arg_type

module _ {M : Type 0} (vm : Interpreter M) where
  -- The number and the letter of a value of a simple type
  unfoldable pub simple : Bytes → Value → Option (ℤ × ℕ)
  simple arg_type (int n) =
      some (if starts_with b'f' arg_type then (vm.float_of n, b'f') else (n, b'i'))
  simple arg_type (bool b) = some (truth b, b'b')
  simple arg_type (string s) = some (s, b's')
  simple arg_type (comptr p) = some (p, b'c')
  simple arg_type nil = some (pos 0, b'c')
  simple arg_type (real r) = some (r, b'f')
  simple arg_type _ = none

  unfoldable pub checked : Bytes → ℤ × ℕ → Run M Converted
  checked arg_type (ret, provided_type) =
      if type_ok arg_type ret provided_type then return (ret, none) else raise type_error

  -- The call of `cb.make_cb` with the closure, `self` and the name of the callback's type
  unfoldable pub make_callback : Value → Value → Bytes → Found → Run M Converted
  make_callback self v name missing = raise type_error
  make_callback self v name (single f) = do
    text ← vm.pushstring name
    func ← vm.be_call f (v ∷ self ∷ text ∷ [])
    return (to_comptr func, none)
  make_callback self v name (method f object) = do
    text ← vm.pushstring name
    func ← vm.be_call f (object ∷ v ∷ self ∷ text ∷ [])
    return (to_comptr func, none)

  -- A callback
  unfoldable pub callback : Value → Bytes → Value → Run M Converted
  callback self name (closure n) = do
    found ← find vm (some (codes "cb.make_cb"))
    make_callback self (closure n) name found
  callback self name (comptr p) = return (p, none)
  callback self name _ = raise type_error

  -- The class that was found against the class of the instance. `be_isderived(vm, -2)` asks for the
  -- two topmost values, and for a method these are the method and its instance.
  unfoldable pub check_derived : Value → Found → Run M (Unit {0})
  check_derived class missing m = raise value_error m
  check_derived class (single target) m =
      if vm.derived class target m then return tt m else raise type_error m
  check_derived class (method f object) m =
      if vm.derived f object m then return tt m else raise type_error m

  -- The check of an instance's type
  unfoldable pub check_class : Bytes → Value → Run M (Unit {0})
  check_class arg_type v m =
      if ltb 1 (length arg_type)
      then (do found ← find vm (some arg_type); check_derived (vm.class_of v m) found) m
      else if starts_with b'.' arg_type
      then return tt m
      else raise value_error m

  -- The attribute `_p`, or else `.p`
  unfoldable pub pointer_of : Value → Option Value → Run M Value
  pointer_of v (some p) = return p
  pointer_of v none = do p ← vm.getmember v (codes ".p"); return (value_or_nil p)

  -- An instance of another class, where `recurse` converts the pointer it holds
  unfoldable pub from_instance : (Value → Run M Converted) → Bytes → Value → Run M Converted
  from_instance recurse arg_type v = do
    own ← vm.getmember v (codes "_p")
    p ← pointer_of v own
    ret ← recurse p
    check_class arg_type v
    return (ret.0, none)

  -- A value of no simple type
  unfoldable pub from_object : (Value → Run M Converted) → Bytes → Value → Run M Converted
  from_object recurse arg_type (buffer n) m =
      let (ret, len) = vm.tobytes n m in return (ret, some len) m
  from_object recurse arg_type (instance_of n) m = from_instance recurse arg_type (instance_of n) m
  from_object recurse arg_type v m = raise value_error m

  unfoldable pub convert_value : (Value → Run M Converted) → Bytes → Value → Run M Converted
  convert_value recurse arg_type v = elim (simple arg_type v) [
    | none ↦ from_object recurse arg_type v
    | some s ↦ checked arg_type s
  ]

  unfoldable pub convert_type : (Value → Run M Converted) → Value → Bytes → Value → Run M Converted
  convert_type recurse self arg_type v = elim (callback_name arg_type) [
    | none ↦ convert_value recurse arg_type v
    | some name ↦ callback self name v
  ]

  -- `be_convert_single_elt`, on a C stack that has room for `depth` calls; `self` is the value at
  -- position 1 of the Berry stack.
  unfoldable pub convert : ℕ → Value → Option Bytes → Value → Run M Converted
  convert zero self arg_type v = broken
  convert (suc depth) self arg_type v =
      convert_type (λ p. convert depth self none p) self (type_or_any arg_type) v
