-- ===== src/ClassWrapper/Signature.antt =====
-- The types of a C function's arguments as a list, the string that `be_check_arg_type` of
-- components/berry/berry_mapping/src/be_class_wrapper.c reads for it, and the conversion of arguments
-- at a list of types.
use esp32_berry_lang.Base.{
  ℕ, ◌≤◌, ◌==◌, ◌≡◌, leb, ◌&&◌, ◌||◌, Bool, true, false, Bytes, List, [], ◌∷◌, ◌++◌, Option, none,
  some, length,
}
use esp32_berry_lang.Base.Int.{ℤ, pos}
use esp32_berry_lang.ClassWrapper.Machine.{
  Value, value_error, Run, return, raise, ◌>>=◌, Interpreter,
}
use esp32_berry_lang.ClassWrapper.Convert.{convert}
use esp32_berry_lang.ClassWrapper.Args.{new_len}

pub data ArgType : Type 0 where
  letter : ℕ → ArgType
  class_name : Bytes → ArgType
  callback_type : Bytes → ArgType
  ignored : ArgType

-- An argument with its type; `sized` says that the length of the last buffer goes behind it.
pub record Typed : Type 0 where
  pub type : ArgType
  pub sized : Bool
  pub value : Value

abbrev pub is_end : ℕ → Bool
is_end c = c == b')' || c == b'^'

abbrev pub IsName : Bytes → Type 0
IsName [] = Unit
IsName (c ∷ name) = (is_end c ≡ false) × IsName name

-- What can be written: a letter or a dot, names that fit in `type_short_name`, and `~` only behind a
-- type.
abbrev pub IsWritable : ArgType → Bool → Type 0
IsWritable (letter c) sized = (c == b'.' || (leb b'a' c && leb c b'z')) ≡ true
IsWritable (class_name name) sized = IsName name × (length name ≤ 31)
IsWritable (callback_type name) sized = IsName name × (length name ≤ 30)
IsWritable ignored sized = sized ≡ false

abbrev pub AreWritable : List Typed → Type 0
AreWritable [] = Unit
AreWritable (t ∷ ts) = IsWritable t.type t.sized × AreWritable ts

unfoldable pub written_length : Bool → Bytes
written_length true = b'~' ∷ []
written_length false = []

unfoldable pub written : ArgType → Bytes → Bytes
written (letter c) rest = c ∷ rest
written (class_name name) rest = b'(' ∷ (name ++ (b')' ∷ rest))
written (callback_type name) rest = b'^' ∷ (name ++ (b'^' ∷ rest))
written ignored rest = b'-' ∷ rest

-- The string of the types, with `rest` behind it
unfoldable pub signature : List Typed → Bytes → Bytes
signature [] rest = rest
signature (t ∷ ts) rest = written t.type (written_length t.sized ++ signature ts rest)

unfoldable pub values : List Typed → List Value
values [] = []
values (t ∷ ts) = t.value ∷ values ts

module _ {M : Type 0} (vm : Interpreter M) (depth : ℕ) (self : Value) where
  -- What stands behind the type: the length of the last buffer, which must be known.
  unfoldable pub pass_length : Bool → Option ℕ → List ℤ → Run M (List ℤ)
  pass_length false len p = return p
  pass_length true none p = raise value_error
  pass_length true (some n) p = return (p ++ (pos n ∷ []))

  unfoldable pub pass_one : Bytes → Bool → Value → Option ℕ → List ℤ → Run M (Option ℕ × List ℤ)
  pass_one name sized v len p = do
    ret ← convert vm depth self (some name) v
    p' ← pass_length sized (new_len len ret.1) (p ++ (ret.0 ∷ []))
    return (new_len len ret.1, p')

  unfoldable pub pass_typed : ArgType → Bool → Value → Option ℕ → List ℤ → Run M (Option ℕ × List ℤ)
  pass_typed (letter c) sized v len p = pass_one (c ∷ []) sized v len p
  pass_typed (class_name name) sized v len p = pass_one name sized v len p
  pass_typed (callback_type name) sized v len p = pass_one (b'^' ∷ name) sized v len p
  pass_typed ignored sized v len p = return (len, p)

  -- Each argument converted at its type, with no string to read
  unfoldable pub pass : List Typed → Option ℕ → List ℤ → Run M (List ℤ)
  pass [] len p = return p
  pass (t ∷ ts) len p = do next ← pass_typed t.type t.sized t.value len p; pass ts next.0 next.1

-- A string behind the types of the arguments given: the end, or the bracket before optional ones.
abbrev pub Closes : Bytes → Type 0
Closes [] = Unit
Closes (c ∷ rest) = (c == b'[') ≡ true
