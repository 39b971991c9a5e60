-- ===== src/ClassWrapper/Machine.antt =====
-- What components/berry/berry_mapping/src/be_class_wrapper.c works on: Berry values, the machine, and
-- how a native function ends. Integers and pointers have 32 bits, and a pointer or a string stands for
-- its address. `be_raise` and `be_raisef` do not return; of an error only its kind is kept. What the
-- interpreter does is a parameter over its state, the type `M`.
use esp32_berry_lang.Base.{ℕ, Bool, Bytes, List, Option}
use esp32_berry_lang.Base.Int.{ℤ}

-- A real is given by the bits of its float. `buffer` is an instance of `bytes` or of a subclass, and
-- `other_value` a value of any other type: a module, a class, a native function.
pub data Value : Type 0 where
  nil : Value
  int : ℤ → Value
  bool : Bool → Value
  real : ℤ → Value
  string : ℤ → Value
  comptr : ℤ → Value
  closure : ℕ → Value
  instance_of : ℕ → Value
  buffer : ℕ → Value
  other_value : ℕ → Value

pub data Error : Type 0 where
  type_error value_error internal_error attribute_error malloc_fail : Error
  passed_on : ℕ → Error

-- A result, an error, or behaviour that C leaves undefined (`fault`), with which we count a stack
-- that is too small.
pub data Outcome {ℓ} (M A : Type ℓ) : Type ℓ where
  done : A → M → Outcome M A
  raised : Error → M → Outcome M A
  fault : Outcome M A

abbrev pub Run {ℓ} : Type ℓ → Type ℓ → Type ℓ
Run M A = M → Outcome M A

abbrev pub return {ℓ} : {M A : Type ℓ} → A → Run M A
return a m = done a m

abbrev pub raise {ℓ} : {M A : Type ℓ} → Error → Run M A
raise e m = raised e m

abbrev pub broken {ℓ} : {M A : Type ℓ} → Run M A
broken m = fault

abbrev pub after {ℓ} : {M A B : Type ℓ} → Outcome M A → (A → Run M B) → Outcome M B
after (done a m) g = g a m
after (raised e m) g = raised e m
after fault g = fault

infixl 5 ◌>>=◌ ◌>>◌
abbrev pub ◌>>=◌ {ℓ} : {M A B : Type ℓ} → Run M A → (A → Run M B) → Run M B
◌>>=◌ f g m = after (f m) g

abbrev pub ◌>>◌ : {M B : Type 0} → Run M (Unit {0}) → Run M B → Run M B
◌>>◌ f g m = after (f m) (λ _. g)

-- The interpreter. A global or member that is not there, or is nil as a member, is `none`.
-- `be_getmodule` and `be_getmember` may run Berry code. `class_of` and `derived` are `be_classof` and
-- `be_isderived`, `float_of` gives the bits of `(float) n`, `string_at` is the string that
-- `be_pushstring` makes of the one at an address, `pushbytes` the object of `be_pushbytes`.
pub record Interpreter (M : Type 0) : Type 0 where
  pub getglobal : Bytes → M → Option Value
  pub getmodule : Bytes → Run M (Option Value)
  pub getmember : Value → Bytes → Run M (Option Value)
  pub setmember : Value → Bytes → Value → Run M Bool
  pub be_call : Value → List Value → Run M Value
  pub class_of : Value → M → Value
  pub derived : Value → Value → M → Bool
  pub tobytes : ℕ → M → ℤ × ℕ
  pub float_of : ℤ → ℤ
  pub pushstring : Bytes → Run M Value
  pub string_at : ℤ → Run M Value
  pub pushbytes : ℤ → ℕ → Run M Value
  pub free : ℤ → M → M
