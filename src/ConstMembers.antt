-- ===== src/ConstMembers.antt =====
-- The constants of a Berry module or class: components/berry/berry_mapping/src/be_const_members.c.
-- The first character of a constant's name tells its type; native functions and C functions that a
-- constant stands for are called by a parameter.
pub mod Lookup
use esp32_berry_lang.Base.{
  ℕ, ◌+◌, ◌==◌, Bool, true, false, Bytes, List, [], ◌∷◌, Option, none, some, length, get_elem?, map,
  if◌then◌else◌,
}
use esp32_berry_lang.Base.Int.{ℤ}
use esp32_berry_lang.BinSearch.{Search, found, be_map_bin_search}

-- `be_const_member_t`; the value is an integer or a pointer as one.
pub record Constant : Type 0 where
  pub name : Bytes
  pub value : ℤ

-- What is left on the stack. The results of calls are told apart by numbers, and `undefined` is the
-- module of that name.
pub data Member : Type 0 where
  string : ℤ → Member
  native_function : ℤ → Member
  comptr : ℤ → Member
  int : ℤ → Member
  result_of_native : ℕ → Member
  result_of_c : ℕ → Member
  undefined : Member

-- An argument on the stack.
pub data Argument : Type 0 where
  text : Bytes → Argument
  no_text : Argument

-- The calls of a native function and of a C function: `none` is a nil or an error code.
pub record Interpreter : Type 0 where
  pub native : ℤ → Option ℕ
  pub c_function : ℤ → Option ℕ

unfoldable pub pushed : (ℕ → Member) → Option ℕ → Option Member
pushed f none = none
pushed f (some n) = some (f n)

-- `key[0]`
unfoldable pub first_char : Bytes → ℕ
first_char [] = 0
first_char (c ∷ key) = c

-- The `switch` on the first character: `$`, `@`, `&`, `*` and `>`; `none` is `bfalse`.
unfoldable pub by_type : Interpreter → ℕ → ℤ → Option Member
by_type vm c value =
    if c == 36
    then some (string value)
    else if c == 64
    then some (native_function value)
    else if c == 38
    then some (comptr value)
    else if c == 42
    then pushed result_of_native (vm.native value)
    else if c == 62
    then pushed result_of_c (vm.c_function value)
    else some (int value)

unfoldable pub constant_at : Interpreter → Option Constant → Option Member
constant_at vm none = none
constant_at vm (some k) = by_type vm (first_char k.name) k.value

unfoldable pub matched : Interpreter → List Constant → Search → Option Member
matched vm definitions (found idx) = constant_at vm (get_elem? definitions idx)
matched vm definitions _ = none

unfoldable pub search_text : Interpreter → List Constant → Option Argument → Option Member
search_text vm definitions (some (text needle)) =
    matched vm definitions (be_map_bin_search needle (map (λ k. k.name) definitions))
search_text vm definitions _ = none

-- `be_const_member_dual`, with the arguments on the stack
unfoldable pub const_member_dual :
    Interpreter → List Constant → List Argument → Bool → Option Member
const_member_dual vm definitions args is_method =
    let last = if is_method then 1 else 0 in
    if length args == last + 1 then search_text vm definitions (get_elem? args last) else none

-- `be_const_module_member` and `be_const_class_member`
unfoldable pub const_module_member : Interpreter → List Constant → List Argument → Option Member
const_module_member vm definitions args = const_member_dual vm definitions args false

unfoldable pub const_class_member : Interpreter → List Constant → List Argument → Option Member
const_class_member vm definitions args = const_member_dual vm definitions args true

unfoldable pub or_undefined : Option Member → Member
or_undefined none = undefined
or_undefined (some v) = v

-- `be_const_module_member_raise` and `be_const_class_member_raise`
unfoldable pub const_module_member_raise : Interpreter → List Constant → List Argument → Member
const_module_member_raise vm definitions args =
    or_undefined (const_module_member vm definitions args)

unfoldable pub const_class_member_raise : Interpreter → List Constant → List Argument → Member
const_class_member_raise vm definitions args = or_undefined (const_class_member vm definitions args)
