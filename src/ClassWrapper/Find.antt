-- ===== src/ClassWrapper/Find.antt =====
-- The search for a global or for a member of one, `be_find_global_or_module_member` of
-- components/berry/berry_mapping/src/be_class_wrapper.c, and `be_create_class_wrapper`.
use esp32_berry_lang.Base.{
  ◌==◌, Bool, true, false, Bytes, [], ◌∷◌, codes, Option, none, some, if◌then◌else◌,
}
use esp32_berry_lang.Base.Int.{ℤ, pos, ◌==ℤ◌}
use esp32_berry_lang.ClassWrapper.Machine.{
  Value, nil, comptr, instance_of, buffer, malloc_fail, Run, return, raise, broken, ◌>>=◌,
  Interpreter,
}

-- What the function has pushed: nothing, an object, or a method over its instance.
pub data Found : Type 0 where
  missing : Found
  single : Value → Found
  method : Value → Value → Found

-- `strtok_r(…, ".", …)`: the dots before a token are skipped.
unfoldable pub skip_dots : Bytes → Bytes
skip_dots [] = []
skip_dots (c ∷ name) = let rest = skip_dots name in if c == b'.' then rest else c ∷ name

-- The bytes up to the next dot, and those behind it.
unfoldable pub until_dot : Bytes → Bytes × Bytes
until_dot [] = ([], [])
until_dot (c ∷ name) =
    let (word, rest) = until_dot name in if c == b'.' then ([], name) else (c ∷ word, rest)

unfoldable pub next_token : Bytes → Option (Bytes × Bytes)
next_token name = elim (skip_dots name) [ [] ↦ none | c ∷ more ↦ some (until_dot (c ∷ more)) ]

unfoldable pub is_instance : Value → Bool
is_instance (instance_of n) = true
is_instance (buffer n) = true
is_instance _ = false

unfoldable pub value_or_nil : Option Value → Value
value_or_nil none = nil
value_or_nil (some v) = v

module _ {M : Type 0} (vm : Interpreter M) where
  unfoldable pub found_member : Value → Option Value → Found
  found_member v none = missing
  found_member v (some f) = if is_instance v then method f v else single f

  -- The member `suffix` of the value found for `prefix`
  unfoldable pub member_of : Value → Bytes → Run M Found
  member_of nil suffix = return missing
  member_of v suffix = do f ← vm.getmember v suffix; return (found_member v f)

  unfoldable pub of_module : Bytes → Option Value → Run M Found
  of_module suffix none = return missing
  of_module suffix (some v) = member_of v suffix

  -- The global, or else the module
  unfoldable pub find_prefix : Bytes → Bytes → Option Value → Run M Found
  find_prefix prefix suffix none = do v ← vm.getmodule prefix; of_module suffix v
  find_prefix prefix suffix (some v) = member_of v suffix

  unfoldable pub find_global : Option Value → Found
  find_global none = missing
  find_global (some v) = single v

  unfoldable pub find_suffix : Bytes → Option (Bytes × Bytes) → Run M Found
  find_suffix prefix none m = return (find_global (vm.getglobal prefix m)) m
  find_suffix prefix (some (suffix, rest)) m = find_prefix prefix suffix (vm.getglobal prefix m) m

  unfoldable pub find_tokens : Option (Bytes × Bytes) → Run M Found
  find_tokens none = broken
  find_tokens (some (prefix, rest)) = find_suffix prefix (next_token rest)

  -- `be_find_global_or_module_member`. A name of dots alone has no token, and `be_getglobal` is then
  -- given NULL.
  unfoldable pub find : Option Bytes → Run M Found
  find none = return missing
  find (some name) = find_tokens (next_token name)

  -- `be_create_class_wrapper`: the instance that it leaves on the stack
  unfoldable pub create_class_wrapper : Bytes → ℤ → Run M Value
  create_class_wrapper class_name ptr m =
      if ptr ==ℤ pos 0
      then raise malloc_fail m
      else (do
        object ← vm.be_call (value_or_nil (vm.getglobal class_name m)) []
        init ← vm.getmember object (codes "init")
        ret ← vm.be_call (value_or_nil init) (object ∷ comptr ptr ∷ [])
        return object)
          m
