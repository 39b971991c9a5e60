-- ===== src/ConstMembers/Lookup.antt =====
-- The constant that a name stands for.
use esp32_berry_lang.Base.{
  ℕ, zero, suc, Option, none, true, Bytes, List, [], ◌∷◌, some, map, get_elem?, ◌≡◌, refl, arith,
}
use esp32_berry_lang.Base.Int.{ℤ}
use esp32_berry_lang.BinSearch.{map_key, is_letter}
use esp32_berry_lang.BinSearch.Answer.{IsNamed, HasNames, IsSorted}
use esp32_berry_lang.BinSearch.Own.{be_map_bin_search_own, be_map_bin_search_missing}
use esp32_berry_lang.ConstMembers.{
  Constant, Argument, text, Interpreter, Member, string, native_function, comptr, int,
  result_of_native, result_of_c, pushed, undefined, by_type, first_char, constant_at, matched,
  search_text, const_member_dual, const_module_member, const_class_member, or_undefined,
  const_class_member_raise, const_module_member_raise,
}

abbrev pub names : List Constant → List Bytes
names definitions = map (λ k. k.name) definitions

get_elem?-names :
    (definitions : List Constant) (i : ℕ) (k : Constant)
    → get_elem? definitions i ≡ some k
    → get_elem? (names definitions) i ≡ some k.name
get_elem?-names [] i k h = ground arith
get_elem?-names (x ∷ ks) zero k h = cc
get_elem?-names (x ∷ ks) (suc i) k h = get_elem?-names ks i k h

-- What a constant is, by the first character of its name: `$`, `@`, `&`, `*`, `>` or a letter.
pub data Means (vm : Interpreter) : ℕ → ℤ → Option Member → Type 0 where
  a_string : (v : ℤ) → Means vm 36 v (some (string v))
  a_function : (v : ℤ) → Means vm 64 v (some (native_function v))
  a_pointer : (v : ℤ) → Means vm 38 v (some (comptr v))
  called : (v : ℤ) (n : ℕ) → vm.native v ≡ some n → Means vm 42 v (some (result_of_native n))
  called_for_nil : (v : ℤ) → vm.native v ≡ none → Means vm 42 v none
  c_called : (v : ℤ) (n : ℕ) → vm.c_function v ≡ some n → Means vm 62 v (some (result_of_c n))
  c_called_for_nil : (v : ℤ) → vm.c_function v ≡ none → Means vm 62 v none
  a_number : (c : ℕ) (v : ℤ) → is_letter c ≡ true → Means vm c v (some (int v))

by_type-Means :
    (vm : Interpreter) {c : ℕ} {v : ℤ} {r : Option Member} → Means vm c v r → by_type vm c v ≡ r
unfolding by_type pushed
by_type-Means vm (a_string v) = refl
by_type-Means vm (a_function v) = refl
by_type-Means vm (a_pointer v) = refl
by_type-Means vm (called v n h) = simp h
by_type-Means vm (called_for_nil v h) = simp h
by_type-Means vm (c_called v n h) = simp h
by_type-Means vm (c_called_for_nil v h) = simp h
by_type-Means vm (a_number c v h) = ground arith

module _ (vm : Interpreter) (definitions : List Constant)
    (named : HasNames map_key (names definitions))
    (sorted : IsSorted map_key (names definitions)) where
  -- Let the names, less a first character that is no letter, be sorted and none be empty. Then a
  -- constant is found by its name, less that character, as a module's member and as a class's, and
  -- gives what its first character means: its value as a string, a native function, a pointer or,
  -- after a letter, an integer, or what the call of the function gives, with no member for nil or
  -- an error.
  pub const_member_own :
      (i : ℕ) (k : Constant) (name : Bytes) (self : Argument) (r : Option Member)
      → get_elem? definitions i ≡ some k
      → map_key k.name ≡ some name
      → Means vm (first_char k.name) k.value r
      → (const_module_member vm definitions (text name ∷ []) ≡ r)
        × (const_class_member vm definitions (self ∷ text name ∷ []) ≡ r)
  unfolding const_module_member const_class_member const_member_dual search_text matched constant_at
  const_member_own i k name self r at key means =
      let search =
        be_map_bin_search_own (names definitions) i name named sorted
          (k.name, get_elem?-names definitions i k at, key) in
      let meant = by_type-Means vm means in (simp (search, at, meant), simp (search, at, meant))

  -- Under the same conditions, a name that no constant has gives the module `undefined`, for a
  -- module and for a class.
  const_member_missing :
      (name : Bytes) (self : Argument)
      → ((i : ℕ) → ¬ (IsNamed map_key (names definitions) i name))
      → (const_module_member_raise vm definitions (text name ∷ []) ≡ undefined)
        × (const_class_member_raise vm definitions (self ∷ text name ∷ []) ≡ undefined)
  unfolding const_module_member_raise const_class_member_raise const_module_member
      const_class_member const_member_dual search_text matched or_undefined
  const_member_missing name self h =
      let search = be_map_bin_search_missing (names definitions) name named sorted h in
      (simp search, simp search)
