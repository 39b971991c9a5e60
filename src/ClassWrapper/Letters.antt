-- ===== src/ClassWrapper/Letters.antt =====
-- What `be_convert_single_elt` of components/berry/berry_mapping/src/be_class_wrapper.c accepts for a
-- type of one letter.
use esp32_berry_lang.Base.{
  ℕ, zero, suc, ◌≡◌, ◌≢◌, true, [], ◌∷◌, none, some, ◌⊎◌, inl, inr, arith, str_eq, str_eq_iff,
  ==_iff, Bool-cases,
}
use esp32_berry_lang.Base.Int.{ℤ, pos, ◌==ℤ◌, eq_of_parts}
use esp32_berry_lang.ClassWrapper.Machine.{
  Value, nil, int, bool, real, string, comptr, instance_of, buffer, Run, Interpreter,
}
use esp32_berry_lang.ClassWrapper.Convert.{
  Converted, starts_with, truth, callback_name, type_ok, simple, checked, check_class, pointer_of,
  from_instance, from_object, convert_value, convert_type, type_or_any, convert,
}
use esp32_berry_lang.ClassWrapper.Ends.{Ends, Ends-mono, after-Ends, after-Ends_from}

-- The values that a letter is meant for. An integer also serves for a real, and any instance of
-- `bytes` for any letter.
abbrev pub Suits : ℕ → Value → Type 0
Suits c (int n) = (c ≡ b'i') ⊎ (c ≡ b'f')
Suits c (bool b) = c ≡ b'b'
Suits c (string s) = c ≡ b's'
Suits c (comptr p) = c ≡ b'c'
Suits c nil = c ≡ b'c'
Suits c (real r) = c ≡ b'f'
Suits c (buffer n) = Unit
Suits c _ = ⊥

-- The value suits the letter, or is the number 0 for a string.
abbrev pub IsAccepted : ℕ → Value → Converted → Type 0
IsAccepted c v r = Suits c v ⊎ ((c ≡ b's') × (r.0 ≡ pos 0))

str_eq_letters : (c d : ℕ) → str_eq (c ∷ []) (d ∷ []) ≡ true → c ≡ d
str_eq_letters c d h = ground (arith, (str_eq_iff (c ∷ []) (d ∷ [])).0 h)

==ℤ_eq : (a b : ℤ) → (a ==ℤ b) ≡ true → a ≡ b
==ℤ_eq a b h = eq_of_parts a b ((==_iff _ _).0 h)

module _ {M : Type 0} (vm : Interpreter M) (c : ℕ) (not_any : c ≢ b'.') where
  checked_letter :
      (ret : ℤ) (provided : ℕ) (m : M)
      → Ends
          (λ r. (c ≡ provided) ⊎ ((c ≡ b's') × (r.0 ≡ pos 0)))
          (checked vm (c ∷ []) (ret, provided) m)
  unfolding checked type_ok starts_with
  checked_letter ret provided m =
      ground (arith, not_any, str_eq_letters c provided, str_eq_letters c b's', ==ℤ_eq ret (pos 0))

  -- An instance of a class is checked against a name of a class, and a letter is none.
  check_class_letter : (v : Value) (m : M) → Ends (λ u. ⊥) (check_class vm (c ∷ []) v m)
  unfolding check_class starts_with
  check_class_letter v m = ground (arith, not_any)

  from_instance_letter :
      (recurse : Value → Run M Converted) (v : Value) (m : M)
      → Ends (λ r. ⊥) (from_instance vm recurse (c ∷ []) v m)
  unfolding from_instance
  from_instance_letter recurse v m = after-Ends _ (vm.getmember v _ m) _ λ own m1.
      after-Ends _ (pointer_of vm v own m1) _ λ p m2. after-Ends _ (recurse p m2) _ λ ret m3.
        after-Ends_from (λ u. ⊥) _ (check_class vm (c ∷ []) v m3) _ (check_class_letter v m3)
          λ u m4 none. none

  from_object_letter :
      (recurse : Value → Run M Converted) (v : Value) (m : M)
      → Ends (λ r. IsAccepted c v r) (from_object vm recurse (c ∷ []) v m)
  unfolding from_object
  from_object_letter recurse (buffer n) m = inl tt
  from_object_letter recurse (instance_of n) m =
      Ends-mono (from_instance vm recurse (c ∷ []) (instance_of n) m) (λ r none. absurd none)
        (from_instance_letter recurse (instance_of n) m)
  from_object_letter recurse _ m = tt

  -- A simple value that a letter is meant for
  simple_letter :
      (v : Value) (ret : ℤ) (provided : ℕ) (m : M)
      → (c ≡ provided → Suits c v)
      → Ends (λ r. IsAccepted c v r) (checked vm (c ∷ []) (ret, provided) m)
  simple_letter v ret provided m suits =
      Ends-mono (checked vm (c ∷ []) (ret, provided) m) accepted (checked_letter ret provided m)
    where
      accepted : (r : Converted) → (c ≡ provided) ⊎ ((c ≡ b's') × (r.0 ≡ pos 0)) → IsAccepted c v r
      accepted r (inl e) = inl (suits e)
      accepted r (inr zero_string) = inr zero_string

  convert_value_letter :
      (recurse : Value → Run M Converted) (v : Value) (m : M)
      → Ends (λ r. IsAccepted c v r) (convert_value vm recurse (c ∷ []) v m)
  unfolding convert_value simple
  convert_value_letter recurse (int n) m = elim (Bool-cases (starts_with b'f' (c ∷ []))) [
    | inl f ↦ rw f (simple_letter (int n) (vm.float_of n) b'f' m (λ e. inr e))
    | inr i ↦ rw i (simple_letter (int n) n b'i' m (λ e. inl e))
  ]
  convert_value_letter recurse (bool b) m = simple_letter (bool b) (truth b) b'b' m (λ e. e)
  convert_value_letter recurse (string s) m = simple_letter (string s) s b's' m (λ e. e)
  convert_value_letter recurse (comptr p) m = simple_letter (comptr p) p b'c' m (λ e. e)
  convert_value_letter recurse nil m = simple_letter nil (pos 0) b'c' m (λ e. e)
  convert_value_letter recurse (real r) m = simple_letter (real r) r b'f' m (λ e. e)
  convert_value_letter recurse v m = from_object_letter recurse v m

  -- For a type of one letter other than the dot, `be_convert_single_elt` returns only for a value
  -- that the letter is meant for, an instance of `bytes`, or, for a string, a value that is 0 or NULL
  -- as a number.
  pub convert_letter :
      (depth : ℕ) (self v : Value) (m : M)
      → Ends (λ r. IsAccepted c v r) (convert vm depth self (some (c ∷ [])) v m)
  unfolding convert convert_type type_or_any callback_name
  convert_letter zero self v m = tt
  convert_letter (suc depth) self v m = convert_value_letter (λ p. convert vm depth self none p) v m
