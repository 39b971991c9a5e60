-- ===== src/ClassWrapper/Bounds.antt =====
-- How many numbers `be_check_arg_type` stores.
use esp32_berry_lang.Base.{
  ℕ, zero, suc, ◌+◌, ◌≤◌, ◌==◌, ◌≡◌, leb, ◌&&◌, ◌||◌, Bool, true, Bytes, List, [], ◌∷◌, Option,
  none, some, length, length-append, if_both, Bool-cases, inl, inr, refl, if◌then◌else◌, arith,
}
use esp32_berry_lang.Base.Int.{ℤ, pos}
use esp32_berry_lang.ClassWrapper.Machine.{Value, Run, Interpreter}
use esp32_berry_lang.ClassWrapper.Convert.{convert}
use esp32_berry_lang.ClassWrapper.Args.{
  Loop, Parsed, skipped, parsed, read_name, named, parse_type, bracket, short_name, is_missing,
  start, is_some, with_length, add_length, store, take_parsed, take_typed, round, rounds, end_args,
  check_arg_type,
}
use esp32_berry_lang.ClassWrapper.Ends.{Ends, Ends-mono, after-Ends, after-Ends_from}

-- The virtual arguments that a type string asks for
unfoldable pub virtuals : Bytes → ℕ
virtuals [] = 0
virtuals (c ∷ rest) =
    let n = virtuals rest in if c == b'~' then suc n else if c == b'@' then suc n else n

unfoldable pub virtuals_of : Option Bytes → ℕ
virtuals_of none = 0
virtuals_of (some arg_type) = virtuals arg_type

read_name-virtuals : (room : ℕ) (s : Bytes) → virtuals (read_name room s).1 ≤ virtuals s
unfolding read_name virtuals
read_name-virtuals zero s = omega arith
read_name-virtuals (suc room) [] = omega arith
read_name-virtuals (suc room) (c ∷ rest) = ground (arith, read_name-virtuals room rest)

abbrev LeavesFew : ℕ → Parsed → Type 0
LeavesFew n (skipped rest) = virtuals rest ≤ n
LeavesFew n (parsed name rest) = virtuals_of rest ≤ n

named-virtuals :
    (prefix : Bytes) (s : Bytes × Bytes) {n : ℕ} → virtuals s.1 ≤ n → LeavesFew n (named prefix s)
unfolding named virtuals virtuals_of
named-virtuals prefix (name, []) h = omega arith
named-virtuals prefix (name, c ∷ rest) h = ground arith

drop_first : (c : ℕ) (rest : Bytes) → virtuals rest ≤ virtuals (c ∷ rest)
unfolding virtuals
drop_first c rest = ground arith

parse_type-virtuals : (s : Bytes) → LeavesFew (virtuals s) (parse_type s)
unfolding parse_type virtuals_of
parse_type-virtuals [] = ground arith
parse_type-virtuals (c ∷ rest) =
    let few = LeavesFew (virtuals (c ∷ rest)) in
    if_both few (c == b'-') (drop_first c rest) (
      if_both few (c == b'.' || (leb b'a' c && leb c b'z')) (drop_first c rest) (
        if_both few (c == b'(') (named-virtuals [] (read_name 31 rest) (named_few 31)) (
          if_both few (c == b'^') (named-virtuals (b'^' ∷ []) (read_name 30 rest) (named_few 30))
            (omega arith))))
  where
    named_few : (room : ℕ) → virtuals (read_name room rest).1 ≤ virtuals (c ∷ rest)
    named_few room = omega (arith, read_name-virtuals room rest, drop_first c rest)

bracket-virtuals : (optional : Bool) (s : Bytes) → virtuals (bracket optional s).1 ≤ virtuals s
unfolding bracket
bracket-virtuals optional [] = omega arith
bracket-virtuals optional (c ∷ rest) = ground (arith, drop_first c rest)

virtuals_sized :
    (c : ℕ) (rest : Bytes) → (c == b'~') ≡ true → virtuals (c ∷ rest) ≡ suc (virtuals rest)
unfolding virtuals
virtuals_sized c rest h = rw h

-- The numbers stored, and those that the rest of the type string may add to the arguments
abbrev cost : Loop → ℕ
cost l = length l.p + virtuals_of l.arg_type

module _ {M : Type 0} (vm : Interpreter M) (depth : ℕ) (self : Value) where
  with_length-cost :
      (l : Loop) (rest : Bytes) (len : Option ℕ) (n : ℕ) (m : M)
      → suc (length l.p + virtuals rest) ≤ n
      → Ends (λ l'. cost l' ≤ n) (with_length vm depth self l rest len m)
  unfolding with_length virtuals_of
  with_length-cost l rest none n m h = tt
  with_length-cost l rest (some len) n m h = omega (arith, length-append l.p (pos len ∷ []))

  add_length-cost :
      (l : Loop) (rest : Option Bytes) (n : ℕ) (m : M)
      → l.arg_type ≡ rest
      → length l.p + virtuals_of rest ≤ n
      → Ends (λ l'. cost l' ≤ n) (add_length vm depth self l rest m)
  unfolding add_length virtuals_of
  add_length-cost l none n m e h = rw e h
  add_length-cost l (some []) n m e h = rw e h
  add_length-cost l (some (c ∷ rest)) n m e h = elim (Bool-cases (c == b'~')) [
    | inl sized ↦
        rw sized
          (with_length-cost l rest l.buf_len n m (omega (arith, virtuals_sized c rest sized)))
    | inr plain ↦ rw (plain, e) h
  ]

  store-cost :
      (l : Loop) (name rest : Option Bytes) (v : Value) (m : M)
      → Ends
          (λ l'. cost l' ≤ suc (length l.p + virtuals_of rest))
          (store vm depth self l name rest v m)
  unfolding store
  store-cost l name rest v m =
      after-Ends _ (convert vm depth self name v m) _
        λ ret m'. add_length-cost _ rest _ m' refl (omega (arith, length-append l.p (ret.0 ∷ [])))

  take_parsed-cost :
      (l : Loop) (v : Value) (t : Parsed) (n : ℕ) (m : M)
      → LeavesFew n t
      → Ends (λ l'. cost l' ≤ suc (length l.p + n)) (take_parsed vm depth self l v t m)
  unfolding take_parsed virtuals_of
  take_parsed-cost l v (skipped rest) n m h = omega arith
  take_parsed-cost l v (parsed name rest) n m h =
      Ends-mono (store vm depth self l (some name) rest v m) (λ l' k. omega arith)
        (store-cost l (some name) rest v m)

  round-cost :
      (check : Bool) (l : Loop) (s : Option Bytes) (v : Value) (m : M)
      → Ends (λ l'. cost l' ≤ suc (length l.p + virtuals_of s)) (round vm depth self check l s v m)
  unfolding round take_typed virtuals_of
  round-cost check l none v m = store-cost l (short_name check) none v m
  round-cost check l (some s) v m =
      Ends-mono (round vm depth self check l (some s) v m)
        (λ l' k. omega (arith, bracket-virtuals l.arg_optional s))
        (take_parsed-cost _ v (parse_type (bracket l.arg_optional s).1) _ m
          (parse_type-virtuals (bracket l.arg_optional s).1))

  rounds-cost :
      (check : Bool) (args : List Value) (l : Loop) (m : M)
      → Ends (λ l'. cost l' ≤ length args + cost l) (rounds vm depth self check args l m)
  unfolding rounds
  rounds-cost check [] l m = omega arith
  rounds-cost check (v ∷ args) l m =
      after-Ends_from _ _ (round vm depth self check l l.arg_type v m) _
        (round-cost check l l.arg_type v m)
        λ l' m' k.
          Ends-mono (rounds vm depth self check args l' m') (λ l'' k'. omega arith)
            (rounds-cost check args l' m')

  start-cost :
      (vm_address : ℤ) (arg_type : Option Bytes)
      → cost (start vm_address arg_type) ≡ virtuals_of arg_type
  unfolding start virtuals_of virtuals
  start-cost vm_address none = refl
  start-cost vm_address (some []) = refl
  start-cost vm_address (some (c ∷ rest)) = ground arith

  end_args-cost : (l : Loop) (m : M) → Ends (λ p. length p ≤ cost l) (end_args vm depth self l m)
  unfolding end_args
  end_args-cost l m =
      if_both (λ (r : Run M (List ℤ)). Ends (λ p. length p ≤ cost l) (r m))
        (is_missing l.arg_optional l.arg_type) tt (omega arith)

  -- `be_check_arg_type` stores at most one number for each argument, one for each `~` and one for
  -- each `@` of the type string.
  pub check_arg_type_bound :
      (vm_address : ℤ) (args : List Value) (arg_type : Option Bytes) (m : M)
      → Ends
          (λ p. length p ≤ length args + virtuals_of arg_type)
          (check_arg_type vm depth self vm_address args arg_type m)
  unfolding check_arg_type
  check_arg_type_bound vm_address args arg_type m =
      after-Ends_from _ _
        (rounds vm depth self (is_some arg_type) args (start vm_address arg_type) m) _
        (rounds-cost (is_some arg_type) args (start vm_address arg_type) m)
        λ l m' k.
          Ends-mono (end_args vm depth self l m')
            (λ p k'. omega (arith, start-cost vm_address arg_type)) (end_args-cost l m')
