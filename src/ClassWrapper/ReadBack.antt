-- ===== src/ClassWrapper/ReadBack.antt =====
-- `be_check_arg_type` of components/berry/berry_mapping/src/be_class_wrapper.c on the string of a list
-- of types.
use esp32_berry_lang.Base.{
  ℕ, zero, suc, ◌≤◌, ◌==◌, ◌≡◌, refl, sym, ap, ◌∙◌, Bool, true, false, Bytes, List, [], ◌∷◌, ◌++◌,
  Option, none, some, length, arith,
}
use esp32_berry_lang.Base.Int.{ℤ}
use esp32_berry_lang.ClassWrapper.Machine.{Value, return, Interpreter, after}
use esp32_berry_lang.ClassWrapper.Convert.{convert}
use esp32_berry_lang.ClassWrapper.Args.{
  Loop, Parsed, skipped, parsed, read_name, named, parse_type, bracket, new_len, is_missing, start,
  is_some, with_length, add_length, store, take_parsed, take_typed, round, rounds, end_args,
  check_arg_type,
}
use esp32_berry_lang.ClassWrapper.Ends.{after_assoc, after_congr}
use esp32_berry_lang.ClassWrapper.Signature.{
  ArgType, letter, class_name, callback_type, ignored, Typed, is_end, IsName, IsWritable,
  AreWritable, written_length, written, signature, values, pass_length, pass_one, pass_typed, pass,
  Closes,
}

read_name-name :
    (room c : ℕ) (name rest : Bytes)
    → IsName name
    → length name ≤ room
    → is_end c ≡ true
    → read_name room (name ++ (c ∷ rest)) ≡ (name, c ∷ rest)
unfolding read_name
read_name-name zero c [] rest n h e = refl
read_name-name zero c (d ∷ name) rest n h e = absurd (omega arith)
read_name-name (suc room) c [] rest n h e = rw e
read_name-name (suc room) c (d ∷ name) rest n h e =
    rw (n.0, read_name-name room c name rest n.1 (omega arith) e)

-- What a round reads of a written type
read_back : ArgType → Bytes → Parsed
read_back (letter c) rest = parsed (c ∷ []) (some rest)
read_back (class_name name) rest = parsed name (some rest)
read_back (callback_type name) rest = parsed (b'^' ∷ name) (some rest)
read_back ignored rest = skipped rest

parse_type-written :
    (t : ArgType) (sized : Bool) (rest : Bytes)
    → IsWritable t sized
    → parse_type (written t rest) ≡ read_back t rest
unfolding parse_type written read_back named
parse_type-written (letter c) sized rest h = ground arith
parse_type-written (class_name name) sized rest h =
    rw (read_name-name 31 b')' name rest h.0 h.1 refl)
parse_type-written (callback_type name) sized rest h =
    rw (read_name-name 30 b'^' name rest h.0 h.1 refl)
parse_type-written ignored sized rest h = refl

bracket-written :
    (optional : Bool) (t : ArgType) (sized : Bool) (rest : Bytes)
    → IsWritable t sized
    → bracket optional (written t rest) ≡ (optional, written t rest)
unfolding bracket written
bracket-written optional (letter c) sized rest h = ground arith
bracket-written optional (class_name name) sized rest h = refl
bracket-written optional (callback_type name) sized rest h = refl
bracket-written optional ignored sized rest h = refl

-- No length is asked for at the front of the string.
abbrev IsPlain : Bytes → Type 0
IsPlain [] = Unit
IsPlain (c ∷ rest) = (c == b'~') ≡ false

written-IsPlain :
    (t : ArgType) (sized : Bool) (rest : Bytes) → IsWritable t sized → IsPlain (written t rest)
unfolding written
written-IsPlain (letter c) sized rest h = ground arith
written-IsPlain (class_name name) sized rest h = refl
written-IsPlain (callback_type name) sized rest h = refl
written-IsPlain ignored sized rest h = refl

signature-IsPlain :
    (ts : List Typed) (rest : Bytes) → AreWritable ts → Closes rest → IsPlain (signature ts rest)
unfolding signature
signature-IsPlain [] [] h k = tt
signature-IsPlain [] (c ∷ rest) h k = ground arith
signature-IsPlain (t ∷ ts) rest h k = written-IsPlain t.type t.sized _ h.0

-- The variables of the loop before optional arguments
abbrev loop : Bytes → Option ℕ → List ℤ → Loop
loop s len p = record { arg_type = some s; arg_optional = false; buf_len = len; p = p }

start-written :
    (vm_address : ℤ) (t : ArgType) (sized : Bool) (rest : Bytes)
    → IsWritable t sized
    → start vm_address (some (written t rest)) ≡ loop (written t rest) none []
unfolding start written
start-written vm_address (letter c) sized rest h = ground arith
start-written vm_address (class_name name) sized rest h = refl
start-written vm_address (callback_type name) sized rest h = refl
start-written vm_address ignored sized rest h = refl

start-signature :
    (vm_address : ℤ) (ts : List Typed) (rest : Bytes)
    → AreWritable ts
    → Closes rest
    → start vm_address (some (signature ts rest)) ≡ loop (signature ts rest) none []
unfolding signature
start-signature vm_address [] [] h k = unfold start in refl
start-signature vm_address [] (c ∷ rest) h k = unfold start in ground arith
start-signature vm_address (t ∷ ts) rest h k = start-written vm_address t.type t.sized _ h.0

module _ {M : Type 0} (vm : Interpreter M) (depth : ℕ) (self : Value) where
  add_length-pass :
      (sized : Bool) (rest : Bytes) (len : Option ℕ) (p : List ℤ) (m : M)
      → IsPlain rest
      → let s = written_length sized ++ rest in
        add_length vm depth self (loop s len p) (some s) m
        ≡ after (pass_length vm depth self sized len p m) (λ p'. return (loop rest len p'))
  unfolding add_length with_length pass_length written_length
  add_length-pass false [] len p m h = refl
  add_length-pass false (c ∷ rest) len p m h = rw h
  add_length-pass true rest none p m h = refl
  add_length-pass true rest (some n) p m h = refl

  store-pass :
      (name : Bytes) (sized : Bool) (s rest : Bytes) (v : Value) (len : Option ℕ) (p : List ℤ)
      (m : M)
      → IsPlain rest
      → store vm depth self (loop s len p) (some name) (some (written_length sized ++ rest)) v m
        ≡ after
            (pass_one vm depth self name sized v len p m)
            (λ next. return (loop rest next.0 next.1))
  unfolding store pass_one
  store-pass name sized s rest v len p m h =
      after_congr (convert vm depth self (some name) v m) (λ ret m'.
        add_length-pass sized rest (new_len len ret.1) (p ++ (ret.0 ∷ [])) m' h
        ∙ sym (
            after_assoc (pass_length vm depth self sized (new_len len ret.1) (p ++ (ret.0 ∷ [])) m')
              _ _))
      ∙ sym (after_assoc (convert vm depth self (some name) v m) _ _)

  take_parsed-pass :
      (t : ArgType) (sized : Bool) (s rest : Bytes) (v : Value) (len : Option ℕ) (p : List ℤ)
      (m : M)
      → IsWritable t sized
      → IsPlain rest
      → take_parsed vm depth self (loop s len p) v (read_back t (written_length sized ++ rest)) m
        ≡ after
            (pass_typed vm depth self t sized v len p m)
            (λ next. return (loop rest next.0 next.1))
  unfolding take_parsed read_back pass_typed
  take_parsed-pass (letter c) sized s rest v len p m w h =
      store-pass (c ∷ []) sized s rest v len p m h
  take_parsed-pass (class_name name) sized s rest v len p m w h =
      store-pass name sized s rest v len p m h
  take_parsed-pass (callback_type name) sized s rest v len p m w h =
      store-pass (b'^' ∷ name) sized s rest v len p m h
  take_parsed-pass ignored sized s rest v len p m w h = unfold written_length in rw w refl

  round-pass :
      (t : ArgType) (sized : Bool) (s rest : Bytes) (v : Value) (len : Option ℕ) (p : List ℤ)
      (m : M)
      → IsWritable t sized
      → IsPlain rest
      → round vm depth self true
          (loop s len p)
          (some (written t (written_length sized ++ rest)))
          v
          m
        ≡ after
            (pass_typed vm depth self t sized v len p m)
            (λ next. return (loop rest next.0 next.1))
  unfolding round take_typed
  round-pass t sized s rest v len p m w h =
      rw
        (
          bracket-written false t sized (written_length sized ++ rest) w,
          parse_type-written t sized (written_length sized ++ rest) w,
        )
        (take_parsed-pass t sized s rest v len p m w h)

  round-signature :
      (t : Typed) (ts : List Typed) (rest : Bytes) (len : Option ℕ) (p : List ℤ) (m : M)
      → AreWritable (t ∷ ts)
      → Closes rest
      → let s = signature (t ∷ ts) rest in
        round vm depth self true (loop s len p) (some s) t.value m
        ≡ after
            (pass_typed vm depth self t.type t.sized t.value len p m)
            (λ next. return (loop (signature ts rest) next.0 next.1))
  unfolding signature
  round-signature t ts rest len p m h k =
      round-pass t.type t.sized _ (signature ts rest) t.value len p m h.0
        (signature-IsPlain ts rest h.1 k)

  end_args-Closes :
      (rest : Bytes) (len : Option ℕ) (p : List ℤ) (m : M)
      → Closes rest
      → end_args vm depth self (loop rest len p) m ≡ return p m
  unfolding end_args is_missing
  end_args-Closes [] len p m h = refl
  end_args-Closes (c ∷ rest) len p m h = rw h

  rounds-pass :
      (ts : List Typed) (rest : Bytes) (len : Option ℕ) (p : List ℤ) (m : M)
      → AreWritable ts
      → Closes rest
      → after
          (rounds vm depth self true (values ts) (loop (signature ts rest) len p) m)
          (end_args vm depth self)
        ≡ pass vm depth self ts len p m
  unfolding rounds values pass
  rounds-pass [] rest len p m h k = unfold signature in end_args-Closes rest len p m k
  rounds-pass (t ∷ ts) rest len p m h k =
      let one =
        round vm depth self true (loop (signature (t ∷ ts) rest) len p)
          (some (signature (t ∷ ts) rest)) t.value m in
      let typed = pass_typed vm depth self t.type t.sized t.value len p m in
      after_assoc one (rounds vm depth self true (values ts)) (end_args vm depth self)
      ∙ ap
          (λ o.
            after o
              (λ l m'. after (rounds vm depth self true (values ts) l m') (end_args vm depth self)))
          (round-signature t ts rest len p m h k)
      ∙ after_assoc typed _ _
      ∙ after_congr typed (λ next m'. rounds-pass ts rest next.0 next.1 m' h.1 k)

  -- Where the types are writable and nothing stands behind them, or the bracket before optional ones,
  -- `be_check_arg_type` reads their string to the same end as conversion of each argument at its
  -- type.
  pub check_arg_type-pass :
      (vm_address : ℤ) (ts : List Typed) (rest : Bytes) (m : M)
      → AreWritable ts
      → Closes rest
      → check_arg_type vm depth self vm_address (values ts) (some (signature ts rest)) m
        ≡ pass vm depth self ts none [] m
  unfolding check_arg_type is_some end_args
  check_arg_type-pass vm_address ts rest m h k =
      ap (λ l. after (rounds vm depth self true (values ts) l m) (end_args vm depth self))
        (start-signature vm_address ts rest h k)
      ∙ rounds-pass ts rest none [] m h k
