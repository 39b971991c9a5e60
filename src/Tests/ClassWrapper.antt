-- ===== src/Tests/ClassWrapper.antt =====
-- Calls of C functions at concrete inputs.
use esp32_berry_lang.Base.{
  ℕ, suc, ◌+◌, ◌≡◌, ◌≤◌, refl, false, true, List, [], ◌∷◌, codes, none, some, length, arith,
}
use esp32_berry_lang.Base.Int.{pos, negsuc}
use esp32_berry_lang.ClassWrapper.Machine.{
  nil, int, string, comptr, buffer, other_value, done, return, Interpreter,
}
use esp32_berry_lang.ClassWrapper.Convert.{convert}
use esp32_berry_lang.ClassWrapper.Args.{check_arg_type}
use esp32_berry_lang.ClassWrapper.Ends.{Ends}
use esp32_berry_lang.ClassWrapper.Bounds.{virtuals_of, check_arg_type_bound}
use esp32_berry_lang.ClassWrapper.Signature.{
  letter, callback_type, ignored, Typed, values, signature, pass,
}
use esp32_berry_lang.ClassWrapper.ReadBack.{check_arg_type-pass}
use esp32_berry_lang.ClassWrapper.Letters.{IsAccepted, convert_letter}

-- A machine whose state counts the calls. Every global is there, and every member is a pointer to 64.
abbrev vm : Interpreter ℕ
vm = record {
  getglobal = λ name m. some (other_value 1);
  getmodule = λ name. return none;
  getmember = λ v name. return (some (comptr (pos 64)));
  setmember = λ v name w. return true;
  be_call = λ f args m. done (comptr (pos 80)) (suc m);
  class_of = λ v m. other_value 2;
  derived = λ v w m. true;
  tobytes = λ n m. (pos 32, 5);
  float_of = λ n. n;
  pushstring = λ s. return (string (pos 96));
  string_at = λ a. return (string a);
  pushbytes = λ a n. return (buffer n);
  free = λ a m. m;
}

-- A buffer with its length, a skipped argument, a number and a callback.
abbrev typed : List Typed
typed =
    record { type = letter b'.'; sized = true; value = buffer 3 }
    ∷ record { type = ignored; sized = false; value = nil }
    ∷ record { type = letter b'i'; sized = false; value = int (negsuc 4) }
    ∷ record { type = callback_type (codes "cb"); sized = false; value = comptr (pos 16) }
    ∷ []

check_arg_type-pass_example :
    check_arg_type vm 4 nil (pos 8) (values typed) (some (signature typed (codes "[s"))) 0
    ≡ pass vm 4 nil typed none [] 0
check_arg_type-pass_example =
    check_arg_type-pass vm 4 nil (pos 8) typed (codes "[s") 0
      (refl, (refl, (refl, (((refl, (refl, tt)), omega arith), tt)))) refl

check_arg_type_bound_example :
    Ends
      (λ p. length p ≤ length (buffer 3 ∷ []) + virtuals_of (some (codes "@.~")))
      (check_arg_type vm 4 nil (pos 8) (buffer 3 ∷ []) (some (codes "@.~")) 0)
check_arg_type_bound_example =
    check_arg_type_bound vm 4 nil (pos 8) (buffer 3 ∷ []) (some (codes "@.~")) 0

convert_letter_example :
    Ends
      (λ r. IsAccepted b'i' (int (pos 3)) r)
      (convert vm 4 nil (some (b'i' ∷ [])) (int (pos 3)) 0)
convert_letter_example = convert_letter vm b'i' (omega arith) 4 nil (int (pos 3)) 0
