-- ===== src/Tests/Console.antt =====
-- The console at concrete inputs.
use esp32_berry_lang.Base.{
  List, Bytes, ℕ, suc, ltb, length, true, str_eq_iff, ◌≡◌, [], ◌∷◌, none, codes, refl,
  if◌then◌else◌,
}
use esp32_berry_lang.Base.Int.{pos}
use esp32_berry_lang.Events.{nil, string, function, failed}
use esp32_berry_lang.Console.{compiled, refused, returned, Machine, ends_in_eos, repl_line}
use esp32_berry_lang.Events.Init.{Boot}
use esp32_berry_lang.Events.Init
use esp32_berry_lang.Console.Start.{Console}
use esp32_berry_lang.Console.Session.{pending, shape, enter, Agrees}
use esp32_berry_lang.Console.Refines.{repl_line-Agrees}

-- A machine that takes a source of less than 16 bytes for one that is not complete, and counts what it
-- prints.
abbrev vm : Machine ℕ
vm = record {
  loadbuffer = λ source m. (
    if ltb (length source) 16
        then refused (string (codes "syntax_error")) (string (codes "expected 'EOS'"))
        else compiled (function 1),
    m,
  );
  pcall = λ f m. (returned nil, m);
  dumpvalue = λ v m. suc m;
  dumpexcept = λ e msg m. suc m;
  val2str = λ v. [];
  toindex = λ v. pos 0;
}

unfinished : ends_in_eos (codes "expected 'EOS'") ≡ true
unfolding ends_in_eos
unfinished = (str_eq_iff (codes "'EOS'") (codes "'EOS'")).1 refl

repl_line-Agrees_example :
    let t = pending (codes "a = ") (string (codes "syntax_error")) (codes "expected 'EOS'") in
    Agrees vm
      (enter vm t (codes "1 + 2 + 3 + 4") 0)
      (repl_line vm (codes "1 + 2 + 3 + 4") (shape t) 0)
repl_line-Agrees_example =
    repl_line-Agrees vm
      (pending (codes "a = ") (string (codes "syntax_error")) (codes "expected 'EOS'"))
      (codes "1 + 2 + 3 + 4") 0 unfinished

-- A start that counts the events it sends.
abbrev boot : Boot ℕ
boot = record {
  vm_new = 0;
  set_threshold = λ n m. m;
  loadstring = λ source m. (Init.refused 0 [], m);
  run = λ f m. (failed 0 [], m);
  interpreter = λ m. record {
    getglobal = λ name. none;
    getmethod = λ v name. nil;
    pcall = λ f args. failed 0 [];
  };
  after_event = λ type m. suc m;
}

abbrev typed : List Bytes
typed = codes "a =" ∷ codes "/" ∷ codes "1 + 2 + 3 + 4" ∷ []
