-- ===== src/Tests/ConstMembers.antt =====
-- The constants of a module at concrete inputs.
use esp32_berry_lang.Base.{List, [], ◌∷◌, none, some, codes, true, ◌≡◌, refl}
use esp32_berry_lang.Base.Int.{pos}
use esp32_berry_lang.BinSearch.{strcmp, map_key}
use esp32_berry_lang.BinSearch.Sorted.{
  precedes, before, ascending, ascending-HasNames, ascending-IsSorted,
}
use esp32_berry_lang.ConstMembers.{
  Constant, string, text, no_text, Interpreter, first_char, const_module_member, const_class_member,
}
use esp32_berry_lang.ConstMembers.Lookup.{names, a_string, const_member_own}

abbrev vm : Interpreter
vm = record { native = λ f. some 1; c_function = λ f. none }

-- An integer, a string and the call of a native function.
abbrev symbols : List Constant
symbols =
    record { name = codes "HIGH"; value = pos 1 }
    ∷ record { name = codes "$OK"; value = pos 4096 }
    ∷ record { name = codes "*now"; value = pos 8192 }
    ∷ []

symbols-ascending : ascending map_key (names symbols) ≡ true
unfolding ascending precedes before strcmp map_key
symbols-ascending = refl

const_member_own_example :
    (const_module_member vm symbols (text (codes "OK") ∷ []) ≡ some (string (pos 4096)))
    × (const_class_member vm symbols (no_text ∷ text (codes "OK") ∷ []) ≡ some (string (pos 4096)))
unfolding map_key first_char
const_member_own_example =
    const_member_own vm symbols (ascending-HasNames map_key (names symbols) symbols-ascending)
      (ascending-IsSorted map_key (names symbols) symbols-ascending) 1
      (record { name = codes "$OK"; value = pos 4096 }) (codes "OK") no_text
      (some (string (pos 4096))) refl refl (a_string (pos 4096))
