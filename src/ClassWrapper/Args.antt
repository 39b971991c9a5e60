-- ===== src/ClassWrapper/Args.antt =====
-- The arguments of a C function, `be_check_arg_type` of
-- components/berry/berry_mapping/src/be_class_wrapper.c. The numbers that are stored in `p` are
-- listed in their order, also those that have no room in its eight places.
use esp32_berry_lang.Base.{
  ℕ, zero, suc, leb, ◌==◌, Bool, true, false, not, ◌&&◌, ◌||◌, Bytes, List, [], ◌∷◌, ◌++◌, Option,
  none, some, if◌then◌else◌,
}
use esp32_berry_lang.Base.Int.{ℤ, pos}
use esp32_berry_lang.ClassWrapper.Machine.{
  Value, value_error, Run, return, raise, ◌>>=◌, Interpreter,
}
use esp32_berry_lang.ClassWrapper.Convert.{convert}

-- The variables of the loop: what is left of `arg_type`, or `none` for NULL; `buf_len` is `none`
-- for -1.
pub record Loop : Type 0 where
  pub arg_type : Option Bytes
  pub arg_optional : Bool
  pub buf_len : Option ℕ
  pub p : List ℤ

-- What a round reads of the type string: a parameter to skip, or the type's short name, with the
-- rest.
pub data Parsed : Type 0 where
  skipped : Bytes → Parsed
  parsed : Bytes → Option Bytes → Parsed

-- A name up to `)`, `^` or the end, or as much of it as there is room for; and what follows.
unfoldable pub read_name : ℕ → Bytes → Bytes × Bytes
read_name zero rest = ([], rest)
read_name (suc room) [] = ([], [])
read_name (suc room) (c ∷ rest) =
    let (name, left) = read_name room rest in
    if c == b')' || c == b'^' then ([], c ∷ rest) else (c ∷ name, left)

-- `type_short_name` behind its prefix; the byte that ended the name is passed over.
unfoldable pub named : Bytes → Bytes × Bytes → Parsed
named prefix (name, []) = parsed (prefix ++ name) none
named prefix (name, c ∷ rest) = parsed (prefix ++ name) (some rest)

-- The `switch` of a round. `type_short_name` has 32 bytes, the last of them 0.
unfoldable pub parse_type : Bytes → Parsed
parse_type [] = parsed [] none
parse_type (c ∷ rest) =
    if c == b'-'
    then skipped rest
    else if c == b'.' || (leb b'a' c && leb c b'z')
    then parsed (c ∷ []) (some rest)
    else if c == b'('
    then named [] (read_name 31 rest)
    else if c == b'^'
    then named (b'^' ∷ []) (read_name 30 rest)
    else parsed [] (some (c ∷ rest))

-- A bracket before the type
unfoldable pub bracket : Bool → Bytes → Bool × Bytes
bracket optional [] = (optional, [])
bracket optional (c ∷ rest) = if c == b'[' || c == b']' then (true, rest) else (optional, c ∷ rest)

-- `if (buf_len) { *buf_len = (int) len; }`
unfoldable pub new_len : Option ℕ → Option ℕ → Option ℕ
new_len old none = old
new_len old (some len) = some len

-- Where NULL has replaced `arg_type` in the middle of a string, the type is the empty string.
unfoldable pub short_name : Bool → Option Bytes
short_name true = some []
short_name false = none

-- Whether arguments are missing, from what is left of the type string
unfoldable pub is_missing : Bool → Option Bytes → Bool
is_missing true rest = false
is_missing false none = false
is_missing false (some []) = false
is_missing false (some (c ∷ rest)) = not (c == b'[')

-- The variables at the start: `@` stands for the address of the machine.
unfoldable pub start : ℤ → Option Bytes → Loop
start vm_address (some (c ∷ rest)) =
    if c == b'@'
    then record { arg_type = some rest; arg_optional = false; buf_len = none; p = vm_address ∷ [] }
    else record { arg_type = some (c ∷ rest); arg_optional = false; buf_len = none; p = [] }
start vm_address arg_type = record {
  arg_type = arg_type;
  arg_optional = false;
  buf_len = none;
  p = [];
}

unfoldable pub is_some : Option Bytes → Bool
is_some none = false
is_some (some arg_type) = true

module _ {M : Type 0} (vm : Interpreter M) (depth : ℕ) (self : Value) where
  -- The length of the last buffer as an argument
  unfoldable pub with_length : Loop → Bytes → Option ℕ → Run M Loop
  with_length l rest none = raise value_error
  with_length l rest (some len) =
      return (record l { arg_type = some rest; p = l.p ++ (pos len ∷ []) })

  -- The virtual argument of a `~`, if there is one
  unfoldable pub add_length : Loop → Option Bytes → Run M Loop
  add_length l (some (c ∷ rest)) = if c == b'~' then with_length l rest l.buf_len else return l
  add_length l _ = return l

  -- The value is converted and stored.
  unfoldable pub store : Loop → Option Bytes → Option Bytes → Value → Run M Loop
  store l type_short_name rest v = do
    ret ← convert vm depth self type_short_name v
    add_length
        (record l { arg_type = rest; buf_len = new_len l.buf_len ret.1; p = l.p ++ (ret.0 ∷ []) })
        rest

  unfoldable pub take_parsed : Loop → Value → Parsed → Run M Loop
  take_parsed l v (skipped rest) = return (record l { arg_type = some rest })
  take_parsed l v (parsed type_short_name rest) = store l (some type_short_name) rest v

  -- A round with a type string
  unfoldable pub take_typed : Loop → Value → Bool × Bytes → Run M Loop
  take_typed l v (optional, arg_type) =
      take_parsed (record l { arg_optional = optional }) v (parse_type arg_type)

  -- One round; `check` is `arg_type_check`.
  unfoldable pub round : Bool → Loop → Option Bytes → Value → Run M Loop
  round check l none v = store l (short_name check) none v
  round check l (some arg_type) v = take_typed l v (bracket l.arg_optional arg_type)

  -- The loop over the arguments
  unfoldable pub rounds : Bool → List Value → Loop → Run M Loop
  rounds check [] l = return l
  rounds check (v ∷ args) l = do l' ← round check l l.arg_type v; rounds check args l'

  unfoldable pub end_args : Loop → Run M (List ℤ)
  end_args l = if is_missing l.arg_optional l.arg_type then raise value_error else return l.p

  -- `be_check_arg_type`: the numbers stored
  unfoldable pub check_arg_type : ℤ → List Value → Option Bytes → Run M (List ℤ)
  check_arg_type vm_address args arg_type = do
    l ← rounds (is_some arg_type) args (start vm_address arg_type)
    end_args l
