-- ===== src/Ctypes/Roundtrip.antt =====
-- A member reads the value it has been set to, and the others keep theirs: `be_ctypes_setmember`
-- followed by `be_ctypes_member`.
use esp32_berry_lang.Base.{
  ℕ, ◌+◌, ◌*◌, ◌-◌, ◌^◌, ◌≤◌, ◌<◌, ltb, leb, length, Bytes, Bool, true, not, ◌&&◌, Option, none,
  some, get_elem?, ◌≡◌, refl, sym, arith, ap, ◌∙◌, ◌⊎◌, if◌then◌else◌,
}
use esp32_berry_lang.Base.Int.{ℤ, pos, pos_part, neg_part}
use esp32_berry_lang.BinSearch.Answer.{IsSorted}
use esp32_berry_lang.Ctypes.{
  Item, Structure, Value, int, real, comptr, done, passed_on, Interpreter, made, get_item, mapped,
  read_item, member, from_instance, from_pointer, stored, set_item, setmember,
}
use esp32_berry_lang.Ctypes.Lookup.{names}
use esp32_berry_lang.Ctypes.Members.{
  Integer, i32, i16, i8, u32, u16, u8, be_u32, be_u16, be_u8, BigSigned, IsSize, little_1, little_2,
  little_4, big_1, big_2, big_4, get_item-Integer, set_item-Integer, get_item-BigSigned,
  set_item-BigSigned, read_item_plain, member_own, setmember_own,
}

-- The number of bytes of a size: a negative one is big-endian.
abbrev pub bytes_of : ℤ → ℕ
bytes_of size = pos_part size + neg_part size

-- Whether a method of that size and sign gives the number back: an unsigned number of one or two
-- bytes is not negative, and one of four bytes is a Berry integer of 32 bits.
unfoldable pub fits : Bool → ℤ → ℤ → Bool
fits sign size n =
    let narrow = not sign && ltb (bytes_of size) 4 in
    let half = 2 ^ (8 * bytes_of size - 1) in
    if narrow
    then ltb (pos_part n) (2 * half) && leb (neg_part n) 0
    else ltb (pos_part n) half && leb (neg_part n) half

-- A size with which the methods read or write something
abbrev pub IsWidth : ℤ → Type 0
IsWidth size = IsSize size × (1 ≤ bytes_of size)

-- What the interpreter's documentation says: the methods of `bytes` give back what they have stored
-- within the buffer, and leave the bytes outside the range they write, also where a part of it is
-- outside the buffer and the store is passed over; with an integer, they raise an error for a size
-- they do not take; `be_toint` of an integer and `be_toreal` of a real are that number. An offset of
-- a structure has 16 bits.
pub record Laws {M : Type 0} (buffer : M → Bytes) (vm : Interpreter M) : Type 0 where
  pub get_set :
      (sign : Bool) (offset : ℕ) (size n : ℤ) (m m' : M)
      → IsWidth size
      → offset + bytes_of size ≤ length (buffer m)
      → fits sign size n ≡ true
      → vm.set sign offset (int n) size m ≡ some m'
      → vm.get sign offset size m' ≡ some n
  pub get_other :
      (sign sign' : Bool) (offset offset' : ℕ) (size size' n : ℤ) (m m' : M)
      → IsWidth size
      → IsWidth size'
      → offset < 2 ^ 16
      → offset' < 2 ^ 16
      → (offset + bytes_of size ≤ offset') ⊎ (offset' + bytes_of size' ≤ offset)
      → vm.set sign offset (int n) size m ≡ some m'
      → vm.get sign' offset' size' m' ≡ vm.get sign' offset' size' m
  pub get_size :
      (sign : Bool) (offset : ℕ) (size : ℤ) (m : M)
      → ¬ (IsSize size)
      → vm.get sign offset size m ≡ none
  pub set_size :
      (sign : Bool) (offset : ℕ) (n size : ℤ) (m : M)
      → ¬ (IsSize size)
      → vm.set sign offset (int n) size m ≡ none
  pub toint_int : (n : ℤ) → vm.be_toint (int n) ≡ n
  pub toreal_real : (n : ℤ) → vm.be_toreal (real n) ≡ n

-- How a member of a type holds a value: the sign and the size of the methods, and the number stored.
pub data Holds : ℤ → Value → Bool → ℤ → ℤ → Type 0 where
  integer :
      {kind size : ℤ} {sign : Bool} (n : ℤ)
      → Integer kind size sign
      → Holds kind (int n) sign size n
  float : (n : ℤ) → Holds (pos 5) (real n) true (pos 4) n
  pointer : (n : ℤ) → Holds (pos 9) (comptr n) true (pos 4) n

Integer-IsWidth : {kind size : ℤ} {sign : Bool} → Integer kind size sign → IsWidth size
Integer-IsWidth i32 = (little_4, omega arith)
Integer-IsWidth i16 = (little_2, omega arith)
Integer-IsWidth i8 = (little_1, omega arith)
Integer-IsWidth u32 = (little_4, omega arith)
Integer-IsWidth u16 = (little_2, omega arith)
Integer-IsWidth u8 = (little_1, omega arith)
Integer-IsWidth be_u32 = (big_4, omega arith)
Integer-IsWidth be_u16 = (big_2, omega arith)
Integer-IsWidth be_u8 = (big_1, omega arith)

Holds-IsWidth :
    {kind : ℤ} {v : Value} {sign : Bool} {size n : ℤ} → Holds kind v sign size n → IsWidth size
Holds-IsWidth (integer n i) = Integer-IsWidth i
Holds-IsWidth (float n) = (little_4, omega arith)
Holds-IsWidth (pointer n) = (little_4, omega arith)

module _ {M : Type 0} {buffer : M → Bytes} {vm : Interpreter M} (laws : Laws buffer vm) where
  set_item-Holds :
      (item : Item) {kind : ℤ} {v : Value} {sign : Bool} {size n : ℤ} (m : M)
      → Holds kind v sign size n
      → set_item vm kind item (from_pointer vm v) m
        ≡ stored vm (vm.set sign item.offset_bytes (int n) size m)
  unfolding set_item from_pointer
  set_item-Holds item m (integer n i) = set_item-Integer vm item (int n) m i
  set_item-Holds item m (float n) = simp (laws.toreal_real n)
  set_item-Holds item m (pointer n) = simp (laws.toint_int n)

  get_item-Holds :
      (item : Item) {kind : ℤ} {v : Value} {sign : Bool} {size n : ℤ} (m : M)
      → Holds kind v sign size n
      → vm.get sign item.offset_bytes size m ≡ some n
      → get_item vm kind item m ≡ done v
  unfolding get_item made
  get_item-Holds item m (integer n i) h = get_item-Integer vm item m i ∙ ap (made int) h
  get_item-Holds item m (float n) h = ap (made real) h
  get_item-Holds item m (pointer n) h = ap (made comptr) h

  from_instance-Holds :
      {kind : ℤ} {v : Value} {sign : Bool} {size n : ℤ}
      → Holds kind v sign size n
      → from_instance vm v ≡ done v
  unfolding from_instance
  from_instance-Holds (integer n i) = refl
  from_instance-Holds (float n) = refl
  from_instance-Holds (pointer n) = refl

  -- Under the laws above, let the names of the structure be sorted, a member of it have an integer
  -- type other than the big-endian signed ones, or be a float or a pointer, have no instance mapping,
  -- and lie within the buffer. Then a number that fits it, a real or a pointer, is stored where the
  -- method of `bytes` stores it, and the member reads it back.
  pub setmember-member :
      (def : Structure) (i : ℕ) (item : Item) {v : Value} {sign : Bool} {size n : ℤ} (m m' : M)
      → IsSorted some (names def)
      → get_elem? def.items i ≡ some item
      → item.mapping ≡ 0
      → Holds item.kind v sign size n
      → item.offset_bytes + bytes_of size ≤ length (buffer m)
      → fits sign size n ≡ true
      → vm.set sign item.offset_bytes (int n) size m ≡ some m'
      → (setmember vm def item.name v m ≡ done m') × (member vm def item.name m' ≡ done v)
  unfolding stored
  setmember-member def i item {v} {sign} {size} {n} m m' sorted at plain holds room fit set = (
    setmember_own vm def i item v v m sorted at (from_instance-Holds holds)
        ∙ set_item-Holds item m holds
        ∙ ap (stored vm) set,
    member_own vm def i item m' sorted at
        ∙ read_item_plain vm def item m' v plain (
            get_item-Holds item m' holds
              (laws.get_set sign item.offset_bytes size n m m' (Holds-IsWidth holds) room fit set)),
  )

  stored_done : (o : Option M) (m' : M) → stored vm o ≡ done m' → o ≡ some m'
  unfolding stored
  stored_done o m' h = ground arith

  -- Under the laws above, let the names of the structure be sorted and two integer members of types
  -- other than the big-endian signed ones, at offsets of 16 bits, share no byte. Then setting one to an integer, where the
  -- method of `bytes` stores it, leaves what the other reads.
  pub setmember-member_other :
      (def : Structure) (i j : ℕ) (item other : Item) {sign sign' : Bool} {size size' : ℤ} (n : ℤ)
      (m m' : M)
      → IsSorted some (names def)
      → get_elem? def.items i ≡ some item
      → get_elem? def.items j ≡ some other
      → Integer item.kind size sign
      → Integer other.kind size' sign'
      → item.offset_bytes < 2 ^ 16
      → other.offset_bytes < 2 ^ 16
      → (item.offset_bytes + bytes_of size ≤ other.offset_bytes)
        ⊎ (other.offset_bytes + bytes_of size' ≤ item.offset_bytes)
      → setmember vm def item.name (int n) m ≡ done m'
      → member vm def other.name m' ≡ member vm def other.name m
  unfolding read_item from_instance from_pointer
  setmember-member_other def i j item other {sign} {sign'} {size} {size'} n m m' sorted at at' kind
        kind' low low' apart h =
      let set = stored_done (vm.set sign item.offset_bytes (int n) size m) m' (
        sym (set_item-Integer vm item (int n) m kind)
        ∙ sym (setmember_own vm def i item (int n) (int n) m sorted at refl)
        ∙ h) in
      let same =
        laws.get_other sign sign' item.offset_bytes other.offset_bytes size size' n m m'
          (Integer-IsWidth kind) (Integer-IsWidth kind') low low' apart set in
      member_own vm def j other m' sorted at'
      ∙ ap (mapped vm def other) (
          get_item-Integer vm other m' kind'
          ∙ ap (made int) same
          ∙ sym (get_item-Integer vm other m kind'))
      ∙ sym (member_own vm def j other m sorted at')

  -- Under the laws above, let the names of the structure be sorted and a member have a big-endian
  -- signed type. Then neither reading it nor setting it to an integer succeeds: the method of
  -- `bytes` raises an error.
  pub setmember-BigSigned :
      (def : Structure) (i : ℕ) (item : Item) (n : ℤ) (m : M)
      → IsSorted some (names def)
      → get_elem? def.items i ≡ some item
      → BigSigned item.kind
      → (setmember vm def item.name (int n) m ≡ passed_on) × (member vm def item.name m ≡ passed_on)
  unfolding read_item mapped from_instance from_pointer
  setmember-BigSigned def i item n m sorted at kind = (
    setmember_own vm def i item (int n) (int n) m sorted at refl
        ∙ set_item-BigSigned vm item n m (λ s o w z. laws.set_size s o w z m) kind,
    member_own vm def i item m sorted at
        ∙ ap (mapped vm def item)
            (get_item-BigSigned vm item m (λ s o z. laws.get_size s o z m) kind),
  )
