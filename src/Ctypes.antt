-- ===== src/Ctypes.antt =====
-- The members of C structures seen from Berry: components/berry/berry_ctypes/src/be_ctypes.c. A
-- structure lies in a `bytes` object, whose methods are a parameter, as are the constructors and
-- conversions of the interpreter. Pointers and Berry's integers have 32 bits here, and a pointer
-- stands for the integer it is cast to.
pub mod Copy
pub mod Lookup
pub mod Members
pub mod Objects
pub mod Roundtrip
pub mod Tomap
use esp32_berry_lang.Base.{
  ℕ, zero, suc, ◌+◌, ◌*◌, ◌-◌, ltb, Bool, true, false, Bytes, List, [], ◌∷◌, Option, none, some,
  get_elem?, map, if◌then◌else◌,
}
use esp32_berry_lang.Base.Int.{ℤ, pos, negsuc, ◌+ℤ◌, ◌-ℤ◌, leb_ℤ, ◌==ℤ◌}
use esp32_berry_lang.BinSearch.{Search, found, bin_search_ctypes}

abbrev pub ctypes_i8 : ℤ
ctypes_i8 = pos 11

abbrev pub ctypes_be_i8 : ℤ
ctypes_be_i8 = negsuc 10

abbrev pub ctypes_float : ℤ
ctypes_float = pos 5

abbrev pub ctypes_ptr32 : ℤ
ctypes_ptr32 = pos 9

abbrev pub ctypes_bf : ℤ
ctypes_bf = pos 0

-- `be_ctypes_structure_item_t`; `type` is `kind` here.
pub record Item : Type 0 where
  pub name : Bytes
  pub offset_bytes : ℕ
  pub offset_bits : ℕ
  pub len_bits : ℕ
  pub kind : ℤ
  pub mapping : ℕ

-- `be_ctypes_structure_t`; NULL is `none`.
pub record Structure : Type 0 where
  pub size_bytes : ℕ
  pub instance_mapping : Option (List (Option Bytes))
  pub items : List Item

-- A Berry value. A real is given by the bits of its float as an integer, a string by its address, and
-- `undefined` is the module of that name.
pub data Value : Type 0 where
  nil : Value
  undefined : Value
  int : ℤ → Value
  real : ℤ → Value
  comptr : ℤ → Value
  string : ℤ → Value
  instance_of : ℕ → Value

-- How a native function ends: with a value, with an error of the given kind or of a function that it
-- calls, or by a read past `instance_mapping`.
pub data Result (A : Type 0) : Type 0 where
  done : A → Result A
  attribute_error : Result A
  value_error : Result A
  passed_on : Result A
  fault : Result A

-- The call of `toint()` on an instance.
pub data ToInt : Type 0 where
  no_method : ToInt
  call_raised : ToInt
  result : Value → ToInt

-- What the interpreter provides, for a `bytes` object of type `M`: its methods `geti`, `seti` (with
-- `true`), `get`, `set` (with `false`), `getbits`, `setbits`, where `none` is an error that they
-- raise; `toint()`; the constructor of a class by name, called with a value and -1; `be_toint`, and
-- `be_toreal` as the bits of a float.
pub record Interpreter (M : Type 0) : Type 0 where
  pub get : Bool → ℕ → ℤ → M → Option ℤ
  pub set : Bool → ℕ → Value → ℤ → M → Option M
  pub getbits : ℕ → ℕ → M → Option ℤ
  pub setbits : ℕ → ℕ → Value → M → Option M
  pub toint : ℕ → ToInt
  pub construct : Bytes → Value → Option Value
  pub be_toint : Value → ℤ
  pub be_toreal : Value → ℤ

-- The size and the sign of an integer member, from its type.
unfoldable pub size_of : ℤ → ℤ × Bool
size_of kind =
    let (size, sign) : ℤ × Bool =
      if leb_ℤ ctypes_i8 kind then (kind -ℤ (ctypes_i8 -ℤ pos 1), true) else (kind, false) in
    if leb_ℤ size ctypes_be_i8 then (size +ℤ (ctypes_be_i8 -ℤ pos 1), true) else (size, sign)

-- A value made of an integer that a method has returned.
unfoldable pub made : (ℤ → Value) → Option ℤ → Result Value
made f none = passed_on
made f (some n) = done (f n)

-- `&definitions->items[member_idx]` if `member_idx >= 0`
unfoldable pub at_index : List Item → Search → Option Item
at_index items (found i) = get_elem? items i
at_index items _ = none

-- The member that `bin_search_ctypes` finds.
unfoldable pub lookup : Bytes → Structure → Option Item
lookup name def = at_index def.items (bin_search_ctypes name (map (λ item. item.name) def.items))

module _ {M : Type 0} (vm : Interpreter M) where
  -- The dispatch of `be_ctypes_member` on the type of the member
  unfoldable pub get_item : ℤ → Item → M → Result Value
  get_item kind item m =
      let (size, sign) = size_of kind in
      if ctypes_bf ==ℤ kind
      then made int (vm.getbits (item.offset_bytes * 8 + item.offset_bits) item.len_bits m)
      else if ctypes_float ==ℤ kind
      then made real (vm.get true item.offset_bytes (pos 4) m)
      else if ctypes_ptr32 ==ℤ kind
      then made comptr (vm.get true item.offset_bytes (pos 4) m)
      else made int (vm.get sign item.offset_bytes size m)

  unfoldable pub constructed : Option Value → Result Value
  constructed none = passed_on
  constructed (some v) = done v

  -- The instance mapping of `be_ctypes_member`: `definitions->instance_mapping[member->mapping - 1]`
  unfoldable pub map_instance : Option (List (Option Bytes)) → ℕ → Value → Result Value
  map_instance none mapping v = done v
  map_instance (some names) zero v = done v
  map_instance (some names) (suc n) v = elim (get_elem? names n) [
    | none ↦ fault
    | some mapping_name ↦ elim mapping_name [
      | none ↦ done v
      | some class_name ↦ constructed (vm.construct class_name v)
    ]
  ]

  unfoldable pub mapped : Structure → Item → Result Value → Result Value
  mapped def item (done v) = map_instance def.instance_mapping item.mapping v
  mapped def item r = r

  -- The value of a member that has been found.
  unfoldable pub read_item : Structure → Item → M → Result Value
  read_item def item m = mapped def item (get_item item.kind item m)

  unfoldable pub read_found : Structure → Option Item → M → Result Value
  read_found def none m = done undefined
  read_found def (some item) m = read_item def item m

  -- `be_ctypes_member`
  unfoldable pub member : Structure → Bytes → M → Result Value
  member def name m = read_found def (lookup name def) m

  -- The value of an instance is replaced by what `toint()` gives.
  unfoldable pub from_instance : Value → Result Value
  from_instance (instance_of n) = elim (vm.toint n) [
    | no_method ↦ value_error
    | call_raised ↦ passed_on
    | result v ↦ done v
  ]
  from_instance v = done v

  -- A pointer or a string is replaced by its address.
  unfoldable pub from_pointer : Value → Value
  from_pointer (comptr p) = int p
  from_pointer (string p) = int p
  from_pointer v = v

  unfoldable pub stored : Option M → Result M
  stored none = passed_on
  stored (some m) = done m

  -- The dispatch of `be_ctypes_setmember` on the type of the member
  unfoldable pub set_item : ℤ → Item → Value → M → Result M
  set_item kind item v m =
      let (size, sign) = size_of kind in
      let ptr : ℤ = elim v [ comptr p ↦ p | other ↦ vm.be_toint other ] in
      if ctypes_bf ==ℤ kind
      then stored (vm.setbits (item.offset_bytes * 8 + item.offset_bits) item.len_bits v m)
      else if ctypes_float ==ℤ kind
      then stored (vm.set true item.offset_bytes (int (vm.be_toreal v)) (pos 4) m)
      else if ctypes_ptr32 ==ℤ kind
      then stored (vm.set true item.offset_bytes (int ptr) (pos 4) m)
      else stored (vm.set sign item.offset_bytes v size m)

  unfoldable pub set_found : Option Item → Value → M → Result M
  set_found none v m = attribute_error
  set_found (some item) v m = set_item item.kind item v m

  -- The rest of `be_ctypes_setmember`, with the value that an instance is replaced by
  unfoldable pub set_value : Option Item → Result Value → M → Result M
  set_value item (done v) m = set_found item (from_pointer v) m
  set_value item attribute_error m = attribute_error
  set_value item value_error m = value_error
  set_value item passed_on m = passed_on
  set_value item fault m = fault

  -- `be_ctypes_setmember`
  unfoldable pub setmember : Structure → Bytes → Value → M → Result M
  setmember def name value m = set_value (lookup name def) (from_instance value) m

  -- One entry of the map; an error of `member` ends the loop.
  unfoldable pub add_entry :
      Bytes → Result Value → Result (List (Bytes × Value)) → Result (List (Bytes × Value))
  add_entry name (done v) (done entries) = done ((name, v) ∷ entries)
  add_entry name (done v) r = r
  add_entry name attribute_error r = attribute_error
  add_entry name value_error r = value_error
  add_entry name passed_on r = passed_on
  add_entry name fault r = fault

  -- The loop of `be_ctypes_tomap`
  unfoldable pub add_items : Structure → List Item → M → Result (List (Bytes × Value))
  add_items def [] m = done []
  add_items def (item ∷ items) m =
      add_entry item.name (member def item.name m) (add_items def items m)

  -- `be_ctypes_tomap`: the entries in the order in which they are inserted
  unfoldable pub tomap : Structure → M → Result (List (Bytes × Value))
  tomap def m = add_items def def.items m
