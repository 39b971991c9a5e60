-- ===== src/Ctypes/Members.antt =====
-- What a member reads after it has been set: `be_ctypes_member` and `be_ctypes_setmember`.
use esp32_berry_lang.Base.{
  ℕ, zero, suc, List, Bool, true, false, Bytes, Option, none, some, get_elem?, ◌≡◌, refl, arith,
}
use esp32_berry_lang.Base.Int.{ℤ, pos, negsuc, ◌-ℤ◌, ◌+ℤ◌}
use esp32_berry_lang.BinSearch.Answer.{IsSorted}
use esp32_berry_lang.Ctypes.Lookup.{names, lookup_own}
use esp32_berry_lang.Ctypes.{
  Item, Structure, Value, int, done, passed_on, Interpreter, size_of, made, get_item, map_instance,
  read_item, mapped, set_value, read_found, member, from_instance, from_pointer, stored, set_item,
  set_found, setmember,
}

-- The types of the big-endian signed integers: `ctypes_be_i32`, `ctypes_be_i16`, `ctypes_be_i8`.
pub data BigSigned : ℤ → Type 0 where
  be_i32 : BigSigned (negsuc 13)
  be_i16 : BigSigned (negsuc 11)
  be_i8 : BigSigned (negsuc 10)

-- The types of the other integers, with the size and the sign of the methods that read them.
pub data Integer : ℤ → ℤ → Bool → Type 0 where
  i32 : Integer (pos 14) (pos 4) true
  i16 : Integer (pos 12) (pos 2) true
  i8 : Integer (pos 11) (pos 1) true
  u32 : Integer (pos 4) (pos 4) false
  u16 : Integer (pos 2) (pos 2) false
  u8 : Integer (pos 1) (pos 1) false
  be_u32 : Integer (negsuc 3) (negsuc 3) false
  be_u16 : Integer (negsuc 1) (negsuc 1) false
  be_u8 : Integer (negsuc 0) (negsuc 0) false

-- The sizes that the methods of `bytes` take.
pub data IsSize : ℤ → Type 0 where
  nothing : IsSize (pos 0)
  little_1 : IsSize (pos 1)
  little_2 : IsSize (pos 2)
  little_4 : IsSize (pos 4)
  big_1 : IsSize (negsuc 0)
  big_2 : IsSize (negsuc 1)
  big_4 : IsSize (negsuc 3)

module _ {M : Type 0} (vm : Interpreter M) where
  pub get_item-Integer :
      (item : Item) {kind size : ℤ} {sign : Bool} (m : M)
      → Integer kind size sign
      → get_item vm kind item m ≡ made int (vm.get sign item.offset_bytes size m)
  unfolding get_item size_of ◌-ℤ◌ ◌+ℤ◌
  get_item-Integer item m i32 = refl
  get_item-Integer item m i16 = refl
  get_item-Integer item m i8 = refl
  get_item-Integer item m u32 = refl
  get_item-Integer item m u16 = refl
  get_item-Integer item m u8 = refl
  get_item-Integer item m be_u32 = refl
  get_item-Integer item m be_u16 = refl
  get_item-Integer item m be_u8 = refl

  pub set_item-Integer :
      (item : Item) (v : Value) {kind size : ℤ} {sign : Bool} (m : M)
      → Integer kind size sign
      → set_item vm kind item v m ≡ stored vm (vm.set sign item.offset_bytes v size m)
  unfolding set_item size_of ◌-ℤ◌ ◌+ℤ◌
  set_item-Integer item v m i32 = refl
  set_item-Integer item v m i16 = refl
  set_item-Integer item v m i8 = refl
  set_item-Integer item v m u32 = refl
  set_item-Integer item v m u16 = refl
  set_item-Integer item v m u8 = refl
  set_item-Integer item v m be_u32 = refl
  set_item-Integer item v m be_u16 = refl
  set_item-Integer item v m be_u8 = refl

  -- The size asked for is none that the methods take.
  pub get_item-BigSigned :
      (item : Item) {kind : ℤ} (m : M)
      → ((sign : Bool) (offset : ℕ) (size : ℤ) → ¬ (IsSize size) → vm.get sign offset size m ≡ none)
      → BigSigned kind
      → get_item vm kind item m ≡ passed_on
  unfolding get_item size_of made ◌-ℤ◌ ◌+ℤ◌
  get_item-BigSigned item m h be_i32 = simp (h true item.offset_bytes (negsuc 25) (λ s. elim s [ ]))
  get_item-BigSigned item m h be_i16 = simp (h true item.offset_bytes (negsuc 23) (λ s. elim s [ ]))
  get_item-BigSigned item m h be_i8 = simp (h true item.offset_bytes (negsuc 22) (λ s. elim s [ ]))

  pub set_item-BigSigned :
      (item : Item) (n : ℤ) {kind : ℤ} (m : M)
      → ((sign : Bool) (offset : ℕ) (w size : ℤ)
          → ¬ (IsSize size)
          → vm.set sign offset (int w) size m ≡ none)
      → BigSigned kind
      → set_item vm kind item (int n) m ≡ passed_on
  unfolding set_item size_of stored ◌-ℤ◌ ◌+ℤ◌
  set_item-BigSigned item n m h be_i32 =
      simp (h true item.offset_bytes n (negsuc 25) (λ s. elim s [ ]))
  set_item-BigSigned item n m h be_i16 =
      simp (h true item.offset_bytes n (negsuc 23) (λ s. elim s [ ]))
  set_item-BigSigned item n m h be_i8 =
      simp (h true item.offset_bytes n (negsuc 22) (λ s. elim s [ ]))

  map_instance_plain :
      (instance_mapping : Option (List (Option Bytes))) (mapping : ℕ) (v : Value)
      → mapping ≡ 0
      → map_instance vm instance_mapping mapping v ≡ done v
  unfolding map_instance
  map_instance_plain none mapping v h = refl
  map_instance_plain (some names) zero v h = refl
  map_instance_plain (some names) (suc n) v h = absurd (omega (arith, h))

  pub read_item_plain :
      (def : Structure) (item : Item) (m : M) (v : Value)
      → item.mapping ≡ 0
      → get_item vm item.kind item m ≡ done v
      → read_item vm def item m ≡ done v
  unfolding read_item mapped
  read_item_plain def item m v h e =
      simp (e) (map_instance_plain def.instance_mapping item.mapping v h)

  pub member_own :
      (def : Structure) (i : ℕ) (item : Item) (m : M)
      → IsSorted some (names def)
      → get_elem? def.items i ≡ some item
      → member vm def item.name m ≡ read_item vm def item m
  unfolding member read_found
  member_own def i item m sorted h = simp (lookup_own def i item sorted h)

  pub setmember_own :
      (def : Structure) (i : ℕ) (item : Item) (value v : Value) (m : M)
      → IsSorted some (names def)
      → get_elem? def.items i ≡ some item
      → from_instance vm value ≡ done v
      → setmember vm def item.name value m ≡ set_item vm item.kind item (from_pointer vm v) m
  unfolding setmember set_value set_found
  setmember_own def i item value v m sorted h e = simp (e, lookup_own def i item sorted h)
