-- ===== src/Tests/Ctypes.antt =====
-- Structures seen from Berry, at concrete inputs.
use esp32_berry_lang.Base.{
  ℕ, zero, suc, ◌+◌, ◌≤◌, false, Bool, ◌⊎◌, inl, inr, Bytes, [], ◌∷◌, Option, none, some,
  Option-cases, set, get_elem?, get_elem?-lt, get_elem?-set_ne, get_elem?-set_self, codes, ◌≡◌, ◌≢◌,
  refl, arith, overlay, replicate,
}
use esp32_berry_lang.Base.Int.{ℤ, pos, negsuc}
use esp32_berry_lang.BinSearch.{strcmp}
use esp32_berry_lang.BinSearch.Sorted.{precedes, before, ascending, ascending-IsSorted}
use esp32_berry_lang.BinSearch.Answer.{IsSorted}
use esp32_berry_lang.Ctypes.{
  Item, Structure, Value, int, real, done, passed_on, Interpreter, no_method, made, get_item,
  size_of, map_instance, mapped, read_item, member, setmember, tomap,
}
use esp32_berry_lang.Ctypes.Copy
use esp32_berry_lang.Ctypes.Objects.{Memory}
use esp32_berry_lang.Ctypes.Lookup.{names}
use esp32_berry_lang.Ctypes.Members.{be_i16, u8, IsSize, little_1}
use esp32_berry_lang.Ctypes.Roundtrip.{
  fits, bytes_of, Laws, integer, setmember-member, setmember-member_other, setmember-BigSigned,
}
use esp32_berry_lang.Ctypes.Tomap.{no_more, entry, tomap-Entries}

-- A `bytes` object that only takes unsigned numbers of one byte.
abbrev get_byte : Bool → ℕ → ℤ → Bytes → Option ℤ
get_byte false offset (pos (suc zero)) m = elim (get_elem? m offset) [
  | none ↦ none
  | some b ↦ some (pos b)
]
get_byte _ _ _ m = none

abbrev set_byte : Bool → ℕ → Value → ℤ → Bytes → Option Bytes
set_byte false offset (int (pos n)) (pos (suc zero)) m = elim (get_elem? m offset) [
  | none ↦ none
  | some b ↦ some (set m offset n)
]
set_byte _ _ _ _ m = none

abbrev vm : Interpreter Bytes
vm = record {
  get = get_byte;
  set = set_byte;
  getbits = λ offset len m. none;
  setbits = λ offset len v m. none;
  toint = λ n. no_method;
  construct = λ name v. none;
  be_toint = λ v. elim v [ int n ↦ n | _ ↦ pos 0 ];
  be_toreal = λ v. elim v [ real n ↦ n | _ ↦ pos 0 ];
}

get_byte-set_byte :
    (sign : Bool) (offset : ℕ) (size n : ℤ) (m m' : Bytes)
    → set_byte sign offset (int n) size m ≡ some m'
    → get_byte sign offset size m' ≡ some n
get_byte-set_byte false offset (pos (suc zero)) (pos n) m m' h =
    elim (Option-cases (get_elem? m offset)) [
      | inl e ↦ ground (arith, e)
      | inr (b, e) ↦
          let same = get_elem?-set_self m offset n (get_elem?-lt m offset b e) in
          ground (arith, e, same)
    ]
get_byte-set_byte _ _ _ _ m m' h = ground arith

-- What a store that succeeds is.
set_byte-inversion :
    (sign : Bool) (offset : ℕ) (v : Value) (size : ℤ) (m m' : Bytes)
    → set_byte sign offset v size m ≡ some m'
    → (n : ℕ) × (m' ≡ set m offset n) × (size ≡ pos 1)
set_byte-inversion false offset (int (pos n)) (pos (suc zero)) m m' h =
    elim (Option-cases (get_elem? m offset)) [
      | inl e ↦ ground (arith, e)
      | inr (b, e) ↦ (n, ground (arith, e), refl)
    ]
set_byte-inversion _ _ _ _ m m' h = ground arith

get_byte-set_ne :
    (sign : Bool) (offset offset' : ℕ) (n : ℕ) (size : ℤ) (m : Bytes)
    → (offset + 1 ≤ offset') ⊎ (offset' + bytes_of size ≤ offset)
    → get_byte sign offset' size (set m offset n) ≡ get_byte sign offset' size m
get_byte-set_ne false offset offset' n (pos (suc zero)) m h =
    let apart : offset ≢ offset' = ground arith in
    let same = get_elem?-set_ne m n apart in ground (arith, same)
get_byte-set_ne _ _ _ n _ m h = refl

get_byte_size :
    (sign : Bool) (offset : ℕ) (size : ℤ) (m : Bytes)
    → ¬ (IsSize size)
    → get_byte sign offset size m ≡ none
get_byte_size false offset (pos (suc zero)) m h = absurd (h little_1)
get_byte_size _ _ _ m h = refl

set_byte_size :
    (sign : Bool) (offset : ℕ) (v : Value) (size : ℤ) (m : Bytes)
    → ¬ (IsSize size)
    → set_byte sign offset v size m ≡ none
set_byte_size false offset (int (pos n)) (pos (suc zero)) m h = absurd (h little_1)
set_byte_size _ _ _ _ m h = refl

vm-Laws : Laws (λ m. m) vm
vm-Laws = record {
  get_set = λ sign offset size n m m' ok room f h. get_byte-set_byte sign offset size n m m' h;
  get_other = λ sign sign' offset offset' size size' n m m' ok ok' low low' apart h.
      let (b, e, q) = set_byte-inversion sign offset (int n) size m m' h in
      rw e (get_byte-set_ne sign' offset offset' b size' m (rw q at apart));
  get_size = get_byte_size;
  set_size = λ sign offset n. set_byte_size sign offset (int n);
  toint_int = λ n. refl;
  toreal_real = λ n. refl;
}

-- Two bytes and a big-endian signed number of two bytes, by their names.
abbrev hour : Item
hour = record {
  name = codes "hour";
  offset_bytes = 1;
  offset_bits = 0;
  len_bits = 0;
  kind = pos 1;
  mapping = 0;
}

abbrev minute : Item
minute = record hour { name = codes "minute"; offset_bytes = 2 }

abbrev zone : Item
zone = record hour { name = codes "zone"; offset_bytes = 3; kind = negsuc 11 }

abbrev clock : Structure
clock = record { size_bytes = 3; instance_mapping = none; items = hour ∷ minute ∷ [] }

abbrev zoned : Structure
zoned = record { size_bytes = 5; instance_mapping = none; items = hour ∷ minute ∷ zone ∷ [] }

clock-IsSorted : IsSorted some (names clock)
unfolding ascending precedes before strcmp
clock-IsSorted = ascending-IsSorted some (names clock) refl

zoned-IsSorted : IsSorted some (names zoned)
unfolding ascending precedes before strcmp
zoned-IsSorted = ascending-IsSorted some (names zoned) refl

abbrev midnight : Bytes
midnight = 7 ∷ 0 ∷ 0 ∷ []

abbrev noon : Bytes
noon = 7 ∷ 12 ∷ 0 ∷ []

setmember-member_example :
    (setmember vm clock (codes "hour") (int (pos 12)) midnight ≡ done noon)
    × (member vm clock (codes "hour") noon ≡ done (int (pos 12)))
unfolding fits
setmember-member_example =
    setmember-member vm-Laws clock 0 hour midnight noon clock-IsSorted refl refl
      (integer (pos 12) u8) (omega arith) refl refl

set_hour : setmember vm clock (codes "hour") (int (pos 12)) midnight ≡ done noon
unfolding fits
set_hour =
    (setmember-member vm-Laws clock 0 hour midnight noon clock-IsSorted refl refl
      (integer (pos 12) u8) (omega arith) refl refl).0

setmember-member_other_example :
    member vm clock (codes "minute") noon ≡ member vm clock (codes "minute") midnight
setmember-member_other_example =
    setmember-member_other vm-Laws clock 0 1 hour minute (pos 12) midnight noon clock-IsSorted refl
      refl u8 u8 (omega arith) (omega arith) (inl (omega arith)) set_hour

setmember-BigSigned_example :
    (setmember vm zoned (codes "zone") (int (pos 1)) midnight ≡ passed_on)
    × (member vm zoned (codes "zone") midnight ≡ passed_on)
setmember-BigSigned_example =
    setmember-BigSigned vm-Laws zoned 2 zone (pos 1) midnight zoned-IsSorted refl be_i16

tomap-Entries_example :
    tomap vm clock noon ≡ done ((codes "hour", int (pos 12)) ∷ (codes "minute", int (pos 0)) ∷ [])
unfolding read_item mapped get_item size_of made map_instance
tomap-Entries_example =
    tomap-Entries vm clock noon ((codes "hour", int (pos 12)) ∷ (codes "minute", int (pos 0)) ∷ [])
      clock-IsSorted (entry hour (int (pos 12)) refl (entry minute (int (pos 0)) refl no_more))

-- Objects that are their bytes.
abbrev memory : Memory Bytes
memory = record {
  bytes_init = λ address size. elim size [ pos n ↦ none | negsuc n ↦ some (replicate (suc n) 0) ];
  buffer = λ m. m;
  move_bytes = λ m bs. overlay bs m;
  structure_at = λ p. clock;
}
