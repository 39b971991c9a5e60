-- ===== src/BinSearch/Own.antt =====
-- A name of a sorted table is found where it stands, and no other is found.
use esp32_berry_lang.Base.{
  ℕ, ◌<◌, Bytes, List, Option, some, get_elem?, ltb-cases, ◌≡◌, ◌≢◌, refl, ap, arith, inl, inr,
}
use esp32_berry_lang.BinSearch.{
  map_key, Search, found, absent, fault, out_of_fuel, be_map_bin_search, bin_search_ctypes,
}
use esp32_berry_lang.BinSearch.Order.{strcmp_refl}
use esp32_berry_lang.BinSearch.Answer.{
  IsNamed, HasNames, IsSorted, IsAnswer, be_map_bin_search-IsAnswer, bin_search_ctypes-IsAnswer,
}

module _ (key : Bytes → Option Bytes) (table : List Bytes) (sorted : IsSorted key table) where
  IsSorted-lt :
      (i j : ℕ) (name : Bytes) → IsNamed key table i name → IsNamed key table j name → ¬ (i < j)
  IsSorted-lt i j name at_i at_j lt =
      let less = sorted i j name name lt at_i at_j in let equal = strcmp_refl name in ground arith

  answer_own :
      (i : ℕ) (name : Bytes) (r : Search)
      → IsNamed key table i name
      → IsAnswer key table name r
      → r ≡ found i
  unfolding IsAnswer
  answer_own i name (found j) at_i at_j = elim (ltb-cases i j) [
    | inl lt ↦ absurd (IsSorted-lt i j name at_i at_j lt)
    | inr ge ↦ elim (ltb-cases j i) [
      | inl gt ↦ absurd (IsSorted-lt j i name at_j at_i gt)
      | inr le ↦ ap found (omega (arith, ge, le))
    ]
  ]
  answer_own i name absent at_i a = absurd (a i at_i)
  answer_own i name fault at_i a = absurd a
  answer_own i name out_of_fuel at_i a = absurd a

answer_missing :
    (key : Bytes → Option Bytes) (table : List Bytes) (name : Bytes) (r : Search)
    → ((i : ℕ) → ¬ (IsNamed key table i name))
    → IsAnswer key table name r
    → r ≡ absent
unfolding IsAnswer
answer_missing key table name (found j) h a = absurd (h j a)
answer_missing key table name absent h a = refl
answer_missing key table name fault h a = absurd a
answer_missing key table name out_of_fuel h a = absurd a

pub bin_search_ctypes_own :
    (table : List Bytes) (i : ℕ) (e : Bytes)
    → IsSorted some table
    → get_elem? table i ≡ some e
    → bin_search_ctypes e table ≡ found i
bin_search_ctypes_own table i e sorted h =
    answer_own some table sorted i e (bin_search_ctypes e table) (e, h, refl)
      (bin_search_ctypes-IsAnswer table sorted e)

pub bin_search_ctypes_missing :
    (table : List Bytes) (e : Bytes)
    → IsSorted some table
    → ((i : ℕ) → get_elem? table i ≢ some e)
    → bin_search_ctypes e table ≡ absent
bin_search_ctypes_missing table e sorted h =
    answer_missing some table e (bin_search_ctypes e table) (λ i (e', q, r). h i cc)
      (bin_search_ctypes-IsAnswer table sorted e)

pub be_map_bin_search_own :
    (table : List Bytes) (i : ℕ) (name : Bytes)
    → HasNames map_key table
    → IsSorted map_key table
    → IsNamed map_key table i name
    → be_map_bin_search name table ≡ found i
be_map_bin_search_own table i name named sorted h =
    answer_own map_key table sorted i name (be_map_bin_search name table) h
      (be_map_bin_search-IsAnswer table named sorted name)

pub be_map_bin_search_missing :
    (table : List Bytes) (name : Bytes)
    → HasNames map_key table
    → IsSorted map_key table
    → ((i : ℕ) → ¬ (IsNamed map_key table i name))
    → be_map_bin_search name table ≡ absent
be_map_bin_search_missing table name named sorted h =
    answer_missing map_key table name (be_map_bin_search name table) h
      (be_map_bin_search-IsAnswer table named sorted name)
