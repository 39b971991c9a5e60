-- ===== src/Tests/BinSearch.antt =====
-- The binary searches in concrete tables.
use esp32_berry_lang.Base.{Bytes, List, [], ◌∷◌, some, true, codes, ◌≡◌, refl}
use esp32_berry_lang.BinSearch.{
  strcmp, map_key, found, absent, fault, bisect, be_map_bin_search, bin_search_ctypes,
}
use esp32_berry_lang.BinSearch.Answer.{IsAnswer, be_map_bin_search-IsAnswer}
use esp32_berry_lang.BinSearch.Sorted.{
  precedes, before, ascending, ascending-HasNames, ascending-IsSorted,
}

-- A table of constants: `/` marks one that is a function.
abbrev constants : List Bytes
constants = codes "/begin" ∷ codes "height" ∷ codes "/init" ∷ codes "width" ∷ []

abbrev fields : List Bytes
fields = codes "day" ∷ codes "hour" ∷ codes "min" ∷ codes "month" ∷ codes "sec" ∷ []

constants-ascending : ascending map_key constants ≡ true
unfolding ascending precedes before strcmp map_key
constants-ascending = refl

fields-ascending : ascending some fields ≡ true
unfolding ascending precedes before strcmp
fields-ascending = refl

search_init : be_map_bin_search (codes "init") constants ≡ found 2
unfolding be_map_bin_search bisect strcmp map_key
search_init = refl

search_missing : be_map_bin_search (codes "depth") constants ≡ absent
unfolding be_map_bin_search bisect strcmp map_key
search_missing = refl

search_empty_name : be_map_bin_search (codes "a") ([] ∷ []) ≡ fault
unfolding be_map_bin_search bisect strcmp map_key
search_empty_name = refl

search_month : bin_search_ctypes (codes "month") fields ≡ found 3
unfolding bin_search_ctypes bisect strcmp
search_month = refl

be_map_bin_search-IsAnswer_example :
    IsAnswer map_key constants (codes "width") (be_map_bin_search (codes "width") constants)
be_map_bin_search-IsAnswer_example =
    be_map_bin_search-IsAnswer constants (ascending-HasNames map_key constants constants-ascending)
      (ascending-IsSorted map_key constants constants-ascending) (codes "width")
