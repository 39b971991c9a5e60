-- ===== src/Ctypes/Lookup.antt =====
-- The search for a member in a structure whose names are sorted.
use esp32_berry_lang.Base.{
  ℕ, zero, suc, Bytes, List, [], ◌∷◌, some, none, map, get_elem?, ◌≡◌, ◌≢◌, ap, ◌∙◌, arith,
}
use esp32_berry_lang.BinSearch.Answer.{IsSorted}
use esp32_berry_lang.BinSearch.Own.{bin_search_ctypes_own, bin_search_ctypes_missing}
use esp32_berry_lang.Ctypes.{Item, Structure, at_index, lookup}

abbrev pub names : Structure → List Bytes
names def = map (λ item. item.name) def.items

get_elem?-names :
    (items : List Item) (i : ℕ) (item : Item)
    → get_elem? items i ≡ some item
    → get_elem? (map (λ item. item.name) items) i ≡ some item.name
get_elem?-names [] i item h = ground arith
get_elem?-names (x ∷ items) zero item h = cc
get_elem?-names (x ∷ items) (suc i) item h = get_elem?-names items i item h

pub lookup_own :
    (def : Structure) (i : ℕ) (item : Item)
    → IsSorted some (names def)
    → get_elem? def.items i ≡ some item
    → lookup item.name def ≡ some item
unfolding lookup at_index
lookup_own def i item sorted h =
    ap (at_index def.items)
      (bin_search_ctypes_own (names def) i item.name sorted (get_elem?-names def.items i item h))
    ∙ h

pub lookup_missing :
    (def : Structure) (name : Bytes)
    → IsSorted some (names def)
    → ((i : ℕ) → get_elem? (names def) i ≢ some name)
    → lookup name def ≡ none
unfolding lookup at_index
lookup_missing def name sorted h =
    ap (at_index def.items) (bin_search_ctypes_missing (names def) name sorted h)
