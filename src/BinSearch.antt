-- ===== src/BinSearch.antt =====
-- The binary searches in tables of sorted names: `be_map_bin_search` of
-- components/berry/berry_mapping/src/be_mapping_utils.c and `bin_search_ctypes` of
-- components/berry/berry_ctypes/src/be_ctypes.c. A table is the list of the names its elements
-- begin with, each the bytes before its NUL. `high` of the source is `end - 1` here, which is -1
-- where `end` is 0; C rounds `(0 + -1) / 2` to 0, as `(0 - 1) / 2` on the numbers does.
pub mod Order
pub mod Own
pub mod Answer
pub mod Sorted
use esp32_berry_lang.Base.{
  ℕ, zero, suc, ◌+◌, ◌-◌, ◌/◌, Ordering, compare, Bool, true, false, not, ◌&&◌, Bytes, List, [],
  ◌∷◌, Option, none, some, length, get_elem?, ltb, leb, if◌then◌else◌,
}

-- `strcmp`
unfoldable pub strcmp : Bytes → Bytes → Ordering
strcmp [] [] = Ordering.eq
strcmp [] (y ∷ ys) = Ordering.lt
strcmp (x ∷ xs) [] = Ordering.gt
strcmp (x ∷ xs) (y ∷ ys) = elim (compare x y) [
  | Ordering.lt ↦ Ordering.lt
  | Ordering.eq ↦ strcmp xs ys
  | Ordering.gt ↦ Ordering.gt
]

abbrev pub is_letter : ℕ → Bool
is_letter c = not (not (leb 97 c && leb c 122) && not (leb 65 c && leb c 90))

-- The name to compare with. A first character that is no letter tells the type of the value and is
-- skipped; `none` is an empty element, whose NUL is skipped and what stands behind it is read.
unfoldable pub map_key : Bytes → Option Bytes
map_key [] = none
map_key (first_char ∷ elt) = if is_letter first_char then some (first_char ∷ elt) else some elt

-- The result: an index, -1, a read of what is not in the table, or not within the fuel.
pub data Search : Type 0 where
  found : ℕ → Search
  absent : Search
  fault : Search
  out_of_fuel : Search

-- The rounds of `while (low <= high)`, on fuel. `key` is what is compared of an element.
unfoldable pub bisect : (Bytes → Option Bytes) → ℕ → Bytes → List Bytes → ℕ → ℕ → Search
bisect key zero needle table low end = out_of_fuel
bisect key (suc fuel) needle table low end =
    let mid = (low + end - 1) / 2 in
    elim (ltb low end) [
      | false ↦ absent
      | true ↦ elim (get_elem? table mid) [
        | none ↦ fault
        | some elt ↦ elim (key elt) [
          | none ↦ fault
          | some name ↦ elim (strcmp needle name) [
            | Ordering.lt ↦ bisect key fuel needle table low mid
            | Ordering.gt ↦ bisect key fuel needle table (mid + 1) end
            | Ordering.eq ↦ found mid
          ]
        ]
      ]
    ]

-- `be_map_bin_search`: the interval shrinks in every round.
unfoldable pub be_map_bin_search : Bytes → List Bytes → Search
be_map_bin_search needle table = bisect map_key (suc (length table)) needle table 0 (length table)

-- `bin_search_ctypes`
unfoldable pub bin_search_ctypes : Bytes → List Bytes → Search
bin_search_ctypes needle table = bisect some (suc (length table)) needle table 0 (length table)
