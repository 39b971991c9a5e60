-- ===== src/BinSearch/Answer.antt =====
-- What the binary searches answer on a sorted table.
use esp32_berry_lang.Base.{
  ℕ, zero, suc, ◌+◌, ◌-◌, ◌/◌, ◌<◌, ◌≤◌, Ordering, Bytes, List, Option, some, length, get_elem?,
  get_elem?-in, get_elem?-out, ltb-cases, ◌≡◌, refl, arith, inl, inr,
}
use esp32_berry_lang.BinSearch.{
  strcmp, map_key, Search, found, absent, fault, out_of_fuel, bisect, be_map_bin_search,
  bin_search_ctypes,
}
use esp32_berry_lang.BinSearch.Order.{strcmp_refl, strcmp_eq, strcmp_flip, Ordering-cases}

module _ (key : Bytes → Option Bytes) (table : List Bytes) where
  -- Element `i` is compared by the name `name`.
  abbrev pub IsNamed : ℕ → Bytes → Type 0
  IsNamed i name = (e : Bytes) × (get_elem? table i ≡ some e) × (key e ≡ some name)

  abbrev pub HasNames : Type 0
  HasNames = (i : ℕ) → i < length table → (name : Bytes) × IsNamed i name

  abbrev pub IsSorted : Type 0
  IsSorted = (i j : ℕ) (m n : Bytes) → i < j → IsNamed i m → IsNamed j n → strcmp m n ≡ Ordering.lt

  -- An index is that of the needle, -1 says that the needle is not there, and nothing else happens.
  unfoldable pub IsAnswer : Bytes → Search → Type 0
  IsAnswer needle (found i) = IsNamed i needle
  IsAnswer needle absent = (i : ℕ) → ¬ (IsNamed i needle)
  IsAnswer needle fault = ⊥
  IsAnswer needle out_of_fuel = ⊥

  -- The next round, by the comparison of this one.
  abbrev next : ℕ → Bytes → ℕ → ℕ → ℕ → Ordering → Search
  next fuel needle low mid end Ordering.lt = bisect key fuel needle table low mid
  next fuel needle low mid end Ordering.gt = bisect key fuel needle table (mid + 1) end
  next fuel needle low mid end Ordering.eq = found mid

  bisect_end :
      (fuel : ℕ) (needle : Bytes) (low end : ℕ)
      → end ≤ low
      → bisect key (suc fuel) needle table low end ≡ absent
  unfolding bisect
  bisect_end fuel needle low end h = ground arith

  bisect_round :
      (fuel : ℕ) (needle : Bytes) (low end : ℕ) (name : Bytes)
      → low < end
      → IsNamed ((low + end - 1) / 2) name
      → bisect key (suc fuel) needle table low end
        ≡ next fuel needle low ((low + end - 1) / 2) end (strcmp needle name)
  unfolding bisect
  bisect_round fuel needle low end name h (e, he, hk) = elim (Ordering-cases (strcmp needle name)) [
    | inl l ↦ ground (arith, he, hk, l)
    | inr (inl q) ↦ ground (arith, he, hk, q)
    | inr (inr g) ↦ ground (arith, he, hk, g)
  ]

  IsNamed-same : (i j : ℕ) (m n : Bytes) → i ≡ j → IsNamed i m → IsNamed j n → m ≡ n
  IsNamed-same i j m n q (e, he, hk) (e', he', hk') = cc

  module _ (names : HasNames) (sorted : IsSorted) (needle : Bytes) where
    not_above :
        {mid i : ℕ} {name : Bytes}
        → IsNamed mid name
        → strcmp needle name ≡ Ordering.lt
        → mid ≤ i
        → ¬ (IsNamed i needle)
    not_above {mid} {i} {name} at_mid less h at_i = elim (ltb-cases mid i) [
      | inl lt ↦
          let gt = strcmp_flip name needle (sorted mid i name needle lt at_mid at_i) in ground arith
      | inr ge ↦
          let same = IsNamed-same mid i name needle (omega (arith, h, ge)) at_mid at_i in
          let equal = strcmp_refl needle in ground arith
    ]

    not_below :
        {mid i : ℕ} {name : Bytes}
        → IsNamed mid name
        → strcmp needle name ≡ Ordering.gt
        → i ≤ mid
        → ¬ (IsNamed i needle)
    not_below {mid} {i} {name} at_mid more h at_i = elim (ltb-cases i mid) [
      | inl lt ↦ let less = sorted i mid needle name lt at_i at_mid in ground arith
      | inr ge ↦
          let same = IsNamed-same mid i name needle (omega (arith, h, ge)) at_mid at_i in
          let equal = strcmp_refl needle in ground arith
    ]

    bisect-IsAnswer :
        (fuel low end : ℕ)
        → end < low + fuel
        → low ≤ end
        → end ≤ length table
        → ((i : ℕ) → i < low → ¬ (IsNamed i needle))
        → ((i : ℕ) → end ≤ i → ¬ (IsNamed i needle))
        → IsAnswer needle (bisect key fuel needle table low end)
    unfolding IsAnswer
    bisect-IsAnswer zero low end f le r below above = absurd (omega arith)
    bisect-IsAnswer (suc fuel) low end f le r below above = elim (ltb-cases low end) [
      | inr ge ↦ rw (bisect_end fuel needle low end ge) (λ i at_i. elim (ltb-cases i low) [
        | inl lt ↦ below i lt at_i
        | inr out ↦ above i (omega (arith, out, ge)) at_i
      ])
      | inl lt ↦
          let mid = (low + end - 1) / 2 in
          let (name, at_mid) = names mid (omega (arith, lt, r)) in
          rw (bisect_round fuel needle low end name lt at_mid)
            (elim (Ordering-cases (strcmp needle name)) [
              | inl l ↦ rw l (
                  bisect-IsAnswer fuel low mid (omega arith) (omega arith) (omega arith) below
                    (λ i. not_above at_mid l))
              | inr (inl q) ↦ rw (q, strcmp_eq needle name q) at_mid
              | inr (inr g) ↦ rw g (
                  bisect-IsAnswer fuel (mid + 1) end (omega arith) (omega arith) r
                    (λ i h. not_below at_mid g (omega (arith, h))) above)
            ])
    ]

-- In a table whose elements are not empty and whose names, less a first character that is no letter,
-- are sorted, `be_map_bin_search` answers with the index of an element with the needle for its name,
-- or with -1 where there is none. It reads no element out of the table and returns.
pub be_map_bin_search-IsAnswer :
    (table : List Bytes)
    → HasNames map_key table
    → IsSorted map_key table
    → (needle : Bytes) → IsAnswer map_key table needle (be_map_bin_search needle table)
unfolding be_map_bin_search
be_map_bin_search-IsAnswer table names sorted needle =
    bisect-IsAnswer map_key table names sorted needle (suc (length table)) 0 (length table)
      (omega arith) (omega arith) (omega arith) (λ i h. absurd (omega (arith, h)))
      (λ i h (e, he, hk). absurd (get_elem?-out table i e h he))

-- In a sorted table `bin_search_ctypes` answers with the index of the needle, or with -1 where it is
-- not there. It reads no element out of the table and returns.
pub bin_search_ctypes-IsAnswer :
    (table : List Bytes)
    → IsSorted some table
    → (needle : Bytes) → IsAnswer some table needle (bin_search_ctypes needle table)
unfolding bin_search_ctypes
bin_search_ctypes-IsAnswer table sorted needle =
    bisect-IsAnswer some table (λ i h. let (e, q) = get_elem?-in table i h in (e, (e, q, refl)))
      sorted needle (suc (length table)) 0 (length table) (omega arith) (omega arith) (omega arith)
      (λ i h. absurd (omega (arith, h))) (λ i h (e, he, hk). absurd (get_elem?-out table i e h he))
