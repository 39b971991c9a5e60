-- ===== src/BinSearch/Sorted.antt =====
-- A test on a table for what the binary searches rely on.
use esp32_berry_lang.Base.{
  ℕ, zero, suc, Ordering, Bool, true, false, ◌&&◌, Bytes, List, [], ◌∷◌, Option, none, some,
  get_elem?, ◌≡◌, refl, arith, Option-cases, inl, inr,
}
use esp32_berry_lang.BinSearch.{strcmp}
use esp32_berry_lang.BinSearch.Order.{Ordering-cases}
use esp32_berry_lang.BinSearch.Answer.{HasNames, IsSorted}

module _ (key : Bytes → Option Bytes) where
  unfoldable pub precedes : Option Bytes → Option Bytes → Bool
  precedes (some m) (some n) = elim (strcmp m n) [ Ordering.lt ↦ true | _ ↦ false ]
  precedes _ _ = false

  unfoldable pub before : Bytes → List Bytes → Bool
  before x [] = true
  before x (y ∷ ys) = precedes (key x) (key y) && before x ys

  abbrev pub has_name : Option Bytes → Bool
  has_name none = false
  has_name (some n) = true

  -- Each element has a name, and it precedes those of all later ones.
  unfoldable pub ascending : List Bytes → Bool
  ascending [] = true
  ascending (x ∷ xs) = has_name (key x) && before x xs && ascending xs

  before-precedes :
      (x : Bytes) (xs : List Bytes) (j : ℕ) (y : Bytes)
      → before x xs ≡ true
      → get_elem? xs j ≡ some y
      → precedes (key x) (key y) ≡ true
  unfolding before
  before-precedes x [] j y h q = ground arith
  before-precedes x (z ∷ zs) zero y h q = ground (arith)
  before-precedes x (z ∷ zs) (suc j) y h q = before-precedes x zs j y (ground arith) q

  precedes-lt :
      (a b : Option Bytes) (m n : Bytes)
      → precedes a b ≡ true
      → a ≡ some m
      → b ≡ some n
      → strcmp m n ≡ Ordering.lt
  unfolding precedes
  precedes-lt a b m n h qa qb = elim (Ordering-cases (strcmp m n)) [
    | inl l ↦ l
    | inr (inl e) ↦ ground (arith, e)
    | inr (inr g) ↦ ground (arith, g)
  ]

  pub ascending-HasNames : (table : List Bytes) → ascending table ≡ true → HasNames key table
  unfolding ascending
  ascending-HasNames [] h i r = absurd (omega arith)
  ascending-HasNames (x ∷ xs) h zero r = elim (Option-cases (key x)) [
    | inl unnamed ↦ ground arith
    | inr (n, q) ↦ (n, (x, refl, q))
  ]
  ascending-HasNames (x ∷ xs) h (suc i) r = ascending-HasNames xs (ground arith) i (omega arith)

  pub ascending-IsSorted : (table : List Bytes) → ascending table ≡ true → IsSorted key table
  unfolding ascending
  ascending-IsSorted [] h i j m n r (e, he, hk) at_j = ground arith
  ascending-IsSorted (x ∷ xs) h i zero m n r at_i at_j = absurd (omega arith)
  ascending-IsSorted (x ∷ xs) h zero (suc j) m n r (e, he, hk) (e', he', hk') =
      precedes-lt (key x) (key e') m n (before-precedes x xs j e' (ground arith) he') (cc) hk'
  ascending-IsSorted (x ∷ xs) h (suc i) (suc j) m n r at_i at_j =
      ascending-IsSorted xs (ground arith) i j m n (omega arith) at_i at_j
