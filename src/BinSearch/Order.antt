-- ===== src/BinSearch/Order.antt =====
-- `strcmp` decides the equality of two strings and is antisymmetric.
use esp32_berry_lang.Base.{Ordering, Bytes, [], ◌∷◌, ◌≡◌, refl, arith, ◌⊎◌, inl, inr}
use esp32_berry_lang.BinSearch.{strcmp}

pub strcmp_refl : (a : Bytes) → strcmp a a ≡ Ordering.eq
unfolding strcmp
strcmp_refl [] = refl
strcmp_refl (x ∷ a) = ground (arith, strcmp_refl a)

pub strcmp_eq : (a b : Bytes) → strcmp a b ≡ Ordering.eq → a ≡ b
unfolding strcmp
strcmp_eq [] [] h = refl
strcmp_eq [] (y ∷ b) h = ground arith
strcmp_eq (x ∷ a) [] h = ground arith
strcmp_eq (x ∷ a) (y ∷ b) h = ground (arith, strcmp_eq a b)

pub strcmp_flip : (a b : Bytes) → strcmp a b ≡ Ordering.lt → strcmp b a ≡ Ordering.gt
unfolding strcmp
strcmp_flip [] [] h = ground arith
strcmp_flip [] (y ∷ b) h = refl
strcmp_flip (x ∷ a) [] h = ground arith
strcmp_flip (x ∷ a) (y ∷ b) h = ground (arith, strcmp_flip a b)

pub Ordering-cases : (o : Ordering) → (o ≡ Ordering.lt) ⊎ ((o ≡ Ordering.eq) ⊎ (o ≡ Ordering.gt))
Ordering-cases Ordering.lt = inl refl
Ordering-cases Ordering.eq = inr (inl refl)
Ordering-cases Ordering.gt = inr (inr refl)
