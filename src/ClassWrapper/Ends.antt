-- ===== src/ClassWrapper/Ends.antt =====
-- What holds of the result of a run, if it has one, and the order in which runs are put together.
use esp32_berry_lang.Base.{◌≡◌, refl}
use esp32_berry_lang.ClassWrapper.Machine.{Outcome, done, raised, fault, Run, after}

abbrev pub Ends : {M A : Type 0} → (A → Type 0) → Outcome M A → Type 0
Ends P (done a m) = P a
Ends P _ = Unit

pub Ends-mono :
    {M A : Type 0} {P Q : A → Type 0} (o : Outcome M A)
    → ((a : A) → P a → Q a)
    → Ends P o
    → Ends Q o
Ends-mono (done a m) h p = h a p
Ends-mono (raised e m) h p = tt
Ends-mono fault h p = tt

module _ {M A B : Type 0} where
  pub after-Ends :
      (Q : B → Type 0) (o : Outcome M A) (g : A → Run M B)
      → ((a : A) (m : M) → Ends Q (g a m))
      → Ends Q (after o g)
  after-Ends Q (done a m) g h = h a m
  after-Ends Q (raised e m) g h = tt
  after-Ends Q fault g h = tt

  -- The second run, knowing what holds after the first.
  pub after-Ends_from :
      (P : A → Type 0) (Q : B → Type 0) (o : Outcome M A) (g : A → Run M B)
      → Ends P o
      → ((a : A) (m : M) → P a → Ends Q (g a m))
      → Ends Q (after o g)
  after-Ends_from P Q (done a m) g p h = h a m p
  after-Ends_from P Q (raised e m) g p h = tt
  after-Ends_from P Q fault g p h = tt

pub after_assoc :
    {M A B C : Type 0} (o : Outcome M A) (f : A → Run M B) (g : B → Run M C)
    → after (after o f) g ≡ after o (λ a m. after (f a m) g)
after_assoc (done a m) f g = refl
after_assoc (raised e m) f g = refl
after_assoc fault f g = refl

pub after_congr :
    {M A B : Type 0} (o : Outcome M A) {f g : A → Run M B}
    → ((a : A) (m : M) → f a m ≡ g a m)
    → after o f ≡ after o g
after_congr (done a m) h = h a m
after_congr (raised e m) h = refl
after_congr fault h = refl
