-- ===== src/Callbacks/Slots.antt =====
-- The callback slots as a list that only grows: `be_cb_gen_cb`, `be_cb_get_cb_list` and
-- `call_berry_cb`.
use esp32_berry_lang.Base.{
  ℕ, zero, suc, ◌≤◌, ◌<◌, ◌==◌, lt→ltb, le→ltb_false, true, false, List, [], ◌∷◌, ◌++◌, codes, some,
  set, get_elem?, replicate, length, length-set, if◌then◌else◌, ◌≡◌, refl, ◌∙◌, arith,
}
use esp32_berry_lang.Base.Int.{ℤ, pos}
use esp32_berry_lang.Callbacks.{
  Value, comptr, berry_cb, Hook, Callbacks, returns, raises, Berry, empty_hook, initial,
  be_isfunction, gc_fix, is_nil, free_slot, gen_cb, listed, get_cb_list, hook_of, call_hook,
  call_berry_cb,
}

-- The slots hold these functions of these machines, in order, and behind them none.
pub data Slots : List (ℕ × Value) → List Hook → Type 0 where
  free : (n : ℕ) → Slots [] (replicate n empty_hook)
  used :
      (owner : ℕ) (v : Value) {cs : List (ℕ × Value)} {hooks : List Hook}
      → is_nil v ≡ false
      → Slots cs hooks
      → Slots ((owner, v) ∷ cs) (record { vm = some owner; f = v } ∷ hooks)

-- The functions of one machine, in order.
unfoldable pub owned : ℕ → List (ℕ × Value) → List Value
owned vm [] = []
owned vm ((owner, v) ∷ cs) = let rest = owned vm cs in if owner == vm then v ∷ rest else rest

free_slot-length :
    {cs : List (ℕ × Value)} {hooks : List Hook} → Slots cs hooks → free_slot hooks ≡ length cs
unfolding free_slot is_nil
free_slot-length (free zero) = refl
free_slot-length (free (suc n)) = refl
free_slot-length (used owner v h s) = simp (h, free_slot-length s)

pub Slots-length :
    {cs : List (ℕ × Value)} {hooks : List Hook} → Slots cs hooks → length cs ≤ length hooks
Slots-length (free n) = omega arith
Slots-length (used owner v h s) = omega (arith, Slots-length s)

Slots-set :
    {cs : List (ℕ × Value)} {hooks : List Hook} (owner : ℕ) (v : Value)
    → is_nil v ≡ false
    → length cs < length hooks
    → Slots cs hooks
    → Slots (cs ++ ((owner, v) ∷ [])) (set hooks (length cs) (record { vm = some owner; f = v }))
Slots-set owner v h l (free zero) = absurd (omega (arith, l))
Slots-set owner v h l (free (suc n)) = used owner v h (free n)
Slots-set owner v h l (used o w q s) = used o w q (Slots-set owner v h (omega arith) s)

listed-owned :
    {cs : List (ℕ × Value)} {hooks : List Hook} (vm : ℕ)
    → Slots cs hooks
    → listed vm hooks ≡ owned vm cs
unfolding listed owned
listed-owned vm (free zero) = refl
listed-owned vm (free (suc n)) = refl
listed-owned vm (used owner v h s) = simp (listed-owned vm s)

hook_of-get_elem? :
    {cs : List (ℕ × Value)} {hooks : List Hook} (n : ℕ)
    → Slots cs hooks
    → hook_of (pos n) hooks ≡ get_elem? cs n
unfolding hook_of
hook_of-get_elem? zero (free zero) = refl
hook_of-get_elem? zero (free (suc k)) = refl
hook_of-get_elem? (suc n) (free zero) = refl
hook_of-get_elem? (suc n) (free (suc k)) = hook_of-get_elem? n (free k)
hook_of-get_elem? zero (used owner v h s) = refl
hook_of-get_elem? (suc n) (used owner v h s) = hook_of-get_elem? n s

is_nil-be_isfunction : (v : Value) → be_isfunction v ≡ true → is_nil v ≡ false
unfolding be_isfunction is_nil
is_nil-be_isfunction v h = ground arith

-- The twenty slots hold the functions `cs`.
abbrev pub AreSlots : List (ℕ × Value) → Callbacks → Type 0
AreSlots cs cb = Slots cs cb.be_cb_hooks × (length cb.be_cb_hooks ≡ 20)

pub initial-AreSlots : AreSlots [] initial
initial-AreSlots = (free 20, refl)

pub gc_fix-hooks : (v : Value) (cb : Callbacks) → (gc_fix v cb).be_cb_hooks ≡ cb.be_cb_hooks
unfolding gc_fix
gc_fix-hooks v cb = ground arith

pub gen_cb_free :
    {cs : List (ℕ × Value)} (vm : ℕ) (v : Value) (rest : List Value) (cb : Callbacks)
    → AreSlots cs cb
    → be_isfunction v ≡ true
    → length cs < 20
    → gen_cb vm (v ∷ rest) cb ≡ (
      returns (comptr (berry_cb (length cs))),
      record (gc_fix v cb) {
        be_cb_hooks = set cb.be_cb_hooks (length cs) (record { vm = some vm; f = v });
      },
    )
unfolding gen_cb
gen_cb_free {cs} vm v rest cb (s, l) h r =
    simp (h, free_slot-length s, lt→ltb (length cs) 20 r, gc_fix-hooks v cb)

-- Let the slots hold some functions and fewer than twenty. Given a function, `be_cb_gen_cb` returns
-- the C function of the slot behind the last one used, and the slots then hold the same functions in
-- the same order and the new one, with the machine it belongs to, behind them.
pub gen_cb-AreSlots :
    {cs : List (ℕ × Value)} (vm : ℕ) (v : Value) (rest : List Value) (cb : Callbacks)
    → AreSlots cs cb
    → be_isfunction v ≡ true
    → length cs < 20
    → let (o, cb') = gen_cb vm (v ∷ rest) cb in
      (o ≡ returns (comptr (berry_cb (length cs)))) × AreSlots (cs ++ ((vm, v) ∷ [])) cb'
gen_cb-AreSlots {cs} vm v rest cb (s, l) h r =
    let e = gen_cb_free vm v rest cb (s, l) h r in
    (
      rw e refl,
      rw e (
        Slots-set vm v (is_nil-be_isfunction v h) (omega arith) s,
        length-set cb.be_cb_hooks (length cs) (record { vm = some vm; f = v }) ∙ l,
      ),
    )

-- Once the slots hold twenty functions, `be_cb_gen_cb` raises `internal_error` for a function and
-- changes nothing.
pub gen_cb_full :
    {cs : List (ℕ × Value)} (vm : ℕ) (v : Value) (rest : List Value) (cb : Callbacks)
    → AreSlots cs cb
    → be_isfunction v ≡ true
    → length cs ≡ 20
    → gen_cb vm (v ∷ rest) cb ≡ (
      raises (codes "internal_error") (codes "no more callbacks available, increase BE_MAX_CB"),
      cb,
    )
unfolding gen_cb
gen_cb_full {cs} vm v rest cb (s, l) h r =
    simp (h, free_slot-length s, le→ltb_false (length cs) 20 (omega arith))

-- `be_cb_get_cb_list` lists the functions that the slots hold for the machine, in their order.
pub get_cb_list-owned :
    {cs : List (ℕ × Value)} (vm : ℕ) (cb : Callbacks)
    → AreSlots cs cb
    → get_cb_list vm cb ≡ owned vm cs
unfolding get_cb_list
get_cb_list-owned vm cb (s, l) = listed-owned vm s

-- The C function of a number behaves as the entry of that number in `cs` says.
pub call_berry_cb-get_elem? :
    {cs : List (ℕ × Value)} (b : Berry) (n : ℕ) (v0 v1 v2 v3 : ℤ) (cb : Callbacks)
    → AreSlots cs cb
    → call_berry_cb b (pos n) v0 v1 v2 v3 cb
      ≡ call_hook b (get_elem? cs n) (v0 ∷ v1 ∷ v2 ∷ v3 ∷ []) cb
unfolding call_berry_cb
call_berry_cb-get_elem? b n v0 v1 v2 v3 cb (s, l) = simp (hook_of-get_elem? n s)
