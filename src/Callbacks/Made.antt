-- ===== src/Callbacks/Made.antt =====
-- `be_cb_make_cb` for a closure that no handler of its machine takes: what it returns, and how the
-- callback slots, the handlers and the marks against collection stand then.
use esp32_berry_lang.Base.{
  ℕ, ◌<◌, true, some, List, [], ◌∷◌, ◌++◌, length, get_elem?-append_last, ◌≡◌, refl, ap, ◌∙◌,
}
use esp32_berry_lang.Base.Int.{ℤ, pos}
use esp32_berry_lang.Callbacks.{
  Value, closure, comptr, berry_cb, Callbacks, returns, Berry, be_isfunction, gc_fix, gen_cb,
  make_cb, answered, call_hook, call_berry_cb,
}
use esp32_berry_lang.Callbacks.Slots.{
  AreSlots, gen_cb_free, gen_cb-AreSlots, call_berry_cb-get_elem?,
}
use esp32_berry_lang.Callbacks.Handlers.{AreHandlers, Declined, make_cb-gen_cb}

closure-be_isfunction : (n : ℕ) → be_isfunction (closure n) ≡ true
unfolding be_isfunction
closure-be_isfunction n = refl

pub call_hook_closure :
    (b : Berry) (vm : ℕ) (v : Value) (args : List ℤ) (cb : Callbacks)
    → call_hook b (some (vm, v)) args cb ≡ answered b (b.be_pcall vm v args cb)
unfolding call_hook
call_hook_closure b vm v args cb = refl

last-call_berry_cb :
    (cs : List (ℕ × Value)) (b : Berry) (vm : ℕ) (v : Value) (v0 v1 v2 v3 : ℤ) (cb : Callbacks)
    → AreSlots (cs ++ ((vm, v) ∷ [])) cb
    → call_berry_cb b (pos (length cs)) v0 v1 v2 v3 cb
      ≡ answered b (b.be_pcall vm v (v0 ∷ v1 ∷ v2 ∷ v3 ∷ []) cb)
last-call_berry_cb cs b vm v v0 v1 v2 v3 cb s = simp (
  call_berry_cb-get_elem? b (length cs) v0 v1 v2 v3 cb s,
  get_elem?-append_last cs (vm, v),
  call_hook_closure b vm v (v0 ∷ v1 ∷ v2 ∷ v3 ∷ []) cb,
)

gen_cb-fixed :
    {cs : List (ℕ × Value)} (vm n : ℕ) (rest : List Value) (cb : Callbacks)
    → AreSlots cs cb
    → length cs < 20
    → (gen_cb vm (closure n ∷ rest) cb).1.fixed ≡ n ∷ cb.fixed
unfolding gc_fix
gen_cb-fixed vm n rest cb s free =
    rw (gen_cb_free vm (closure n) rest cb s (closure-be_isfunction n) free) refl

gen_cb-handlers :
    {cs : List (ℕ × Value)} (vm n : ℕ) (rest : List Value) (cb : Callbacks)
    → AreSlots cs cb
    → length cs < 20
    → (gen_cb vm (closure n ∷ rest) cb).1.handlers ≡ cb.handlers
unfolding gc_fix
gen_cb-handlers vm n rest cb s free =
    rw (gen_cb_free vm (closure n) rest cb s (closure-be_isfunction n) free) refl

pub make_cb-closure :
    {cs hs : List (ℕ × Value)} (b : Berry) (vm n : ℕ) (rest : List Value) (cb : Callbacks)
    → AreHandlers hs cb
    → Declined b vm (closure n ∷ rest) cb hs
    → AreSlots cs cb
    → length cs < 20
    → (after : Callbacks) × (make_cb b vm (closure n ∷ rest) cb
        ≡ (returns (comptr (berry_cb (length cs))), after))
      × AreSlots (cs ++ ((vm, closure n) ∷ [])) after
      × (after.fixed ≡ n ∷ cb.fixed)
      × AreHandlers hs after
      × ((v0 v1 v2 v3 : ℤ)
          → call_berry_cb b (pos (length cs)) v0 v1 v2 v3 after
            ≡ answered b (b.be_pcall vm (closure n) (v0 ∷ v1 ∷ v2 ∷ v3 ∷ []) after))
make_cb-closure {cs} {hs} b vm n rest cb h d s free =
    let after = (gen_cb vm (closure n ∷ rest) cb).1 in
    let (o, slots) = gen_cb-AreSlots vm (closure n) rest cb s (closure-be_isfunction n) free in
    (
      after,
      make_cb-gen_cb b vm (closure n) rest cb h (closure-be_isfunction n) d
          ∙ ap (λ w. (w, after)) o,
      slots,
      gen_cb-fixed vm n rest cb s free,
      gen_cb-handlers vm n rest cb s free ∙ h,
      λ v0 v1 v2 v3. last-call_berry_cb cs b vm (closure n) v0 v1 v2 v3 after slots,
    )
