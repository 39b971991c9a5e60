-- ===== src/Callbacks/History.antt =====
-- What the module `cb` holds after any sequence of calls, from C and from Berry code.
use esp32_berry_lang.Base.{
  ℕ, ◌<◌, Bool, true, false, List, [], ◌∷◌, ◌++◌, append-nil, append_assoc, length, ◌≡◌, refl, ◌∙◌,
  arith, Bool-cases, ltb-cases, inl, inr, ◌&&◌,
}
use mathlib.Core.List.{Memᴰ}
use esp32_berry_lang.Callbacks.{
  Value, nil, native, closure, other_value, gen_cb_func, comptr, Callbacks, be_isfunction, gc_fix,
  add_handler, gen_cb,
}
use esp32_berry_lang.Callbacks.Slots.{
  gc_fix-hooks, AreSlots, Slots-length, gen_cb_free, gen_cb_full, gen_cb-AreSlots,
}
use esp32_berry_lang.Callbacks.Handlers.{gc_fix-handlers, AreHandlers}

-- A value that the module holds is marked against collection, if it is a collected object.
abbrev pub IsKept : List ℕ → Value → Type 0
IsKept fixed (closure n) = Memᴰ n fixed
IsKept fixed _ = Unit

abbrev pub AreKept : List ℕ → List (ℕ × Value) → Type 0
AreKept fixed [] = Unit
AreKept fixed ((owner, v) ∷ cs) = IsKept fixed v × AreKept fixed cs

-- The slots hold these functions, the handlers are these, newest first, before the default one, and
-- none of them can be collected.
pub record IsSound (cs hs : List (ℕ × Value)) (cb : Callbacks) : Type 0 where
  pub slots : AreSlots cs cb
  pub handlers : AreHandlers hs cb
  pub slots_kept : AreKept cb.fixed cs
  pub handlers_kept : AreKept cb.fixed hs

-- What changes the module's globals, all of them static: a call of one of its native functions in
-- any machine, and the calls of Berry code in them, which can only make such calls.
pub data Step (cb : Callbacks) : Callbacks → Type 0 where
  generates : (vm : ℕ) (args : List Value) → Step cb (gen_cb vm args cb).1
  adds : (malloc : Bool) (vm : ℕ) (args : List Value) → Step cb (add_handler malloc vm args cb).1

pub data Reach (cb : Callbacks) : Callbacks → Type 0 where
  here : Reach cb cb
  next : {mid after : Callbacks} → Reach cb mid → Step mid after → Reach cb after

pub Reach-trans : {a b c : Callbacks} → Reach a b → Reach b c → Reach a c
Reach-trans r here = r
Reach-trans r (next q s) = next (Reach-trans r q) s

IsKept-cons : (n : ℕ) (fixed : List ℕ) (v : Value) → IsKept fixed v → IsKept (n ∷ fixed) v
IsKept-cons n fixed (closure m) h = Memᴰ.tail h
IsKept-cons n fixed nil h = tt
IsKept-cons n fixed gen_cb_func h = tt
IsKept-cons n fixed (native m) h = tt
IsKept-cons n fixed (comptr p) h = tt
IsKept-cons n fixed (other_value m) h = tt

AreKept-cons :
    (n : ℕ) (fixed : List ℕ) (cs : List (ℕ × Value)) → AreKept fixed cs → AreKept (n ∷ fixed) cs
AreKept-cons n fixed [] h = tt
AreKept-cons n fixed ((owner, v) ∷ cs) h = (IsKept-cons n fixed v h.0, AreKept-cons n fixed cs h.1)

gc_fix-AreKept :
    (v : Value) (cb : Callbacks) (cs : List (ℕ × Value))
    → AreKept cb.fixed cs
    → AreKept (gc_fix v cb).fixed cs
unfolding gc_fix
gc_fix-AreKept (closure n) cb cs h = AreKept-cons n cb.fixed cs h
gc_fix-AreKept nil cb cs h = h
gc_fix-AreKept gen_cb_func cb cs h = h
gc_fix-AreKept (native n) cb cs h = h
gc_fix-AreKept (comptr p) cb cs h = h
gc_fix-AreKept (other_value n) cb cs h = h

gc_fix-IsKept : (v : Value) (cb : Callbacks) → IsKept (gc_fix v cb).fixed v
unfolding gc_fix
gc_fix-IsKept (closure n) cb = Memᴰ.head refl
gc_fix-IsKept nil cb = tt
gc_fix-IsKept gen_cb_func cb = tt
gc_fix-IsKept (native n) cb = tt
gc_fix-IsKept (comptr p) cb = tt
gc_fix-IsKept (other_value n) cb = tt

AreKept-append :
    (fixed : List ℕ) (cs ds : List (ℕ × Value))
    → AreKept fixed cs
    → AreKept fixed ds
    → AreKept fixed (cs ++ ds)
AreKept-append fixed [] ds h k = k
AreKept-append fixed (c ∷ cs) ds h k = (h.0, AreKept-append fixed cs ds h.1 k)

-- Behind the functions there were and before the handlers there were, the module holds more.
pub record Grown (cs hs : List (ℕ × Value)) (cb : Callbacks) : Type 0 where
  pub more_slots : List (ℕ × Value)
  pub more_handlers : List (ℕ × Value)
  pub sound : IsSound (cs ++ more_slots) (more_handlers ++ hs) cb

IsSound-Grown : (cs hs : List (ℕ × Value)) (cb : Callbacks) → IsSound cs hs cb → Grown cs hs cb
IsSound-Grown cs hs cb s = record {
  more_slots = [];
  more_handlers = [];
  sound = rw (append-nil cs) s;
}

gen_cb_added :
    (cs hs : List (ℕ × Value)) (vm : ℕ) (v : Value) (rest : List Value) (cb : Callbacks)
    → IsSound cs hs cb
    → be_isfunction v ≡ true
    → length cs < 20
    → IsSound (cs ++ ((vm, v) ∷ [])) hs (gen_cb vm (v ∷ rest) cb).1
gen_cb_added cs hs vm v rest cb s h free =
    let (o, slots) = gen_cb-AreSlots vm v rest cb s.slots h free in
    let e = gen_cb_free vm v rest cb s.slots h free in
    record {
      slots = slots;
      handlers = rw e (gc_fix-handlers v cb ∙ s.handlers);
      slots_kept = rw e (
          AreKept-append (gc_fix v cb).fixed cs ((vm, v) ∷ []) (gc_fix-AreKept v cb cs s.slots_kept)
            (gc_fix-IsKept v cb, tt));
      handlers_kept = rw e (gc_fix-AreKept v cb hs s.handlers_kept);
    }

gen_cb_refused :
    (vm : ℕ) (v : Value) (rest : List Value) (cb : Callbacks)
    → be_isfunction v ≡ false
    → (gen_cb vm (v ∷ rest) cb).1 ≡ cb
unfolding gen_cb
gen_cb_refused vm v rest cb h = simp h

gen_cb_nothing : (vm : ℕ) (cb : Callbacks) → (gen_cb vm [] cb).1 ≡ cb
unfolding gen_cb
gen_cb_nothing vm cb = refl

gen_cb-Grown :
    (cs hs : List (ℕ × Value)) (vm : ℕ) (args : List Value) (cb : Callbacks)
    → IsSound cs hs cb
    → Grown cs hs (gen_cb vm args cb).1
gen_cb-Grown cs hs vm [] cb s = rw (gen_cb_nothing vm cb) (IsSound-Grown cs hs cb s)
gen_cb-Grown cs hs vm (v ∷ rest) cb s = elim (Bool-cases (be_isfunction v)) [
  | inr f ↦ rw (gen_cb_refused vm v rest cb f) (IsSound-Grown cs hs cb s)
  | inl t ↦ elim (ltb-cases (length cs) 20) [
    | inl free ↦ record {
      more_slots = (vm, v) ∷ [];
      more_handlers = [];
      sound = gen_cb_added cs hs vm v rest cb s t free;
    }
    | inr full ↦
        rw
          (gen_cb_full vm v rest cb s.slots t
            (omega (arith, full, Slots-length s.slots.0, s.slots.1)))
          (IsSound-Grown cs hs cb s)
  ]
]

add_handler_added :
    (cs hs : List (ℕ × Value)) (vm : ℕ) (v : Value) (rest : List Value) (cb : Callbacks)
    → IsSound cs hs cb
    → be_isfunction v ≡ true
    → IsSound cs ((vm, v) ∷ hs) (add_handler true vm (v ∷ rest) cb).1
unfolding add_handler
add_handler_added cs hs vm v rest cb s h = rw h (record {
  slots = rw (gc_fix-hooks v cb) s.slots;
  handlers = simp (gc_fix-handlers v cb, s.handlers);
  slots_kept = gc_fix-AreKept v cb cs s.slots_kept;
  handlers_kept = (gc_fix-IsKept v cb, gc_fix-AreKept v cb hs s.handlers_kept);
})

add_handler_refused :
    (malloc : Bool) (vm : ℕ) (v : Value) (rest : List Value) (cb : Callbacks)
    → be_isfunction v && malloc ≡ false
    → (add_handler malloc vm (v ∷ rest) cb).1 ≡ cb
unfolding add_handler
add_handler_refused malloc vm v rest cb h = ground arith

add_handler_nothing :
    (malloc : Bool) (vm : ℕ) (cb : Callbacks) → (add_handler malloc vm [] cb).1 ≡ cb
unfolding add_handler
add_handler_nothing malloc vm cb = refl

add_handler-Grown :
    (cs hs : List (ℕ × Value)) (malloc : Bool) (vm : ℕ) (args : List Value) (cb : Callbacks)
    → IsSound cs hs cb
    → Grown cs hs (add_handler malloc vm args cb).1
add_handler-Grown cs hs malloc vm [] cb s =
    rw (add_handler_nothing malloc vm cb) (IsSound-Grown cs hs cb s)
add_handler-Grown cs hs false vm (v ∷ rest) cb s =
    rw (add_handler_refused false vm v rest cb (ground arith)) (IsSound-Grown cs hs cb s)
add_handler-Grown cs hs true vm (v ∷ rest) cb s = elim (Bool-cases (be_isfunction v)) [
  | inr f ↦ rw (add_handler_refused true vm v rest cb (simp f)) (IsSound-Grown cs hs cb s)
  | inl t ↦ record {
    more_slots = [];
    more_handlers = (vm, v) ∷ [];
    sound = rw (append-nil cs) (add_handler_added cs hs vm v rest cb s t);
  }
]

-- Growing twice is growing.
Grown-Grown :
    (cs hs : List (ℕ × Value)) {cb after : Callbacks}
    → (g : Grown cs hs cb) → Grown (cs ++ g.more_slots) (g.more_handlers ++ hs) after
    → Grown cs hs after
Grown-Grown cs hs g k = record {
  more_slots = g.more_slots ++ k.more_slots;
  more_handlers = k.more_handlers ++ g.more_handlers;
  sound =
      rw
        (
          ← append_assoc cs g.more_slots k.more_slots,
          append_assoc k.more_handlers g.more_handlers hs,
        )
        k.sound;
}

Step-Grown :
    (cs hs : List (ℕ × Value)) {cb after : Callbacks}
    → IsSound cs hs cb
    → Step cb after
    → Grown cs hs after
Step-Grown cs hs {cb} s (generates vm args) = gen_cb-Grown cs hs vm args cb s
Step-Grown cs hs {cb} s (adds malloc vm args) = add_handler-Grown cs hs malloc vm args cb s

pub Reach-Grown :
    (cs hs : List (ℕ × Value)) {cb after : Callbacks}
    → IsSound cs hs cb
    → Reach cb after
    → Grown cs hs after
Reach-Grown cs hs {cb} s here = IsSound-Grown cs hs cb s
Reach-Grown cs hs s (next r st) =
    let g = Reach-Grown cs hs s r in Grown-Grown cs hs g (Step-Grown _ _ g.sound st)
