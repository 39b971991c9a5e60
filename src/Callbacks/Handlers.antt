-- ===== src/Callbacks/Handlers.antt =====
-- The handlers of `make_cb`: `be_cb_add_handler`, `be_cb_list_handlers` and `be_cb_make_cb`.
use esp32_berry_lang.Base.{
  ℕ, ltb, Bytes, ◌==◌, ==_refl, true, false, List, [], ◌∷◌, ◌++◌, none, some, map, if◌then◌else◌,
  ◌≡◌, ◌≢◌, refl, arith, Bool-cases, inl, inr,
}
use esp32_berry_lang.Callbacks.{
  Value, nil, native, closure, other_value, gen_cb_func, comptr, Pointer, Hook, Callbacks, Outcome,
  returns, raises, malloc_fail, Berry, be_max_cb, free_slot, be_isfunction, gc_fix, is_of,
  add_handler, shown, list_handlers, gen_cb, call_handler, handled, ask_handlers, make_cb,
}

abbrev pub handler : ℕ × Value → Hook
handler (owner, f) = record { vm = some owner; f = f }

abbrev pub default_handler : Hook
default_handler = record { vm = none; f = gen_cb_func }

-- The handlers stand before the default one: those that Berry code has added, newest first.
abbrev pub AreHandlers : List (ℕ × Value) → Callbacks → Type 0
AreHandlers hs cb = cb.handlers ≡ map handler hs ++ (default_handler ∷ [])

unfoldable pub of_vm : ℕ → List (ℕ × Value) → List Value
of_vm vm [] = []
of_vm vm ((owner, f) ∷ hs) = let rest = of_vm vm hs in if owner == vm then f ∷ rest else rest

shown-of_vm :
    (vm : ℕ) (hs : List (ℕ × Value))
    → shown vm (map handler hs ++ (default_handler ∷ [])) ≡ of_vm vm hs
unfolding shown of_vm is_of
shown-of_vm vm [] = refl
shown-of_vm vm (h ∷ hs) = simp (shown-of_vm vm hs)

-- `list_handlers` lists the functions that the machine has added, newest first, and not the default
-- handler.
list_handlers-of_vm :
    (hs : List (ℕ × Value)) (vm : ℕ) (cb : Callbacks)
    → AreHandlers hs cb
    → list_handlers vm cb ≡ of_vm vm hs
unfolding list_handlers
list_handlers-of_vm hs vm cb h = simp (h, shown-of_vm vm hs)

pub gc_fix-handlers : (v : Value) (cb : Callbacks) → (gc_fix v cb).handlers ≡ cb.handlers
unfolding gc_fix
gc_fix-handlers v cb = ground arith

-- With memory for it, `add_handler` puts a function before the handlers there are.
pub add_handler-AreHandlers :
    (hs : List (ℕ × Value)) (vm : ℕ) (v : Value) (rest : List Value) (cb : Callbacks)
    → AreHandlers hs cb
    → be_isfunction v ≡ true
    → let (o, cb') = add_handler true vm (v ∷ rest) cb in
      (o ≡ returns nil) × AreHandlers ((vm, v) ∷ hs) cb'
unfolding add_handler
add_handler-AreHandlers hs vm v rest cb h q = (simp q, simp (q, gc_fix-handlers v cb, h))

-- The handler declines: its call returns, with no C pointer, and leaves the state as it was.
abbrev pub Declines : Berry → ℕ → List Value → Callbacks → Value → Type 0
Declines b vm args cb f =
    (v : Value) × ((p : Pointer) → v ≢ comptr p) × (call_handler b vm f args cb ≡ (returns v, cb))

handled_declined :
    (ask : Callbacks → Outcome × Callbacks) (v : Value) (cb : Callbacks)
    → ((p : Pointer) → v ≢ comptr p)
    → handled ask (returns v, cb) ≡ ask cb
unfolding handled
handled_declined ask (comptr p) cb h = absurd (h p refl)
handled_declined ask nil cb h = refl
handled_declined ask gen_cb_func cb h = refl
handled_declined ask (native n) cb h = refl
handled_declined ask (closure n) cb h = refl
handled_declined ask (other_value n) cb h = refl

-- The outcome of a handler that ends `make_cb`: a C pointer or an error.
pub data IsFinal : Outcome → Type 0 where
  pointer : (p : Pointer) → IsFinal (returns (comptr p))
  error : (name text : Bytes) → IsFinal (raises name text)
  no_memory : IsFinal malloc_fail

handled-IsFinal :
    (ask : Callbacks → Outcome × Callbacks) {o : Outcome} (cb : Callbacks)
    → IsFinal o
    → handled ask (o, cb) ≡ (o, cb)
unfolding handled
handled-IsFinal ask cb (pointer p) = refl
handled-IsFinal ask cb (error name text) = refl
handled-IsFinal ask cb no_memory = refl

-- The handlers of other machines are not asked, and those of this one decline.
pub data Declined (b : Berry) (vm : ℕ) (args : List Value) (cb : Callbacks)
    : List (ℕ × Value) → Type 0 where
  nobody : Declined b vm args cb []
  skipped :
      (owner : ℕ) (f : Value) {hs : List (ℕ × Value)}
      → (owner == vm) ≡ false
      → Declined b vm args cb hs
      → Declined b vm args cb ((owner, f) ∷ hs)
  asked :
      (f : Value) {hs : List (ℕ × Value)}
      → Declines b vm args cb f
      → Declined b vm args cb hs
      → Declined b vm args cb ((vm, f) ∷ hs)

ask_handlers-Declined :
    (b : Berry) (vm : ℕ) (args : List Value) (cb : Callbacks) {hs : List (ℕ × Value)}
    (more : List Hook)
    → Declined b vm args cb hs
    → ask_handlers b vm args (map handler hs ++ more) cb ≡ ask_handlers b vm args more cb
unfolding ask_handlers is_of
ask_handlers-Declined b vm args cb more nobody = refl
ask_handlers-Declined b vm args cb more (skipped owner f q d) =
    simp (q, ask_handlers-Declined b vm args cb more d)
ask_handlers-Declined b vm args cb {hs} more (asked f {hs = rest} (v, other, e) d) = simp (
  ==_refl vm,
  e,
  handled_declined (ask_handlers b vm args (map handler rest ++ more)) v cb other,
  ask_handlers-Declined b vm args cb more d,
)

gen_cb-IsFinal :
    (vm : ℕ) (v : Value) (rest : List Value) (cb : Callbacks)
    → be_isfunction v ≡ true
    → let (o, cb') = gen_cb vm (v ∷ rest) cb in IsFinal o
unfolding gen_cb
gen_cb-IsFinal vm v rest cb h = elim (Bool-cases (ltb (free_slot cb.be_cb_hooks) be_max_cb)) [
  | inl t ↦ rw (h, t) (pointer _)
  | inr f ↦ rw (h, f) (error _ _)
]

ask_default :
    (b : Berry) (vm : ℕ) (args : List Value) (cb : Callbacks)
    → ask_handlers b vm args (default_handler ∷ []) cb
      ≡ handled (ask_handlers b vm args []) (gen_cb vm args cb)
unfolding ask_handlers is_of call_handler
ask_default b vm args cb = refl

ask_handlers-own :
    (b : Berry) (vm : ℕ) (f : Value) (args : List Value) (more : List Hook) (cb : Callbacks)
    (o : Outcome) (after : Callbacks)
    → call_handler b vm f args cb ≡ (o, after)
    → IsFinal o
    → ask_handlers b vm args (handler (vm, f) ∷ more) cb ≡ (o, after)
unfolding ask_handlers is_of
ask_handlers-own b vm f args more cb o after e final =
    simp (==_refl vm, e, handled-IsFinal (ask_handlers b vm args more) after final)

-- Given a function, `make_cb` does what `gen_cb` does if no handler of the machine takes the request:
-- each of them returns, with no C pointer, and leaves the module's state as it was.
pub make_cb-gen_cb :
    {hs : List (ℕ × Value)} (b : Berry) (vm : ℕ) (v : Value) (rest : List Value) (cb : Callbacks)
    → AreHandlers hs cb
    → be_isfunction v ≡ true
    → Declined b vm (v ∷ rest) cb hs
    → make_cb b vm (v ∷ rest) cb ≡ gen_cb vm (v ∷ rest) cb
unfolding make_cb
make_cb-gen_cb {hs} b vm v rest cb h q d = simp (
  q,
  h,
  ask_handlers-Declined b vm (v ∷ rest) cb (default_handler ∷ []) d,
  ask_default b vm (v ∷ rest) cb,
  handled-IsFinal (ask_handlers b vm (v ∷ rest) []) (gen_cb vm (v ∷ rest) cb).1
      (gen_cb-IsFinal vm v rest cb q),
)

-- Given a function, `make_cb` ends with the outcome of the first handler of the machine, newest
-- first, that does not decline, if that is a C pointer or an error; the handlers behind it are not
-- asked.
pub make_cb-IsFinal :
    (hs : List (ℕ × Value)) (more : List Hook) (b : Berry) (vm : ℕ) (v f : Value)
    (rest : List Value) (cb : Callbacks)
    → cb.handlers ≡ map handler hs ++ (handler (vm, f) ∷ more)
    → be_isfunction v ≡ true
    → Declined b vm (v ∷ rest) cb hs
    → (o : Outcome) (after : Callbacks) → call_handler b vm f (v ∷ rest) cb ≡ (o, after)
    → IsFinal o
    → make_cb b vm (v ∷ rest) cb ≡ (o, after)
unfolding make_cb
make_cb-IsFinal hs more b vm v f rest cb h q d o after e final = simp (
  q,
  h,
  ask_handlers-Declined b vm (v ∷ rest) cb (handler (vm, f) ∷ more) d,
  ask_handlers-own b vm f (v ∷ rest) more cb o after e final,
)
