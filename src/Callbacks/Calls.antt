-- ===== src/Callbacks/Calls.antt =====
-- Sequences of calls of the native functions of the module `cb` and of the C functions it makes.
use esp32_berry_lang.Base.{
  ℕ, Bool, List, [], ◌∷◌, get_elem?, get_elem?-append_front, get_elem?-lt, ◌≡◌, refl, ◌∙◌, some,
  none, Option, if_both,
}
use esp32_berry_lang.Base.Int.{ℤ, pos}
use esp32_berry_lang.Callbacks.{
  Value, nil, native, closure, other_value, gen_cb_func, comptr, Callbacks, Hook, Outcome, returns,
  raises, malloc_fail, Berry, be_isfunction, add_handler, gen_cb, call_handler, handled,
  ask_handlers, make_cb, answered, call_hook, hook_of, call_berry_cb,
}
use esp32_berry_lang.Callbacks.Slots.{call_berry_cb-get_elem?}
use esp32_berry_lang.Callbacks.Made.{call_hook_closure}
use esp32_berry_lang.Callbacks.History.{
  IsSound, Grown, Reach, here, next, generates, adds, Reach-trans, Reach-Grown,
}

-- What Berry code changes of the module's static globals it changes by calls of the module.
pub record IsBerry (b : Berry) : Type 0 where
  pub called :
      (vm : ℕ) (f : Value) (args : List Value) (cb : Callbacks)
      → Reach cb (b.be_call vm f args cb).1
  pub pcalled :
      (vm : ℕ) (f : Value) (args : List ℤ) (cb : Callbacks) → Reach cb (b.be_pcall vm f args cb).1

-- A call of a native function in a machine, with whether there is memory for a handler, or of one of
-- the C functions.
pub data Call : Type 0 where
  gen : ℕ → List Value → Call
  add : Bool → ℕ → List Value → Call
  make : ℕ → List Value → Call
  from_c : ℤ → ℤ → ℤ → ℤ → ℤ → Call

module _ (b : Berry) where
  unfoldable pub effect : Call → Callbacks → Callbacks
  effect (gen vm args) cb = (gen_cb vm args cb).1
  effect (add malloc vm args) cb = (add_handler malloc vm args cb).1
  effect (make vm args) cb = (make_cb b vm args cb).1
  effect (from_c num v0 v1 v2 v3) cb = (call_berry_cb b num v0 v1 v2 v3 cb).1

  unfoldable pub effects : List Call → Callbacks → Callbacks
  effects [] cb = cb
  effects (c ∷ cs) cb = effects cs (effect c cb)

module _ {b : Berry} (h : IsBerry b) where
  call_handler-Reach :
      (vm : ℕ) (f : Value) (args : List Value) (cb : Callbacks)
      → Reach cb (call_handler b vm f args cb).1
  unfolding call_handler
  call_handler-Reach vm gen_cb_func args cb = next here (generates vm args)
  call_handler-Reach vm nil args cb = h.called vm nil args cb
  call_handler-Reach vm (native n) args cb = h.called vm (native n) args cb
  call_handler-Reach vm (closure n) args cb = h.called vm (closure n) args cb
  call_handler-Reach vm (comptr p) args cb = h.called vm (comptr p) args cb
  call_handler-Reach vm (other_value n) args cb = h.called vm (other_value n) args cb

  handled-Reach :
      (ask : Callbacks → Outcome × Callbacks) (o : Outcome) (cb : Callbacks)
      → Reach cb (ask cb).1
      → Reach cb (handled ask (o, cb)).1
  unfolding handled
  handled-Reach ask (returns (comptr p)) cb r = here
  handled-Reach ask (returns nil) cb r = r
  handled-Reach ask (returns gen_cb_func) cb r = r
  handled-Reach ask (returns (native n)) cb r = r
  handled-Reach ask (returns (closure n)) cb r = r
  handled-Reach ask (returns (other_value n)) cb r = r
  handled-Reach ask (raises name text) cb r = here
  handled-Reach ask malloc_fail cb r = here

  ask_handlers-Reach :
      (vm : ℕ) (args : List Value) (hooks : List Hook) (cb : Callbacks)
      → Reach cb (ask_handlers b vm args hooks cb).1
  unfolding ask_handlers
  ask_handlers-Reach vm args [] cb = here
  ask_handlers-Reach vm args (elt ∷ more) cb =
      let (o, after) = call_handler b vm elt.f args cb in
      if_both (λ (r : Outcome × Callbacks). Reach cb r.1) _
        (Reach-trans (call_handler-Reach vm elt.f args cb) (
          handled-Reach (ask_handlers b vm args more) o after
            (ask_handlers-Reach vm args more after)))
        (ask_handlers-Reach vm args more cb)

  make_cb-Reach : (vm : ℕ) (args : List Value) (cb : Callbacks) → Reach cb (make_cb b vm args cb).1
  unfolding make_cb
  make_cb-Reach vm [] cb = here
  make_cb-Reach vm (v ∷ rest) cb =
      if_both (λ (r : Outcome × Callbacks). Reach cb r.1) (be_isfunction v)
        (ask_handlers-Reach vm (v ∷ rest) cb.handlers cb) here

  answered_keeps : (r : Option Value × Callbacks) → (answered b r).1 ≡ r.1
  unfolding answered
  answered_keeps (none, after) = refl
  answered_keeps (some v, after) = refl

  call_hook-Reach :
      (hook : Option (ℕ × Value)) (args : List ℤ) (cb : Callbacks)
      → Reach cb (call_hook b hook args cb).1
  unfolding call_hook
  call_hook-Reach none args cb = here
  call_hook-Reach (some (vm, f)) args cb =
      rw (answered_keeps (b.be_pcall vm f args cb)) (h.pcalled vm f args cb)

  effect-Reach : (c : Call) (cb : Callbacks) → Reach cb (effect b c cb)
  unfolding effect call_berry_cb
  effect-Reach (gen vm args) cb = next here (generates vm args)
  effect-Reach (add malloc vm args) cb = next here (adds malloc vm args)
  effect-Reach (make vm args) cb = make_cb-Reach vm args cb
  effect-Reach (from_c num v0 v1 v2 v3) cb = call_hook-Reach (hook_of num cb.be_cb_hooks) _ cb

  effects-Reach : (calls : List Call) (cb : Callbacks) → Reach cb (effects b calls cb)
  unfolding effects
  effects-Reach [] cb = here
  effects-Reach (c ∷ calls) cb =
      Reach-trans (effect-Reach c cb) (effects-Reach calls (effect b c cb))

  -- Let the slots hold some functions and the handlers be some before the default one, none of which
  -- can be collected, and let Berry code change the module's globals only by calls of the module.
  -- After any sequence of calls of the module and of the C functions, the slots hold the same
  -- functions, in order, and perhaps more behind them, the handlers are the same and perhaps more
  -- before them, and none of all these can be collected.
  pub effects-Grown :
      (cs hs : List (ℕ × Value)) (calls : List Call) (cb : Callbacks)
      → IsSound cs hs cb
      → Grown cs hs (effects b calls cb)
  effects-Grown cs hs calls cb s = Reach-Grown cs hs s (effects-Reach calls cb)

  -- Let the module be as above. Whatever calls of the module and of the C functions come in between,
  -- the C function of a slot in use calls the function that the slot holds, in its machine, with the
  -- four arguments.
  pub effects-call_berry_cb :
      (cs hs : List (ℕ × Value)) (calls : List Call) (cb : Callbacks)
      → IsSound cs hs cb
      → (n owner : ℕ) (f : Value) → get_elem? cs n ≡ some (owner, f)
      → (v0 v1 v2 v3 : ℤ)
      → let after = effects b calls cb in
        call_berry_cb b (pos n) v0 v1 v2 v3 after
        ≡ answered b (b.be_pcall owner f (v0 ∷ v1 ∷ v2 ∷ v3 ∷ []) after)
  effects-call_berry_cb cs hs calls cb s n owner f e v0 v1 v2 v3 =
      let g = effects-Grown cs hs calls cb s in
      call_berry_cb-get_elem? b n v0 v1 v2 v3 (effects b calls cb) g.sound.slots
      ∙ simp (
        get_elem?-append_front cs g.more_slots n (get_elem?-lt cs n (owner, f) e),
        e,
        call_hook_closure b owner f (v0 ∷ v1 ∷ v2 ∷ v3 ∷ []) (effects b calls cb),
      )
