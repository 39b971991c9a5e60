-- ===== src/Events/Loop.antt =====
-- `callBerryFastLoop`, which pops three values after an error although the stack is then empty.
use esp32_berry_lang.Base.{
  Bool-cases, Option-cases, Bool, true, false, ◌&&◌, if◌then◌else◌, none, some, List, [], ◌∷◌, ◌++◌,
  codes, ◌≡◌, refl, ap, ◌∙◌, inl, inr,
}
use esp32_berry_lang.Base.Int.{pos}
use esp32_berry_lang.Events.{
  Value, nil, Stack, push_on, push, be_top, pop_from, be_pop, Call, returned, failed, Interpreter,
  value_at, reverse_onto, after_call, be_pcall, value_or_nil, is_function, is_some, after_loop,
  fast_loop_body, fast_loop,
}
use esp32_berry_lang.Events.Balance.{on, pop_all, error_pop_all}

unfoldable pub is_failed : Call → Bool
is_failed (returned v) = false
is_failed (failed code left) = true

-- Whether `custom` is there, has the function `fast_loop`, and the call of it with `custom` fails.
unfoldable pub fails : Interpreter → Bool
fails vm = elim (vm.getglobal (codes "custom")) [
  | none ↦ false
  | some self ↦
      let method = vm.getmethod self (codes "fast_loop") in
      is_function method && is_failed (vm.pcall method (self ∷ []))
]

fails_missing : (vm : Interpreter) → vm.getglobal (codes "custom") ≡ none → fails vm ≡ false
unfolding fails
fails_missing vm missing = rw (missing, fails) refl

fails_found :
    (vm : Interpreter) (self : Value)
    → vm.getglobal (codes "custom") ≡ some self
    → fails vm
      ≡ is_function (vm.getmethod self (codes "fast_loop"))
        && is_failed (vm.pcall (vm.getmethod self (codes "fast_loop")) (self ∷ []))
unfolding fails
fails_found vm self found = rw (found, fails) refl

-- No values, and the top three slots below the base
abbrev pub three_below : Stack
three_below = record { values = []; below = 3 }

below_base : be_pop (pos 1) (be_pop (pos 1) (be_pop (pos 1) (on []))) ≡ three_below
unfolding be_pop pop_from
below_base = refl

called_lem :
    (c : Call) (self method : Value) (vs : List Value)
    → be_pop (pos 1) (be_pop (pos 1) (after_loop (after_call 1 c (on (self ∷ method ∷ self ∷ vs)))))
      ≡ (if is_failed c then three_below else on vs)
unfolding after_call after_loop is_failed
called_lem (returned v) self method vs = unfold be_pop pop_from in refl
called_lem (failed code left) self method vs =
    ap (λ s. be_pop (pos 1) (be_pop (pos 1) (be_pop (pos 1) s)))
      (error_pop_all (left ++ (self ∷ method ∷ self ∷ vs)))
    ∙ below_base

pop_two :
    (v w : Value) (vs : List Value) → be_pop (pos 1) (be_pop (pos 1) (on (v ∷ w ∷ vs))) ≡ on vs
unfolding be_pop pop_from
pop_two v w vs = refl

pop_one : (v : Value) (vs : List Value) → be_pop (pos 1) (on (v ∷ vs)) ≡ on vs
unfolding be_pop pop_from
pop_one v vs = refl

body_lem :
    (vm : Interpreter) (vs : List Value)
    → fast_loop_body vm (on vs) ≡ (if fails vm then three_below else on vs)
unfolding fast_loop_body push push_on value_at be_pcall reverse_onto value_or_nil is_some
body_lem vm vs = elim (Option-cases (vm.getglobal (codes "custom"))) [
  | inl missing ↦ rw (missing, fails_missing vm missing) (pop_one nil vs)
  | inr (self, found) ↦ elim (Bool-cases (is_function (vm.getmethod self (codes "fast_loop")))) [
    | inl method ↦
        rw (found, fails_found vm self found, method)
          (called_lem _ self (vm.getmethod self (codes "fast_loop")) vs)
    | inr other ↦
        rw (found, fails_found vm self found, other)
          (pop_two (vm.getmethod self (codes "fast_loop")) self vs)
  ]
]

cleaned :
    (vs : List Value) (b : Bool)
    → (let s = if b then three_below else on vs in be_pop (be_top s) s) ≡ on []
unfolding be_pop be_top
cleaned vs true = refl
cleaned vs false = pop_all vs

-- Before its last line, `callBerryFastLoop` leaves the stack as it was, also if `custom` or its method
-- is missing; but if the method is called and fails, no value is left and the top is three slots
-- below the base. After the last line the stack is empty, with the top at its base.
pub fast_loop-on :
    (vm : Interpreter) (vs : List Value)
    → (fast_loop_body vm (on vs) ≡ (if fails vm then three_below else on vs))
      × (fast_loop vm (on vs) ≡ on [])
unfolding fast_loop
fast_loop-on vm vs = (body_lem vm vs, rw (body_lem vm vs) (cleaned vs (fails vm)))
