-- ===== src/Tests/Callbacks.antt =====
-- The callbacks at concrete inputs.
use esp32_berry_lang.Base.{
  ℕ, ◌==◌, List, [], ◌∷◌, some, true, replicate, if◌then◌else◌, ◌≡◌, refl, arith,
}
use esp32_berry_lang.Base.Int.{pos, negsuc}
use esp32_berry_lang.Callbacks.{
  Value, nil, closure, comptr, berry_cb, foreign, other_value, Callbacks, returns, Berry,
  empty_hook, initial, be_isfunction, is_nil, add_handler, gen_cb, call_handler, make_cb,
  get_cb_list, hook_of, answered, call_hook, call_berry_cb,
}
use esp32_berry_lang.Callbacks.Slots.{
  used, free, AreSlots, owned, gen_cb-AreSlots, get_cb_list-owned,
}
use mathlib.Core.List.Memᴰ
use esp32_berry_lang.Callbacks.History.{IsSound, Grown, here, next, generates, adds}
use esp32_berry_lang.Callbacks.Calls.{
  IsBerry, Call, make, from_c, add, gen, effects, effects-Grown, effects-call_berry_cb,
}
use esp32_berry_lang.Callbacks.Handlers.{
  pointer, nobody, skipped, asked, handler, default_handler, make_cb-gen_cb, make_cb-IsFinal,
}

-- Closure 8 is a handler that takes a request, every other function returns a plain value.
abbrev berry : Berry
berry = record {
  be_call = λ vm f args cb. (
    elim f [
      | closure n ↦ if n == 8 then returns (comptr (foreign 5)) else returns (other_value 1)
      | _ ↦ returns nil
    ],
    cb,
  );
  be_pcall = λ vm f args cb. (some f, cb);
  be_toint = λ v. elim v [ closure n ↦ pos n | _ ↦ pos 0 ];
}

-- Slot 0 is used for closure 4 in machine 1.
abbrev one_used : Callbacks
one_used = record initial {
  be_cb_hooks = record { vm = some 1; f = closure 4 } ∷ replicate 19 empty_hook;
  handlers = handler (1, closure 7) ∷ handler (2, closure 8) ∷ default_handler ∷ [];
}

abbrev four : List (ℕ × Value)
four = (1, closure 4) ∷ []

one_used-AreSlots : AreSlots four one_used
unfolding is_nil
one_used-AreSlots = (used 1 (closure 4) refl (free 19), refl)

is_closure : (n : ℕ) → be_isfunction (closure n) ≡ true
unfolding be_isfunction
is_closure n = refl

call_used : call_berry_cb berry (pos 0) (pos 0) (pos 0) (pos 0) (pos 0) one_used ≡ (pos 4, one_used)
unfolding call_berry_cb hook_of call_hook answered
call_used = refl

call_unused :
    call_berry_cb berry (negsuc 0) (pos 0) (pos 0) (pos 0) (pos 0) one_used ≡ (pos 0, one_used)
unfolding call_berry_cb hook_of call_hook
call_unused = refl

gen_cb-AreSlots_example :
    let (o, cb') = gen_cb 2 (closure 6 ∷ []) one_used in
    (o ≡ returns (comptr (berry_cb 1))) × AreSlots ((1, closure 4) ∷ (2, closure 6) ∷ []) cb'
gen_cb-AreSlots_example =
    gen_cb-AreSlots 2 (closure 6) [] one_used one_used-AreSlots (is_closure 6) (omega arith)

get_cb_list-owned_example : get_cb_list 1 one_used ≡ owned 1 four
get_cb_list-owned_example = get_cb_list-owned 1 one_used one_used-AreSlots

-- For machine 1 only the handler 7 is asked, which declines.
make_cb-gen_cb_example :
    make_cb berry 1 (closure 6 ∷ []) one_used ≡ gen_cb 1 (closure 6 ∷ []) one_used
unfolding call_handler
make_cb-gen_cb_example = make_cb-gen_cb berry 1 (closure 6) [] one_used refl (is_closure 6) (
    asked (closure 7) (other_value 1, (λ p. ground arith), refl)
      (skipped 2 (closure 8) refl nobody))

make_cb-IsFinal_example :
    make_cb berry 2 (closure 6 ∷ []) one_used ≡ (returns (comptr (foreign 5)), one_used)
unfolding call_handler
make_cb-IsFinal_example =
    make_cb-IsFinal ((1, closure 7) ∷ []) (default_handler ∷ []) berry 2 (closure 6) (closure 8) []
      one_used refl (is_closure 6) (skipped 1 (closure 7) refl nobody)
      (returns (comptr (foreign 5))) one_used refl (pointer (foreign 5))

-- The same with every closure marked against collection
abbrev marked : Callbacks
marked = record one_used { fixed = 4 ∷ 7 ∷ 8 ∷ [] }

-- A Berry handler asks `gen_cb`, and a call from C adds a handler.
abbrev forwarding : Berry
forwarding = record {
  be_call = λ vm f args cb. gen_cb vm args cb;
  be_pcall = λ vm f args cb. (some f, (add_handler true vm (closure 9 ∷ []) cb).1);
  be_toint = λ v. pos 0;
}

forwarding-IsBerry : IsBerry forwarding
forwarding-IsBerry = record {
  called = λ vm f args cb. next here (generates vm args);
  pcalled = λ vm f args cb. next here (adds true vm (closure 9 ∷ []));
}

abbrev two_handlers : List (ℕ × Value)
two_handlers = (1, closure 7) ∷ (2, closure 8) ∷ []

marked-IsSound : IsSound four two_handlers marked
marked-IsSound = record {
  slots = one_used-AreSlots;
  handlers = refl;
  slots_kept = (Memᴰ.head refl, tt);
  handlers_kept = (Memᴰ.tail (Memᴰ.head refl), (Memᴰ.tail (Memᴰ.tail (Memᴰ.head refl)), tt));
}

abbrev some_calls : List Call
some_calls =
    make 1 (closure 5 ∷ [])
    ∷ from_c (pos 0) (pos 1) (pos 2) (pos 3) (pos 4)
    ∷ add true 2 (closure 6 ∷ [])
    ∷ gen 2 (nil ∷ [])
    ∷ []

effects-Grown_example : Grown four two_handlers (effects forwarding some_calls marked)
effects-Grown_example =
    effects-Grown forwarding-IsBerry four two_handlers some_calls marked marked-IsSound

effects-call_berry_cb_example :
    let after = effects forwarding some_calls marked in
    call_berry_cb forwarding (pos 0) (pos 1) (pos 2) (pos 3) (pos 4) after
    ≡ answered forwarding
        (forwarding.be_pcall 1 (closure 4) (pos 1 ∷ pos 2 ∷ pos 3 ∷ pos 4 ∷ []) after)
effects-call_berry_cb_example =
    effects-call_berry_cb forwarding-IsBerry four two_handlers some_calls marked marked-IsSound 0 1
      (closure 4) refl (pos 1) (pos 2) (pos 3) (pos 4)
