-- ===== src/Callbacks.antt =====
-- The module `cb` of components/berry/berry_mapping/src/be_cb_module.c: C function pointers that call
-- Berry functions. A Berry virtual machine is a number; running its code (`be_call`, `be_pcall`,
-- `be_toint`) is a parameter, and the values that a native function leaves on the Berry stack are
-- its result. The observability hook only logs and is left out.
pub mod Slots
pub mod Handlers
pub mod Made
pub mod History
pub mod Calls
use esp32_berry_lang.Base.{
  ℕ, suc, ◌==◌, ltb, Bool, true, false, ◌||◌, List, [], ◌∷◌, Bytes, codes, Option, none, some, set,
  get_elem?, replicate, length, if◌then◌else◌,
}
use esp32_berry_lang.Base.Int.{ℤ, pos, negsuc}

-- `BE_MAX_CB`
abbrev pub be_max_cb : ℕ
be_max_cb = 20

-- What a `comptr` points to: the C function of a slot, or anything else.
pub data Pointer : Type 0 where
  berry_cb : ℕ → Pointer
  foreign : ℕ → Pointer

-- A Berry value as this module tells them apart. A closure is a collected object, the native
-- functions are not; `gen_cb_func` is the constant of `be_cb_gen_cb`.
pub data Value : Type 0 where
  nil : Value
  gen_cb_func : Value
  native : ℕ → Value
  closure : ℕ → Value
  comptr : Pointer → Value
  other_value : ℕ → Value

-- `be_callback_hook`, and `be_callback_handler_list_t` without its link
pub record Hook : Type 0 where
  pub vm : Option ℕ
  pub f : Value

-- The globals of the module, and the collected objects that `be_gc_fix_set` has marked.
pub record Callbacks : Type 0 where
  pub be_cb_hooks : List Hook
  pub handlers : List Hook
  pub fixed : List ℕ

-- How a native function or a Berry function that it calls ends.
pub data Outcome : Type 0 where
  returns : Value → Outcome
  raises : Bytes → Bytes → Outcome
  malloc_fail : Outcome

-- What the virtual machines do: the call of a function, with what it changes here, the protected call
-- from C, whose result is `none` on an error, and `be_toint`.
pub record Berry : Type 0 where
  pub be_call : ℕ → Value → List Value → Callbacks → Outcome × Callbacks
  pub be_pcall : ℕ → Value → List ℤ → Callbacks → Option Value × Callbacks
  pub be_toint : Value → ℤ

abbrev pub empty_hook : Hook
empty_hook = record { vm = none; f = nil }

-- The globals at the start.
abbrev pub initial : Callbacks
initial = record {
  be_cb_hooks = replicate be_max_cb empty_hook;
  handlers = record { vm = none; f = gen_cb_func } ∷ [];
  fixed = [];
}

unfoldable pub be_isfunction : Value → Bool
be_isfunction gen_cb_func = true
be_isfunction (native n) = true
be_isfunction (closure n) = true
be_isfunction _ = false

-- `if (be_isgcobj(v)) be_gc_fix_set(vm, v->v.gc, btrue)`
unfoldable pub gc_fix : Value → Callbacks → Callbacks
gc_fix (closure n) cb = record cb { fixed = n ∷ cb.fixed }
gc_fix _ cb = cb

unfoldable pub is_nil : Value → Bool
is_nil nil = true
is_nil _ = false

-- `elt->vm == vm`
unfoldable pub is_of : ℕ → Option ℕ → Bool
is_of vm none = false
is_of vm (some owner) = owner == vm

unfoldable pub not_a_function : Outcome
not_a_function = raises (codes "value_error") (codes "arg must be a function")

-- `be_cb_add_handler`; the first argument is whether `be_os_malloc` gives memory.
unfoldable pub add_handler : Bool → ℕ → List Value → Callbacks → Outcome × Callbacks
add_handler malloc vm [] cb = (not_a_function, cb)
add_handler malloc vm (v ∷ rest) cb =
    let fix = gc_fix v cb in
    let elt : Hook = record { vm = some vm; f = v } in
    if be_isfunction v
    then (if malloc
        then (returns nil, record fix { handlers = elt ∷ fix.handlers })
        else (malloc_fail, cb))
    else (not_a_function, cb)

-- `be_cb_list_handlers`: the list it returns.
unfoldable pub shown : ℕ → List Hook → List Value
shown vm [] = []
shown vm (elt ∷ more) = let rest = shown vm more in if is_of vm elt.vm then elt.f ∷ rest else rest

unfoldable pub list_handlers : ℕ → Callbacks → List Value
list_handlers vm cb = shown vm cb.handlers

-- The first slot with no function, or the number of slots.
unfoldable pub free_slot : List Hook → ℕ
free_slot [] = 0
free_slot (hook ∷ more) = let slot = suc (free_slot more) in if is_nil hook.f then 0 else slot

-- `be_cb_gen_cb`
unfoldable pub gen_cb : ℕ → List Value → Callbacks → Outcome × Callbacks
gen_cb vm [] cb = (not_a_function, cb)
gen_cb vm (v ∷ rest) cb =
    let slot = free_slot cb.be_cb_hooks in
    let fix = gc_fix v cb in
    let hook : Hook = record { vm = some vm; f = v } in
    if be_isfunction v
    then (if ltb slot be_max_cb
        then (
          returns (comptr (berry_cb slot)),
          record fix { be_cb_hooks = set fix.be_cb_hooks slot hook },
        )
        else (
          raises (codes "internal_error") (codes "no more callbacks available, increase BE_MAX_CB"),
          cb,
        ))
    else (not_a_function, cb)

-- The call of a handler: the default one is `gen_cb`.
unfoldable pub call_handler : Berry → ℕ → Value → List Value → Callbacks → Outcome × Callbacks
call_handler b vm gen_cb_func args cb = gen_cb vm args cb
call_handler b vm f args cb = b.be_call vm f args cb

-- What `make_cb` does with the outcome of a handler: an error passes through, a `comptr` is returned,
-- and after any other value the next handlers are asked, from the state the handler has left.
unfoldable pub handled :
    (Callbacks → Outcome × Callbacks) → Outcome × Callbacks → Outcome × Callbacks
handled ask (returns (comptr p), cb) = (returns (comptr p), cb)
handled ask (returns v, cb) = ask cb
handled ask (o, cb) = (o, cb)

-- The handlers of `make_cb`. A handler that adds handlers puts them before those still to ask.
unfoldable pub ask_handlers : Berry → ℕ → List Value → List Hook → Callbacks → Outcome × Callbacks
ask_handlers b vm args [] cb = (not_a_function, cb)
ask_handlers b vm args (elt ∷ more) cb =
    if is_of vm elt.vm || (elim elt.vm [ none ↦ true | some owner ↦ false ])
    then handled (ask_handlers b vm args more) (call_handler b vm elt.f args cb)
    else ask_handlers b vm args more cb

-- `be_cb_make_cb`
unfoldable pub make_cb : Berry → ℕ → List Value → Callbacks → Outcome × Callbacks
make_cb b vm [] cb = (not_a_function, cb)
make_cb b vm (v ∷ rest) cb =
    if be_isfunction v then ask_handlers b vm (v ∷ rest) cb.handlers cb else (not_a_function, cb)

-- `be_cb_get_cb_list`: the loop ends at the first slot with no vm.
unfoldable pub listed : ℕ → List Hook → List Value
listed vm [] = []
listed vm (hook ∷ more) =
    let rest = listed vm more in
    elim hook.vm [ none ↦ [] | some owner ↦ if owner == vm then hook.f ∷ rest else rest ]

unfoldable pub get_cb_list : ℕ → Callbacks → List Value
get_cb_list vm cb = listed vm cb.be_cb_hooks

-- The hook that `call_berry_cb` uses, if it has one.
unfoldable pub hook_of : ℤ → List Hook → Option (ℕ × Value)
hook_of (negsuc n) hooks = none
hook_of (pos n) hooks = elim (get_elem? hooks n) [
  | none ↦ none
  | some hook ↦ elim hook.vm [ none ↦ none | some vm ↦ some (vm, hook.f) ]
]

-- What `call_berry_cb` returns, once `be_pcall` has.
unfoldable pub answered : Berry → Option Value × Callbacks → ℤ × Callbacks
answered b (none, cb) = (pos 0, cb)
answered b (some v, cb) = (b.be_toint v, cb)

-- `call_berry_cb`, once the hook is known
unfoldable pub call_hook : Berry → Option (ℕ × Value) → List ℤ → Callbacks → ℤ × Callbacks
call_hook b none args cb = (pos 0, cb)
call_hook b (some (vm, f)) args cb = answered b (b.be_pcall vm f args cb)

-- `call_berry_cb`
unfoldable pub call_berry_cb : Berry → ℤ → ℤ → ℤ → ℤ → ℤ → Callbacks → ℤ × Callbacks
call_berry_cb b num v0 v1 v2 v3 cb =
    call_hook b (hook_of num cb.be_cb_hooks) (v0 ∷ v1 ∷ v2 ∷ v3 ∷ []) cb
