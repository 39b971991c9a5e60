-- ===== src/Events/Observability.antt =====
-- `be_dumpstack` and `BerryObservability` of components/berry/port/be_portutils.c. The lines of the
-- log are returned; the trace that `be_tracestack` prints is left out. Times are those of
-- `esp_timer_get_time`, in microseconds, and the stack is not below its base.
use esp32_berry_lang.Base.{
  ℕ, suc, ◌+◌, ◌-◌, ◌*◌, ◌/◌, ◌%◌, ◌^◌, ◌≤◌, ◌<◌, ◌≡◌, ◌⊎◌, refl, ltb, Bytes, List, [], ◌∷◌, Option,
  none, some, length, map, if◌then◌else◌, arith,
}
use esp32_berry_lang.Base.Int.{ℤ, pos, negsuc, sub_ℕ}
use esp32_berry_lang.Events.{Value, string, reverse_onto}

-- The names of types and classes; an instance and a class have a class name.
pub record Names : Type 0 where
  pub typename : Value → Bytes
  pub classname : Value → Option Bytes

pub data Line : Type 0 where
  exception : Bytes → Bytes → Line
  top : ℕ → Line
  stack_entry : ℕ → Bytes → Bytes → Line
  -- bytes before and after, objects freed and scanned, milliseconds, slots, as `%i` and `%d` print them
  collected : ℤ → ℤ → ℤ → ℤ → ℤ → List ℤ → Line
  resized : ℤ → ℤ → Line
  heartbeat : ℤ → Line

-- The event with its further arguments. After an error there is none, and the value of `param` is
-- whatever is read in its place.
pub data Observation : Type 0 where
  pcall_error : ℤ → Observation
  gc_start : ℤ → Observation
  gc_end : ℤ → ℕ → ℕ → List ℕ → Observation
  stack_resize_start : ℤ → ℤ → Observation
  vm_heartbeat other : Observation

-- The statics `vm_usage` and `gc_time`, and `gc.threshold` of the machine.
pub record Observed : Type 0 where
  pub vm_usage : ℤ
  pub gc_time : ℕ
  pub threshold : ℕ

-- NULL is printed as the empty string.
unfoldable pub or_empty : Option Bytes → Bytes
or_empty none = []
or_empty (some name) = name

-- The text of a string, and of another value the name of its class, if it has one
unfoldable pub entry_text : Names → Value → Bytes
entry_text names (string s) = s
entry_text names v = or_empty (names.classname v)

-- The lines from the one of this number on
unfoldable pub entries : Names → ℕ → List Value → List Line
entries names i [] = []
entries names i (v ∷ values) =
    stack_entry i (names.typename v) (entry_text names v) ∷ entries names (suc i) values

-- `be_dumpstack`, of values with the last pushed first
unfoldable pub be_dumpstack : Names → List Value → List Line
be_dumpstack names values = top (length values) ∷ entries names 1 (reverse_onto values [])

-- Whether the two values on the top are an exception
unfoldable pub error_lines : Names → List Value → List Line
error_lines names (string msg ∷ string e ∷ values) = exception e msg ∷ []
error_lines names values = be_dumpstack names values

-- An `int` of 32 bits, and its quotient, which is rounded to 0
unfoldable pub to_int32 : ℕ → ℤ
to_int32 n = let m = n % 2 ^ 32 in if ltb m (2 ^ 31) then pos m else negsuc (2 ^ 32 - m - 1)

unfoldable pub quot : ℤ → ℕ → ℤ
quot (pos n) d = pos (n / d)
quot (negsuc n) d = sub_ℕ 0 (suc n / d)

-- `gc_time = esp_timer_get_time() / 1000`, and what has passed since, both `uint32_t`
unfoldable pub milliseconds : ℕ → ℕ
milliseconds now = now / 1000 % 2 ^ 32

unfoldable pub elapsed : ℕ → ℕ → ℕ
elapsed now gc_time = (now / 1000 + 2 ^ 32 - gc_time) % 2 ^ 32

unfoldable pub start_gc : ℕ → ℤ → Observed → Observed
start_gc now usage s = record s { vm_usage = usage; gc_time = milliseconds now }

-- The threshold after a collection that leaves this usage
unfoldable pub tighten : ℕ → ℕ → ℕ
tighten usage threshold =
    if ltb (20 * 1024) threshold then (usage + 10 * 1024) % 2 ^ 32 else threshold

-- `BerryObservability`, with the stack, the time and `gc.usage`
unfoldable pub observe : Names → List Value → ℕ → ℕ → Observation → Observed → Observed × List Line
observe names values now usage (pcall_error param) s =
    (start_gc now param s, error_lines names values)
observe names values now usage (gc_start vm_usage) s = (start_gc now vm_usage s, [])
observe names values now usage (gc_end vm_usage scanned freed slots) s = (
  record s { threshold = tighten usage s.threshold },
  collected s.vm_usage vm_usage (to_int32 freed) (to_int32 scanned)
        (to_int32 (elapsed now s.gc_time)) (map to_int32 slots)
      ∷ [],
)
observe names values now usage (stack_resize_start before after) s = (s, resized before after ∷ [])
observe names values now usage vm_heartbeat s = (s, heartbeat (quot (to_int32 now) 1000) ∷ [])
observe names values now usage other s = (s, [])

elapsed_since :
    (t0 t1 : ℕ)
    → t0 ≤ t1
    → t1 / 1000 - t0 / 1000 < 2 ^ 32
    → elapsed t1 (milliseconds t0) ≡ t1 / 1000 - t0 / 1000
unfolding elapsed milliseconds
elapsed_since t0 t1 h k = omega arith

to_int32_small : (n : ℕ) → n < 2 ^ 31 → to_int32 n ≡ pos n
unfolding to_int32
to_int32_small n h = let small : n % 2 ^ 32 ≡ n = omega arith in ground (arith, small)

-- A collection that lasts less than 2 ^ 31 milliseconds is logged with the bytes in use before and
-- after, the objects and the slots as numbers of 32 bits with a sign, and the milliseconds it took,
-- also where the clock of 32 bits wraps. A threshold of at most 20 KB stays as it is; a larger one
-- becomes 10 KB more than what is in use, modulo 2 ^ 32.
pub observe_gc :
    (names : Names) (v0 v1 : List Value) (t0 t1 usage0 usage1 : ℕ) (before after : ℤ)
    (scanned freed : ℕ) (slots : List ℕ) (s : Observed)
    → t0 ≤ t1
    → t1 / 1000 - t0 / 1000 < 2 ^ 31
    → let (s', log) =
        observe names v1 t1 usage1
          (gc_end after scanned freed slots)
          (observe names v0 t0 usage0 (gc_start before) s).0 in
      (log
        ≡ collected before after
            (to_int32 freed)
            (to_int32 scanned)
            (pos (t1 / 1000 - t0 / 1000))
            (map to_int32 slots)
          ∷ [])
      × (((s.threshold ≤ 20 * 1024) × (s'.threshold ≡ s.threshold))
          ⊎ ((20 * 1024 < s.threshold) × (s'.threshold ≡ (usage1 + 10 * 1024) % 2 ^ 32)))
unfolding observe start_gc tighten
observe_gc names v0 v1 t0 t1 usage0 usage1 before after scanned freed slots s h k = (
  simp (elapsed_since t0 t1 h (omega (arith, k)), to_int32_small (t1 / 1000 - t0 / 1000) k) refl,
  ground arith,
)
