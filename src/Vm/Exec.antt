-- ===== src/Vm/Exec.antt =====
-- Runs of the machine: a computation takes the state and returns a value with the new state, or it
-- stops by a PANIC, in undefined behaviour, or without fuel.
use atomix_js.Prelude.{
  ℕ, ◌+◌, Bool, true, false, Option, none, some, Str, ltb, leb, ◌==◌, if◌then◌else◌,
}
use atomix_js.Prelude.Result.{Result, ok, panic, fault, Message, could_not_allocate}
use atomix_js.Prelude.Word.{sub64}
use atomix_js.Value.{JsValue, Platform}
use atomix_js.Vm.{
  Ptr, null, stack_size, JsObject, Scope, JsFunction, JsGsBox, JsModule, JsBundle, update, Heap,
  Globals, VmStats, Vm,
}

pub data Outcome (A : Type 0) : Type 0 where
  ret : A → Vm → Outcome A
  panicked : Message → Outcome A
  crashed : Outcome A
  out_of_fuel : Outcome A

abbrev pub Exec : Type 0 → Type 0
Exec A = Vm → Outcome A

abbrev pub pure : {A : Type 0} → A → Exec A
pure a vm = ret a vm

abbrev pub then_run : {A B : Type 0} → Outcome A → (A → Exec B) → Outcome B
then_run (ret a vm) f = f a vm
then_run (panicked m) f = panicked m
then_run crashed f = crashed
then_run out_of_fuel f = out_of_fuel

infixl 5 ◌>>=◌ ◌>>◌
abbrev pub ◌>>=◌ : {A B : Type 0} → Exec A → (A → Exec B) → Exec B
◌>>=◌ m f vm = then_run (m vm) f

abbrev pub ◌>>◌ : {B : Type 0} → Exec (Unit {0}) → Exec B → Exec B
m >> k = m >>= λ _. k

abbrev pub raise : {A : Type 0} → Message → Exec A
raise m vm = panicked m

abbrev pub crash : {A : Type 0} → Exec A
crash vm = crashed

abbrev pub exhausted : {A : Type 0} → Exec A
exhausted vm = out_of_fuel

abbrev pub lift : {A : Type 0} → Result A → Exec A
lift (ok a) = pure a
lift (panic m) = raise m
lift fault = crash

-- `if (bad) { PANIC(m); }`
abbrev pub panic_if : Bool → Message → Exec (Unit {0})
panic_if true m = raise m
panic_if false m = pure tt

-- What the machine calls and the repository does not hold: the processor's floating point, the
-- collector, `snprintf` and `printf` (of "%d", "%.7g" and "%f"), and the size of a `JSModule`. `malloc n` is what the n-th call of GC_malloc or GC_malloc_atomic returns.
pub record Host : Type 0 where
  pub platform : Platform
  pub malloc : ℕ → Ptr
  pub print_int : ℕ → Str
  pub print_double : ℕ → Str
  pub print_fixed : ℕ → Str
  pub module_size : ℕ

abbrev pub put_stats : VmStats → Exec (Unit {0})
put_stats s vm = ret tt (record vm { stats = s })

abbrev pub put_heap : Heap → Exec (Unit {0})
put_heap h vm = ret tt (record vm { heap = h })

abbrev pub put_globals : Globals → Exec (Unit {0})
put_globals g vm = ret tt (record vm { globals = g })

abbrev pub get_vm : Exec Vm
get_vm vm = ret vm vm

abbrev pub stack_counter : Exec ℕ
stack_counter vm = ret vm.stats.stack_counter vm

abbrev pub set_stack_counter : ℕ → Exec (Unit {0})
set_stack_counter n vm = ret tt (record vm { stats = record vm.stats { stack_counter = n } })

abbrev pub set_instruction_counter : ℕ → Exec (Unit {0})
set_instruction_counter n vm =
    ret tt (record vm { stats = record vm.stats { instruction_counter = n } })

abbrev pub set_scope : Ptr → Exec (Unit {0})
set_scope s vm = ret tt (record vm { scope = s })

-- `stack[i]`, which is undefined outside the array.
unfoldable pub load_slot : ℕ → Exec JsValue
load_slot i vm = if ltb i stack_size then ret (vm.stats.stack i) vm else crashed

unfoldable pub store_slot : ℕ → JsValue → Exec (Unit {0})
store_slot i v vm =
    if ltb i stack_size
    then ret tt (record vm { stats = record vm.stats { stack = update vm.stats.stack i v } })
    else crashed

-- `stack[stack_counter - k]`
unfoldable pub peek : ℕ → Exec JsValue
unfolding load_slot
peek k vm = load_slot (sub64 vm.stats.stack_counter k) vm

unfoldable pub poke : ℕ → JsValue → Exec (Unit {0})
unfolding store_slot
poke k v vm = store_slot (sub64 vm.stats.stack_counter k) v vm

-- `stack[stack_counter++] = v`
unfoldable pub push : JsValue → Exec (Unit {0})
unfolding store_slot
push v vm =
    (store_slot vm.stats.stack_counter v >> set_stack_counter (vm.stats.stack_counter + 1)) vm

-- `stack_counter--`
unfoldable pub lower : Exec (Unit {0})
lower vm = set_stack_counter (sub64 vm.stats.stack_counter 1) vm

-- The guards of the handlers.
unfoldable pub need : ℕ → Exec (Unit {0})
need k vm = panic_if (ltb vm.stats.stack_counter k) Message.stack_underflow vm

unfoldable pub room : Exec (Unit {0})
room vm = panic_if (leb stack_size vm.stats.stack_counter) Message.stack_overflow vm

-- A read through a pointer.
abbrev pub found : {A : Type 0} → Option A → Exec A
found none = crash
found (some a) = pure a

unfoldable pub deref_object : Ptr → Exec JsObject
deref_object p vm = found (vm.heap.objects p) vm

unfoldable pub deref_scope : Ptr → Exec Scope
deref_scope p vm = found (vm.heap.scopes p) vm

unfoldable pub deref_function : Ptr → Exec JsFunction
deref_function p vm = found (vm.heap.functions p) vm

unfoldable pub deref_box : Ptr → Exec JsGsBox
deref_box p vm = found (vm.heap.boxes p) vm

unfoldable pub deref_module : Ptr → Exec JsModule
deref_module p vm = found (vm.heap.modules p) vm

unfoldable pub deref_string : Ptr → Exec Str
deref_string p vm = found (vm.heap.strings p) vm

unfoldable pub deref_bundle : Ptr → Exec JsBundle
deref_bundle p vm = found (vm.heap.bundles p) vm

unfoldable pub put_object : Ptr → JsObject → Exec (Unit {0})
put_object p o vm = put_heap (record vm.heap { objects = update vm.heap.objects p (some o) }) vm

unfoldable pub put_scope : Ptr → Scope → Exec (Unit {0})
put_scope p s vm = put_heap (record vm.heap { scopes = update vm.heap.scopes p (some s) }) vm

unfoldable pub put_function : Ptr → JsFunction → Exec (Unit {0})
put_function p f vm =
    put_heap (record vm.heap { functions = update vm.heap.functions p (some f) }) vm

unfoldable pub put_module : Ptr → JsModule → Exec (Unit {0})
put_module p m vm = put_heap (record vm.heap { modules = update vm.heap.modules p (some m) }) vm

unfoldable pub put_bundle : Ptr → JsBundle → Exec (Unit {0})
put_bundle p b vm = put_heap (record vm.heap { bundles = update vm.heap.bundles p (some b) }) vm

unfoldable pub put_string : Ptr → Str → Exec (Unit {0})
put_string p s vm = put_heap (record vm.heap { strings = update vm.heap.strings p (some s) }) vm

module _ (h : Host) where
  -- GC_malloc, which may return NULL.
  unfoldable pub gc_malloc : Exec Ptr
  gc_malloc vm =
      ret (h.malloc vm.heap.allocs)
        (record vm { heap = record vm.heap { allocs = vm.heap.allocs + 1 } })

  -- An allocation whose result the source uses without a test: NULL is a fault.
  unfoldable pub gc_malloc_unchecked : Exec Ptr
  unfolding gc_malloc
  gc_malloc_unchecked = do p ← gc_malloc; if p == null then crash else pure p

  -- One that PANICs on NULL.
  unfoldable pub gc_malloc_checked : Exec Ptr
  unfolding gc_malloc
  gc_malloc_checked = do p ← gc_malloc; if p == null then raise could_not_allocate else pure p

  -- core/api.c: `init_string`, and the copies that the string table hands out.
  unfoldable pub init_string : Str → Exec Ptr
  unfolding gc_malloc_unchecked put_string
  init_string s = do p ← gc_malloc_unchecked; put_string p s; pure p
