-- ===== src/Vm/Keeps.antt =====
-- Invariants of the machine under a computation: if the invariant holds before and the computation
-- returns, it holds afterwards. Panics, faults and lack of fuel end the machine.
use atomix_js.Prelude.{Str, Bool, true, false, Option, none, some, if◌then◌else◌}
use atomix_js.Prelude.Result.{Result, ok, panic, fault, Message}
use atomix_js.Vm.{Vm, Heap, Globals, Ptr, JsObject, Scope, JsFunction, JsModule, JsBundle}
use atomix_js.Vm.Exec.{
  Exec, Outcome, ret, panicked, crashed, out_of_fuel, then_run, lift, found, Host, gc_malloc,
  gc_malloc_checked, gc_malloc_unchecked, init_string, deref_object, deref_scope, deref_function,
  deref_box, deref_module, deref_string, put_object, put_scope, put_function, put_string, put_heap,
  put_globals, deref_bundle, put_module, put_bundle,
}

pub data Ends (I : Vm → Type 0) {A : Type 0} : Outcome A → Type 0 where
  returned : {a : A} {vm : Vm} → I vm → Ends I (ret a vm)
  by_panic : {m : Message} → Ends I (panicked m)
  by_crash : Ends I crashed
  by_fuel : Ends I out_of_fuel

abbrev pub Keeps : (Vm → Type 0) → {A : Type 0} → Exec A → Type 0
Keeps I m = (vm : Vm) → I vm → Ends I (m vm)

module _ {I : Vm → Type 0} {A : Type 0} where
  pub Ends-bind :
      {B : Type 0} {r : Outcome A} {f : A → Exec B}
      → Ends I r
      → ((a : A) → Keeps I (f a))
      → Ends I (then_run r f)
  Ends-bind (returned i) k = k _ _ i
  Ends-bind by_panic k = by_panic
  Ends-bind by_crash k = by_crash
  Ends-bind by_fuel k = by_fuel

  -- The rule of a step that changes the invariant.
  pub Ends-then :
      {B : Type 0} {J : Vm → Type 0} {r : Outcome A} {f : A → Exec B}
      → Ends I r
      → ((a : A) (vm : Vm) → I vm → Ends J (f a vm))
      → Ends J (then_run r f)
  Ends-then (returned i) k = k _ _ i
  Ends-then by_panic k = by_panic
  Ends-then by_crash k = by_crash
  Ends-then by_fuel k = by_fuel

  pub Ends-mono :
      {J : Vm → Type 0} {r : Outcome A} → Ends I r → ((vm : Vm) → I vm → J vm) → Ends J r
  Ends-mono (returned i) weaken = returned (weaken _ i)
  Ends-mono by_panic weaken = by_panic
  Ends-mono by_crash weaken = by_crash
  Ends-mono by_fuel weaken = by_fuel

  -- Where the rest holds from every state, nothing is asked of the first part.
  pub Ends-after :
      {B : Type 0} (r : Outcome A) {f : A → Exec B}
      → ((a : A) (vm : Vm) → Ends I (f a vm))
      → Ends I (then_run r f)
  Ends-after (ret a vm) k = k a vm
  Ends-after (panicked m) k = by_panic
  Ends-after crashed k = by_crash
  Ends-after out_of_fuel k = by_fuel

  pub Ends-lift : (r : Result A) (vm : Vm) → I vm → Ends I (lift r vm)
  Ends-lift (ok a) vm i = returned i
  Ends-lift (panic m) vm i = by_panic
  Ends-lift fault vm i = by_crash

  pub Ends-found : (o : Option A) (vm : Vm) → I vm → Ends I (found o vm)
  Ends-found none vm i = by_crash
  Ends-found (some a) vm i = returned i

  pub Ends-if :
      (b : Bool) {m n : Exec A} {vm : Vm}
      → Keeps I m
      → Keeps I n
      → I vm
      → Ends I ((if b then m else n) vm)
  Ends-if true k l i = k _ i
  Ends-if false k l i = l _ i

  pub Ends-choose :
      (b : Bool) {m n : Exec A} {vm : Vm}
      → Keeps I m
      → Keeps I n
      → I vm
      → Ends I ((elim b as (λ _. Exec A) [ true ↦ m | false ↦ n ]) vm)
  Ends-choose true k l i = k _ i
  Ends-choose false k l i = l _ i

pub ruleset keeps_rules =
    (Ends-bind, Ends-if, Ends-lift, Ends-found, returned, by_panic, by_crash, by_fuel)

-- An invariant of the registers and the stack does not see the heap, nor the static variables.
pub record IsBlind (I : Vm → Type 0) : Type 0 where
  pub heap : (vm : Vm) (h : Heap) → I vm → I (record vm { heap = h })
  pub globals : (vm : Vm) (g : Globals) → I vm → I (record vm { globals = g })

module _ {I : Vm → Type 0} (blind : IsBlind I) where
  pub put_heap-Keeps : (h : Heap) → Keeps I (put_heap h)
  put_heap-Keeps h vm i = returned (blind.heap vm h i)

  pub put_globals-Keeps : (g : Globals) → Keeps I (put_globals g)
  put_globals-Keeps g vm i = returned (blind.globals vm g i)

  pub gc_malloc-Keeps : (h : Host) → Keeps I (gc_malloc h)
  unfolding gc_malloc
  gc_malloc-Keeps h vm i = returned (blind.heap _ _ i)

  pub gc_malloc_unchecked-Keeps : (h : Host) → Keeps I (gc_malloc_unchecked h)
  unfolding gc_malloc_unchecked
  gc_malloc_unchecked-Keeps h vm i =
      search (Ends-bind, gc_malloc-Keeps, Ends-if, by_crash, returned) depth 12

  pub gc_malloc_checked-Keeps : (h : Host) → Keeps I (gc_malloc_checked h)
  unfolding gc_malloc_checked
  gc_malloc_checked-Keeps h vm i =
      search (Ends-bind, gc_malloc-Keeps, Ends-if, by_panic, returned) depth 12

  pub deref_object-Keeps : (p : Ptr) → Keeps I (deref_object p)
  unfolding deref_object
  deref_object-Keeps p vm i = Ends-found (vm.heap.objects p) vm i

  pub deref_scope-Keeps : (p : Ptr) → Keeps I (deref_scope p)
  unfolding deref_scope
  deref_scope-Keeps p vm i = Ends-found (vm.heap.scopes p) vm i

  pub deref_function-Keeps : (p : Ptr) → Keeps I (deref_function p)
  unfolding deref_function
  deref_function-Keeps p vm i = Ends-found (vm.heap.functions p) vm i

  pub deref_box-Keeps : (p : Ptr) → Keeps I (deref_box p)
  unfolding deref_box
  deref_box-Keeps p vm i = Ends-found (vm.heap.boxes p) vm i

  pub deref_module-Keeps : (p : Ptr) → Keeps I (deref_module p)
  unfolding deref_module
  deref_module-Keeps p vm i = Ends-found (vm.heap.modules p) vm i

  pub deref_bundle-Keeps : (p : Ptr) → Keeps I (deref_bundle p)
  unfolding deref_bundle
  deref_bundle-Keeps p vm i = Ends-found (vm.heap.bundles p) vm i

  pub deref_string-Keeps : (p : Ptr) → Keeps I (deref_string p)
  unfolding deref_string
  deref_string-Keeps p vm i = Ends-found (vm.heap.strings p) vm i

  pub put_object-Keeps : (p : Ptr) (o : JsObject) → Keeps I (put_object p o)
  unfolding put_object
  put_object-Keeps p o vm i = put_heap-Keeps _ vm i

  pub put_scope-Keeps : (p : Ptr) (s : Scope) → Keeps I (put_scope p s)
  unfolding put_scope
  put_scope-Keeps p s vm i = put_heap-Keeps _ vm i

  pub put_function-Keeps : (p : Ptr) (f : JsFunction) → Keeps I (put_function p f)
  unfolding put_function
  put_function-Keeps p f vm i = put_heap-Keeps _ vm i

  pub put_module-Keeps : (p : Ptr) (m : JsModule) → Keeps I (put_module p m)
  unfolding put_module
  put_module-Keeps p m vm i = put_heap-Keeps _ vm i

  pub put_bundle-Keeps : (p : Ptr) (b : JsBundle) → Keeps I (put_bundle p b)
  unfolding put_bundle
  put_bundle-Keeps p b vm i = put_heap-Keeps _ vm i

  pub put_string-Keeps : (p : Ptr) (s : Str) → Keeps I (put_string p s)
  unfolding put_string
  put_string-Keeps p s vm i = put_heap-Keeps _ vm i

  pub init_string-Keeps : (h : Host) (s : Str) → Keeps I (init_string h s)
  unfolding init_string
  init_string-Keeps h s vm i =
      search (keeps_rules, gc_malloc_unchecked-Keeps, put_string-Keeps) depth 12
