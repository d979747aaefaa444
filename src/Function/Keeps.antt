-- ===== src/Function/Keeps.antt =====
-- Creating a function keeps every invariant of the registers and the stack.
use atomix_js.Prelude.{ℕ, List}
use atomix_js.Value.{JsValue}
use atomix_js.Vm.{Vm, Ptr}
use atomix_js.Vm.Exec.{Host}
use atomix_js.Vm.Keeps.{
  Keeps, IsBlind, keeps_rules, by_crash, gc_malloc_unchecked-Keeps, put_function-Keeps,
}
use atomix_js.Scope.Keeps.{scope_create_scope-Keeps}
use atomix_js.Object.Keeps.{
  object_create_object-Keeps, object_get_object_prototype-Keeps,
  object_get_function_prototype-Keeps, object_set_property-Keeps,
}
use atomix_js.Function.{
  no_machine, tie_prototype, function_create_native_function, function_create_function,
}

module _ {I : Vm → Type 0} (blind : IsBlind I) (h : Host) where
  no_machine-Keeps :
      (f : Ptr) (this : JsValue) (args : List JsValue) → Keeps I (no_machine f this args)
  no_machine-Keeps f this args vm i = by_crash

  ruleset function_rules = (
    gc_malloc_unchecked-Keeps, put_function-Keeps, scope_create_scope-Keeps,
    object_create_object-Keeps, object_get_object_prototype-Keeps,
    object_get_function_prototype-Keeps, object_set_property-Keeps, no_machine-Keeps,
  )

  tie_prototype-Keeps : (f base : Ptr) → Keeps I (tie_prototype h f base)
  unfolding tie_prototype
  tie_prototype-Keeps f base vm i = search (keeps_rules, function_rules) depth 20

  pub function_create_function-Keeps :
      (s m : Ptr) (a b : ℕ) → Keeps I (function_create_function h s m a b)
  unfolding function_create_function
  function_create_function-Keeps s m a b vm i =
      search (keeps_rules, function_rules, tie_prototype-Keeps) depth 20

  pub function_create_native_function-Keeps :
      (n : ℕ) → Keeps I (function_create_native_function h n)
  unfolding function_create_native_function
  function_create_native_function-Keeps n vm i =
      search (keeps_rules, function_rules, tie_prototype-Keeps) depth 20
