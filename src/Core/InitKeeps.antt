-- ===== src/Core/InitKeeps.antt =====
-- `core_init` keeps every invariant of the registers and the stack that calls keep.
use atomix_js.Prelude.{List, Str}
use atomix_js.Value.{JsValue}
use atomix_js.Vm.{Vm, Ptr}
use atomix_js.Vm.Exec.{Host}
use atomix_js.Vm.Keeps.{
  Keeps, IsBlind, keeps_rules, init_string-Keeps, deref_function-Keeps, deref_object-Keeps,
  put_object-Keeps,
}
use atomix_js.Scope.Keeps.{scope_declare-Keeps}
use atomix_js.Object.{Caller}
use atomix_js.Object.Keeps.{
  object_create_object-Keeps, object_get_object_prototype-Keeps, object_get_array_prototype-Keeps,
  object_get_function_prototype-Keeps, object_get_symbol_prototype-Keeps, object_set_property-Keeps,
}
use atomix_js.Function.Keeps.{function_create_native_function-Keeps}
use atomix_js.Symbol.Keeps.{symbol_to_primitive-Keeps}
use atomix_js.Core.Table.{CoreFunction}
use atomix_js.Core.Init

module _ {I : Vm → Type 0} (blind : IsBlind I) (h : Host) where
  set_prototype-Keeps : (p q : Ptr) → Keeps I (Init.set_prototype p q)
  unfolding Init.set_prototype
  set_prototype-Keeps p q vm i =
      search (keeps_rules, blind, deref_object-Keeps, put_object-Keeps) depth 8

  make-Keeps : (f : CoreFunction) → Keeps I (Init.make h f)
  unfolding Init.make
  make-Keeps f = function_create_native_function-Keeps blind h _

  declare-Keeps : (p : Ptr) (s : Str) (v : JsValue) → Keeps I (Init.declare h p s v)
  unfolding Init.declare
  declare-Keeps p s v vm i =
      search (keeps_rules, blind, init_string-Keeps, scope_declare-Keeps) depth 8

  module _ (invoke : Caller)
      (kept : (f : Ptr) (this : JsValue) (args : List JsValue) → Keeps I (invoke f this args)) where
    set_key-Keeps : (p : Ptr) (s : Str) (v : JsValue) → Keeps I (Init.set_key h invoke p s v)
    unfolding Init.set_key
    set_key-Keeps p s v vm i =
        search (keeps_rules, blind, kept, init_string-Keeps, object_set_property-Keeps) depth 8

    add_function-Keeps :
        (p : Ptr) (s : Str) (f : CoreFunction) → Keeps I (Init.add_function h invoke p s f)
    unfolding Init.add_function
    add_function-Keeps p s f vm i = search (keeps_rules, make-Keeps, set_key-Keeps) depth 8

    init_helper-Keeps : (s : Ptr) → Keeps I (Init.init_helper h invoke s)
    unfolding Init.init_helper
    init_helper-Keeps s vm i = search (keeps_rules, make-Keeps, declare-Keeps) depth 12

    init_module-Keeps : (s : Ptr) → Keeps I (Init.init_module h invoke s)
    unfolding Init.init_module
    init_module-Keeps s vm i =
        search
          (
            keeps_rules, blind, add_function-Keeps, declare-Keeps, object_create_object-Keeps,
            object_get_object_prototype-Keeps,
          )
          depth 20

    init_object-Keeps : (s : Ptr) → Keeps I (Init.init_object h invoke s)
    unfolding Init.init_object
    init_object-Keeps s vm i =
        search
          (keeps_rules, blind, make-Keeps, add_function-Keeps, declare-Keeps, deref_function-Keeps)
          depth 20

    init_array-Keeps : (s : Ptr) → Keeps I (Init.init_array h invoke s)
    unfolding Init.init_array
    init_array-Keeps s vm i =
        search
          (
            keeps_rules, blind, make-Keeps, add_function-Keeps, declare-Keeps, deref_function-Keeps,
            set_prototype-Keeps, object_get_array_prototype-Keeps,
          )
          depth 20

    init_function-Keeps : (s : Ptr) → Keeps I (Init.init_function h invoke s)
    unfolding Init.init_function
    init_function-Keeps s vm i =
        search
          (
            keeps_rules, blind, make-Keeps, set_key-Keeps, declare-Keeps, deref_function-Keeps,
            deref_object-Keeps, set_prototype-Keeps, object_get_function_prototype-Keeps,
          )
          depth 24

    init_symbol-Keeps : (s : Ptr) → Keeps I (Init.init_symbol h invoke s)
    unfolding Init.init_symbol
    init_symbol-Keeps s vm i =
        search
          (
            keeps_rules, blind, kept, make-Keeps, set_key-Keeps, declare-Keeps,
            deref_function-Keeps, set_prototype-Keeps, object_get_symbol_prototype-Keeps,
            symbol_to_primitive-Keeps,
          )
          depth 24

    pub core_init-Keeps : (s : Ptr) → Keeps I (Init.core_init h invoke s)
    unfolding Init.core_init
    core_init-Keeps s vm i =
        search
          (
            keeps_rules, init_helper-Keeps, init_module-Keeps, init_object-Keeps, init_array-Keeps,
            init_function-Keeps, init_symbol-Keeps,
          )
          depth 16
