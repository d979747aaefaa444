-- ===== src/Core/Keeps.antt =====
-- The native functions of the core module keep every invariant of the registers and the stack that
-- the calls and the imports that they make keep.
use atomix_js.Prelude.{ℕ, zero, suc, ◌+◌, List, [], ◌∷◌, Str, Option, none, some}
use atomix_js.Value.{JsValue, JsValueType, js_string, js_gs_box, js_double}
use atomix_js.Vm.{Vm, Ptr, JsModule}
use atomix_js.Vm.Exec.{Host}
use atomix_js.Vm.Keeps.{
  Keeps, IsBlind, keeps_rules, returned, by_crash, Ends-bind, put_globals-Keeps, deref_string-Keeps,
  init_string-Keeps, deref_module-Keeps, put_module-Keeps, deref_object-Keeps, put_object-Keeps,
  deref_function-Keeps,
}
use atomix_js.Scope.{chain_fuel}
use atomix_js.Object.{Caller}
use atomix_js.Object.Keeps.{
  object_create_object-Keeps, object_get_object_prototype-Keeps, object_get_array_prototype-Keeps,
  object_get_symbol_prototype-Keeps, object_set_property-Keeps, object_get_property-Keeps,
}
use atomix_js.Text.Keeps.{value_to_string-Keeps, value_is_array-Keeps}
use atomix_js.Bundle.Keeps.{bundle_get_module-Keeps}
use atomix_js.Execution.Run.{Importer}
use atomix_js.Core.Table.{CoreFunction, function_at}
use atomix_js.Core.{run_core, run_at, core_natives}
use atomix_js.Core.Arrays
use atomix_js.Core.Modules
use atomix_js.Core.Objects
use atomix_js.Core.Print

module _ {I : Vm → Type 0} (blind : IsBlind I) (h : Host) where
  chain_fuel-Keeps : Keeps I chain_fuel
  chain_fuel-Keeps vm i = returned i

  ruleset core_rules = (
    keeps_rules, deref_string-Keeps, init_string-Keeps, deref_module-Keeps, put_module-Keeps,
    deref_object-Keeps, put_object-Keeps, deref_function-Keeps, object_create_object-Keeps,
    object_get_object_prototype-Keeps, object_get_array_prototype-Keeps,
    object_get_symbol_prototype-Keeps, value_to_string-Keeps, chain_fuel-Keeps,
  )

  print_line-Keeps : (s : Str) → Keeps I (Print.print_line s)
  unfolding Print.print_line
  print_line-Keeps s vm i = put_globals-Keeps blind _ vm i

  print_value_of-Keeps : (t : JsValueType) (v : JsValue) → Keeps I (Print.print_value_of h t v)
  unfolding Print.print_value_of
  print_value_of-Keeps js_string v vm i = search (core_rules, blind, print_line-Keeps) depth 8
  print_value_of-Keeps js_gs_box v vm i = returned i
  print_value_of-Keeps js_double v vm i = print_line-Keeps _ vm i
  print_value_of-Keeps _ v vm i = print_line-Keeps _ vm i

  print_values-Keeps : (vs : List JsValue) → Keeps I (Print.print_values h vs)
  unfolding Print.print_values
  print_values-Keeps [] vm i = returned i
  print_values-Keeps (v ∷ vs) vm i =
      Ends-bind (print_value_of-Keeps v.type v vm i) (λ u. print_values-Keeps vs)

  print-Keeps : (this : JsValue) (args : List JsValue) → Keeps I (Print.print h this args)
  unfolding Print.print
  print-Keeps this [] vm i = Ends-bind (print_line-Keeps [] vm i) (λ u w j. returned j)
  print-Keeps this (v ∷ vs) vm i =
      Ends-bind (print_values-Keeps (v ∷ vs) vm i) (λ u w j. returned j)

  create_plain-Keeps : Keeps I (Objects.create_plain h)
  unfolding Objects.create_plain
  create_plain-Keeps vm i = search (core_rules, blind) depth 12

  create-Keeps : (this : JsValue) (args : List JsValue) → Keeps I (Objects.create h this args)
  unfolding Objects.create
  create-Keeps this [] vm i = create_plain-Keeps vm i
  create-Keeps this (a ∷ args) vm i = search (core_rules, blind, create_plain-Keeps) depth 12

  base_object-Keeps : (v : JsValue) → Keeps I (Objects.base_object v)
  unfolding Objects.base_object
  base_object-Keeps v vm i = search (core_rules, blind) depth 12

  set_prototype_of-Keeps :
      (this : JsValue) (args : List JsValue) → Keeps I (Objects.set_prototype_of this args)
  unfolding Objects.set_prototype_of
  set_prototype_of-Keeps this [] vm i = returned i
  set_prototype_of-Keeps this (a ∷ []) vm i = returned i
  set_prototype_of-Keeps this (a ∷ b ∷ args) vm i =
      search (core_rules, blind, base_object-Keeps) depth 16

  is_array-Keeps : (this : JsValue) (args : List JsValue) → Keeps I (Arrays.is_array h this args)
  unfolding Arrays.is_array
  is_array-Keeps this [] vm i = returned i
  is_array-Keeps this (a ∷ args) vm i = search (core_rules, blind, value_is_array-Keeps) depth 12

  module _ (importer : Importer) (imports : (p : Ptr) → Keeps I (importer p)) where
    run_once-Keeps : (p : Ptr) (m : JsModule) → Keeps I (Modules.run_once h importer p m)
    unfolding Modules.run_once
    run_once-Keeps p m vm i = search (core_rules, blind, imports) depth 12

    import_hashed-Keeps : (hash : ℕ) → Keeps I (Modules.import_hashed h importer hash)
    unfolding Modules.import_hashed
    import_hashed-Keeps hash vm i =
        search (core_rules, blind, bundle_get_module-Keeps, run_once-Keeps) depth 16

    module_import_module-Keeps :
        (this : JsValue) (args : List JsValue)
        → Keeps I (Modules.module_import_module h importer this args)
    unfolding Modules.module_import_module
    module_import_module-Keeps this [] vm i = returned i
    module_import_module-Keeps this (a ∷ []) vm i = returned i
    module_import_module-Keeps this (a ∷ b ∷ args) vm i =
        search (core_rules, import_hashed-Keeps) depth 8

  module _ (invoke : Caller)
      (kept : (f : Ptr) (this : JsValue) (args : List JsValue) → Keeps I (invoke f this args)) where
    construct-Keeps :
        (f : Ptr) (p : JsValue) (args : List JsValue)
        → Keeps I (Objects.construct h invoke f p args)
    unfolding Objects.construct
    construct-Keeps f p args vm i = search (core_rules, blind, kept) depth 12

    instantiate-Keeps :
        (this : JsValue) (args : List JsValue) → Keeps I (Objects.instantiate h invoke this args)
    unfolding Objects.instantiate
    instantiate-Keeps this [] vm i = returned i
    instantiate-Keeps this (a ∷ args) vm i =
        search (core_rules, blind, kept, object_get_property-Keeps, construct-Keeps) depth 12

    call_this-Keeps : (f : Ptr) (args : List JsValue) → Keeps I (Objects.call_this h invoke f args)
    unfolding Objects.call_this
    call_this-Keeps f [] = kept f _ []
    call_this-Keeps f (a ∷ args) = kept f a args

    call-Keeps : (this : JsValue) (args : List JsValue) → Keeps I (Objects.call h invoke this args)
    unfolding Objects.call
    call-Keeps this args vm i = search (core_rules, call_this-Keeps) depth 8

    describe-Keeps : (p : Ptr) (args : List JsValue) → Keeps I (Objects.describe h invoke p args)
    unfolding Objects.describe
    describe-Keeps p [] vm i = returned i
    describe-Keeps p (a ∷ args) vm i =
        search (core_rules, blind, kept, object_set_property-Keeps) depth 16

    symbol-Keeps :
        (this : JsValue) (args : List JsValue) → Keeps I (Objects.symbol h invoke this args)
    unfolding Objects.symbol
    symbol-Keeps this args vm i = search (core_rules, blind, describe-Keeps) depth 16

    set_element-Keeps :
        (p : Ptr) (n : ℕ) (v : JsValue) → Keeps I (Arrays.set_element h invoke p n v)
    unfolding Arrays.set_element
    set_element-Keeps p n v vm i =
        search (core_rules, blind, kept, object_set_property-Keeps) depth 16

    clear_elements-Keeps :
        (n : ℕ) (p : Ptr) (i : ℕ) → Keeps I (Arrays.clear_elements h invoke n p i)
    unfolding Arrays.clear_elements
    clear_elements-Keeps zero p i vm k = returned k
    clear_elements-Keeps (suc n) p i vm k =
        Ends-bind (set_element-Keeps p i _ vm k) (λ u. clear_elements-Keeps n p (i + 1))

    set_elements-Keeps :
        (p : Ptr) (i : ℕ) (vs : List JsValue) → Keeps I (Arrays.set_elements h invoke p i vs)
    unfolding Arrays.set_elements
    set_elements-Keeps p i [] vm k = returned k
    set_elements-Keeps p i (v ∷ vs) vm k =
        Ends-bind (set_element-Keeps p i v vm k) (λ u. set_elements-Keeps p (i + 1) vs)

    set_length-Keeps : (p : Ptr) (v : JsValue) → Keeps I (Arrays.set_length h invoke p v)
    unfolding Arrays.set_length
    set_length-Keeps p v vm k = search (core_rules, blind, kept, object_set_property-Keeps) depth 16

    filled-Keeps : (p : Ptr) (args : List JsValue) → Keeps I (Arrays.filled h invoke p args)
    unfolding Arrays.filled
    filled-Keeps p args vm k = search (core_rules, set_length-Keeps, set_elements-Keeps) depth 16

    sized-Keeps : (p : Ptr) (v : JsValue) → Keeps I (Arrays.sized h invoke p v)
    unfolding Arrays.sized
    sized-Keeps p v vm k = search (core_rules, set_length-Keeps, clear_elements-Keeps) depth 16

    array_of-Keeps : (p : Ptr) (args : List JsValue) → Keeps I (Arrays.array_of h invoke p args)
    unfolding Arrays.array_of
    array_of-Keeps p [] vm k = filled-Keeps p [] vm k
    array_of-Keeps p (a ∷ []) vm k = search (core_rules, filled-Keeps, sized-Keeps) depth 16
    array_of-Keeps p (a ∷ b ∷ args) vm k = filled-Keeps p (a ∷ b ∷ args) vm k

    array-Keeps : (this : JsValue) (args : List JsValue) → Keeps I (Arrays.array h invoke this args)
    unfolding Arrays.array
    array-Keeps this args vm k = search (core_rules, blind, array_of-Keeps) depth 16

  module _ (invoke : Caller) (importer : Importer)
      (kept : (f : Ptr) (this : JsValue) (args : List JsValue) → Keeps I (invoke f this args))
      (imports : (p : Ptr) → Keeps I (importer p)) where
    run_core-Keeps :
        (f : CoreFunction) (this : JsValue) (args : List JsValue)
        → Keeps I (run_core h invoke importer f this args)
    unfolding run_core Modules.module_get_export_obj Objects.object Objects.function
    run_core-Keeps CoreFunction.print this args vm k = print-Keeps this args vm k
    run_core-Keeps CoreFunction.module_get_export_obj this args vm k =
        search (core_rules, blind) depth 8
    run_core-Keeps CoreFunction.module_import_module this args vm k =
        module_import_module-Keeps importer imports this args vm k
    run_core-Keeps CoreFunction.object this args vm k = returned k
    run_core-Keeps CoreFunction.instantiate this args vm k =
        instantiate-Keeps invoke kept this args vm k
    run_core-Keeps CoreFunction.create this args vm k = create-Keeps this args vm k
    run_core-Keeps CoreFunction.set_prototype_of this args vm k =
        set_prototype_of-Keeps this args vm k
    run_core-Keeps CoreFunction.array this args vm k = array-Keeps invoke kept this args vm k
    run_core-Keeps CoreFunction.is_array this args vm k = is_array-Keeps this args vm k
    run_core-Keeps CoreFunction.function this args vm k = returned k
    run_core-Keeps CoreFunction.call this args vm k = call-Keeps invoke kept this args vm k
    run_core-Keeps CoreFunction.symbol this args vm k = symbol-Keeps invoke kept this args vm k

    run_at-Keeps :
        (f : Option CoreFunction) (this : JsValue) (args : List JsValue)
        → Keeps I (run_at h invoke importer f this args)
    unfolding run_at
    run_at-Keeps none this args vm k = by_crash
    run_at-Keeps (some f) this args vm k = run_core-Keeps f this args vm k

    pub core_natives-Keeps :
        (i : ℕ) (this : JsValue) (args : List JsValue)
        → Keeps I (core_natives h invoke importer i this args)
    unfolding core_natives
    core_natives-Keeps i = run_at-Keeps (function_at i)
