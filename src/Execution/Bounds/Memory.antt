-- ===== src/Execution/Bounds/Memory.antt =====
-- The handlers that reach the heap and make no call keep the stack counter within the array.
use atomix_js.Prelude.{ℕ, Str, List}
use atomix_js.Value.{JsValue, JsValueType, js_symbol, js_gs_box}
use atomix_js.Instruction.{Inst}
use atomix_js.Vm.{Ptr}
use atomix_js.Vm.Exec.{Host}
use atomix_js.Vm.Keeps.{
  Ends, Keeps, IsBlind, keeps_rules, returned, by_panic, by_crash, by_fuel, Ends-bind, Ends-lift,
  init_string-Keeps, deref_scope-Keeps, deref_module-Keeps, deref_function-Keeps,
  deref_string-Keeps, put_scope-Keeps,
}
use atomix_js.Scope.Keeps.{
  scope_create_scope-Keeps, scope_set-Keeps, scope_declare-Keeps, scope_get-Keeps,
  scope_contains-Keeps,
}
use atomix_js.Object.{Caller}
use atomix_js.Object.Keeps.{
  object_create_object-Keeps, object_get_object_prototype-Keeps, object_get_array_prototype-Keeps,
  object_set_property-Keeps, with_symbol-Keeps, object_get_property-Keeps, by_symbol-Keeps,
}
use atomix_js.Function.Keeps.{function_create_function-Keeps}
use atomix_js.Text.Keeps.{value_to_string-Keeps}
use atomix_js.Execution.Locals
use atomix_js.Execution.Typeof
use atomix_js.Execution.Objects
use atomix_js.Execution.Bounds.{Fits, Fits-IsBlind, fits_rules, steps_rules, push-Ends, poke-Fits}
use atomix_js.Execution.Bounds.Handlers.{falsy-Fits}

module _ (h : Host) where
  pub load_str-Fits : (n : ℕ) → Keeps Fits (Locals.load_str h n)
  unfolding Locals.load_str
  load_str-Fits n vm f =
      search (fits_rules, Fits-IsBlind, deref_module-Keeps, init_string-Keeps) depth 12

  pub load_key-Fits : (n : ℕ) → Keeps Fits (Locals.load_key h n)
  unfolding Locals.load_key
  load_key-Fits n vm f =
      search (fits_rules, Fits-IsBlind, load_str-Fits, deref_string-Keeps) depth 12

  pub ruleset heap_fits = (
    fits_rules, Fits-IsBlind, load_str-Fits, load_key-Fits, init_string-Keeps, deref_scope-Keeps,
    deref_module-Keeps, deref_function-Keeps, deref_string-Keeps, scope_create_scope-Keeps,
    scope_set-Keeps, scope_declare-Keeps, scope_get-Keeps, scope_contains-Keeps,
    object_create_object-Keeps, object_get_object_prototype-Keeps, object_get_array_prototype-Keeps,
    function_create_function-Keeps, value_to_string-Keeps, falsy-Fits,
  )

  pub declare_function-Fits :
      (i : Inst) (s : Ptr) (v : JsValue) → Keeps Fits (Locals.declare_function h i s v)
  unfolding Locals.declare_function
  declare_function-Fits i s v vm f = search (heap_fits) depth 14

  module _ (i : Inst) where
    pub inst_ld_string-Fits : Keeps Fits (Locals.inst_ld_string h i)
    unfolding Locals.inst_ld_string
    inst_ld_string-Fits vm f = search (heap_fits) depth 20

    pub inst_ld_this-Fits : Keeps Fits (Locals.inst_ld_this h i)
    unfolding Locals.inst_ld_this
    inst_ld_this-Fits vm f = search (heap_fits) depth 20

    pub inst_alloc_store_local-Fits : Keeps Fits (Locals.inst_alloc_store_local h i)
    unfolding Locals.inst_alloc_store_local
    inst_alloc_store_local-Fits vm f = search (steps_rules, heap_fits) depth 24

    pub inst_load_local-Fits : Keeps Fits (Locals.inst_load_local h i)
    unfolding Locals.inst_load_local
    inst_load_local-Fits vm f = search (heap_fits) depth 20

    pub inst_func_decl-Fits : Keeps Fits (Locals.inst_func_decl h i)
    unfolding Locals.inst_func_decl
    inst_func_decl-Fits vm f = search (heap_fits, declare_function-Fits) depth 20

    pub inst_push_scope-Fits : Keeps Fits (Locals.inst_push_scope h i)
    unfolding Locals.inst_push_scope
    inst_push_scope-Fits vm f = search (heap_fits) depth 20

    pub inst_load_arg-Fits : Keeps Fits (Locals.inst_load_arg i)
    unfolding Locals.inst_load_arg
    inst_load_arg-Fits vm f = search (heap_fits) depth 20

    pub inst_pop_scope-Fits : Keeps Fits (Locals.inst_pop_scope i)
    unfolding Locals.inst_pop_scope
    inst_pop_scope-Fits vm f = search (heap_fits) depth 20

    pub inst_jmp-Fits : Keeps Fits (Locals.inst_jmp i)
    unfolding Locals.inst_jmp
    inst_jmp-Fits vm f = search (heap_fits) depth 20

    pub inst_jmp_f-Fits : Keeps Fits (Locals.inst_jmp_f h.platform i)
    unfolding Locals.inst_jmp_f
    inst_jmp_f-Fits vm f = search (heap_fits) depth 20

    pub inst_jmp_t-Fits : Keeps Fits (Locals.inst_jmp_t h.platform i)
    unfolding Locals.inst_jmp_t
    inst_jmp_t-Fits vm f = search (heap_fits) depth 20

    pub inst_arr_alloc-Fits : Keeps Fits (Objects.inst_arr_alloc h i)
    unfolding Objects.inst_arr_alloc
    inst_arr_alloc-Fits vm f = search (heap_fits) depth 20

    pub inst_obj_alloc-Fits : Keeps Fits (Objects.inst_obj_alloc h i)
    unfolding Objects.inst_obj_alloc
    inst_obj_alloc-Fits vm f = search (heap_fits) depth 20

    put_name-Fits : (s : Str) → Keeps Fits (Typeof.put_name h s)
    unfolding Typeof.put_name
    put_name-Fits s vm f = search (heap_fits) depth 20

    put_typeof-Fits : (t : JsValueType) → Keeps Fits (Typeof.put_typeof h t)
    unfolding Typeof.put_typeof
    put_typeof-Fits js_symbol vm f = search (heap_fits) depth 20
    put_typeof-Fits js_gs_box vm f = by_panic
    put_typeof-Fits _ vm f = put_name-Fits _ vm f

    pub inst_typeof-Fits : Keeps Fits (Typeof.inst_typeof h i)
    unfolding Typeof.inst_typeof
    inst_typeof-Fits vm f = search (heap_fits, put_typeof-Fits) depth 20

  target-Fits : (v : JsValue) → Keeps Fits (Objects.target v)
  unfolding Objects.target
  target-Fits v vm f = search (heap_fits) depth 20

  module _ (call : Caller)
      (kept : (g : Ptr) (this : JsValue) (args : List JsValue) → Keeps Fits (call g this args))
      (i : Inst) where
    ruleset property_fits = (
      heap_fits, target-Fits, object_set_property-Keeps, with_symbol-Keeps,
      object_get_property-Keeps, by_symbol-Keeps,
    )

    pub inst_obj_store-Fits : Keeps Fits (Objects.inst_obj_store h call i)
    unfolding Objects.inst_obj_store
    inst_obj_store-Fits vm f = search (property_fits, kept) depth 20

    pub inst_obj_load-Fits : Keeps Fits (Objects.inst_obj_load h call i)
    unfolding Objects.inst_obj_load
    inst_obj_load-Fits vm f = search (property_fits, kept) depth 20

    pub inst_obj_cload-Fits : Keeps Fits (Objects.inst_obj_cload h call i)
    unfolding Objects.inst_obj_cload
    inst_obj_cload-Fits vm f = search (property_fits, kept) depth 20

    pub inst_obj_cstore-Fits : Keeps Fits (Objects.inst_obj_cstore h call i)
    unfolding Objects.inst_obj_cstore
    inst_obj_cstore-Fits vm f = search (property_fits, kept) depth 20

    pub inst_export-Fits : Keeps Fits (Objects.inst_export h call i)
    unfolding Objects.inst_export
    inst_export-Fits vm f = search (property_fits, kept) depth 20
