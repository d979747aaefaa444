-- ===== src/Object/Keeps.antt =====
-- Objects live in the heap: their operations keep every invariant of the registers and the stack
-- that the calls of getters and setters keep.
use atomix_js.Prelude.{ℕ, zero, suc, Option, none, some, Str, List}
use atomix_js.Value.{JsValue}
use atomix_js.Dict.{dict_get, dict_get_by_symbol}
use atomix_js.Vm.{Vm, Ptr, JsObject}
use atomix_js.Vm.Exec.{Exec, Host}
use atomix_js.Vm.Keeps.{
  Keeps, IsBlind, keeps_rules, Ends-bind, by_fuel, gc_malloc-Keeps, gc_malloc_unchecked-Keeps,
  deref_object-Keeps, deref_box-Keeps, put_object-Keeps, put_globals-Keeps,
}
use atomix_js.Scope.Keeps.{new_dict-Keeps}
use atomix_js.Object.{
  Caller, object_create_object, call_setter, set_found, object_set_property, set_symbol_found,
  object_set_property_with_symbol, read_property, get_found, up_prototype, object_get_property,
  object_get_property_by_symbol, object_get_object_prototype, object_get_array_prototype,
  object_get_function_prototype, object_get_symbol_prototype,
}

module _ {I : Vm → Type 0} (blind : IsBlind I) where
  ruleset object_rules = (
    gc_malloc-Keeps, gc_malloc_unchecked-Keeps, deref_object-Keeps, deref_box-Keeps,
    put_object-Keeps, put_globals-Keeps, new_dict-Keeps,
  )

  pub object_create_object-Keeps : (h : Host) (p : Ptr) → Keeps I (object_create_object h p)
  unfolding object_create_object
  object_create_object-Keeps h p vm i = search (keeps_rules, object_rules) depth 12

  pub object_get_object_prototype-Keeps : (h : Host) → Keeps I (object_get_object_prototype h)
  unfolding object_get_object_prototype
  object_get_object_prototype-Keeps h vm i =
      search (keeps_rules, object_rules, object_create_object-Keeps) depth 14

  pub object_get_array_prototype-Keeps : (h : Host) → Keeps I (object_get_array_prototype h)
  unfolding object_get_array_prototype
  object_get_array_prototype-Keeps h vm i =
      search
        (keeps_rules, object_rules, object_create_object-Keeps, object_get_object_prototype-Keeps)
        depth 14

  pub object_get_function_prototype-Keeps : (h : Host) → Keeps I (object_get_function_prototype h)
  unfolding object_get_function_prototype
  object_get_function_prototype-Keeps h vm i =
      search
        (keeps_rules, object_rules, object_create_object-Keeps, object_get_object_prototype-Keeps)
        depth 14

  pub object_get_symbol_prototype-Keeps : (h : Host) → Keeps I (object_get_symbol_prototype h)
  unfolding object_get_symbol_prototype
  object_get_symbol_prototype-Keeps h vm i =
      search
        (keeps_rules, object_rules, object_create_object-Keeps, object_get_object_prototype-Keeps)
        depth 14

  module _ (call : Caller)
      (kept : (f : Ptr) (this : JsValue) (args : List JsValue) → Keeps I (call f this args)) where
    read_property-Keeps : (obj : Ptr) (v : JsValue) → Keeps I (read_property call obj v)
    unfolding read_property
    read_property-Keeps obj v vm i = search (keeps_rules, object_rules, kept) depth 12

    get_found-Keeps :
        (obj : Ptr) (o : Option JsValue) {up : Exec JsValue}
        → Keeps I up
        → Keeps I (get_found call obj o up)
    unfolding get_found
    get_found-Keeps obj (some v) k vm i = read_property-Keeps obj v vm i
    get_found-Keeps obj none k vm i = k vm i

    up_prototype-Keeps :
        (obj : Ptr) (o : JsObject) {up : Exec JsValue}
        → Keeps I up
        → Keeps I (up_prototype obj o up)
    unfolding up_prototype
    up_prototype-Keeps obj o k vm i = search (keeps_rules) depth 8

    pub object_get_property-Keeps :
        (fuel : ℕ) (obj : Ptr) (key : Str) → Keeps I (object_get_property call fuel obj key)
    unfolding object_get_property
    object_get_property-Keeps zero obj key vm i = by_fuel
    object_get_property-Keeps (suc fuel) obj key vm i =
        Ends-bind (deref_object-Keeps blind obj vm i) (λ o.
          get_found-Keeps obj (dict_get o.properties key)
            (up_prototype-Keeps obj o (object_get_property-Keeps fuel o.prototype key)))

    pub by_symbol-Keeps :
        (fuel : ℕ) (obj : Ptr) (s : ℕ) → Keeps I (object_get_property_by_symbol call fuel obj s)
    unfolding object_get_property_by_symbol
    by_symbol-Keeps zero obj s vm i = by_fuel
    by_symbol-Keeps (suc fuel) obj s vm i = Ends-bind (deref_object-Keeps blind obj vm i) (λ o.
        get_found-Keeps obj (dict_get_by_symbol o.properties s)
          (up_prototype-Keeps obj o (by_symbol-Keeps fuel o.prototype s)))

    module _ (h : Host) where
      call_setter-Keeps : (obj : Ptr) (prop v : JsValue) → Keeps I (call_setter h call obj prop v)
      unfolding call_setter
      call_setter-Keeps obj prop v vm i = search (keeps_rules, object_rules, kept) depth 12

      set_found-Keeps :
          (obj : Ptr) (o : JsObject) (key : Str) (v : JsValue) (old : Option JsValue)
          → Keeps I (set_found h call obj o key v old)
      unfolding set_found
      set_found-Keeps obj o key v (some prop) vm i =
          search (keeps_rules, object_rules, call_setter-Keeps) depth 12
      set_found-Keeps obj o key v none vm i = search (keeps_rules, object_rules) depth 12

      pub object_set_property-Keeps :
          (obj : Ptr) (key : Str) (v : JsValue) → Keeps I (object_set_property h call obj key v)
      unfolding object_set_property
      object_set_property-Keeps obj key v vm i =
          search (keeps_rules, object_rules, set_found-Keeps) depth 12

      set_symbol_found-Keeps :
          (obj : Ptr) (o : JsObject) (s : ℕ) (v : JsValue) (old : Option JsValue)
          → Keeps I (set_symbol_found h call obj o s v old)
      unfolding set_symbol_found
      set_symbol_found-Keeps obj o s v (some prop) vm i =
          search (keeps_rules, object_rules, call_setter-Keeps) depth 12
      set_symbol_found-Keeps obj o s v none vm i = search (keeps_rules, object_rules) depth 12

      pub with_symbol-Keeps :
          (obj : Ptr) (s : ℕ) (v : JsValue)
          → Keeps I (object_set_property_with_symbol h call obj s v)
      unfolding object_set_property_with_symbol
      with_symbol-Keeps obj s v vm i =
          search (keeps_rules, object_rules, set_symbol_found-Keeps) depth 12
