-- ===== src/Object.antt =====
-- core/object.c: objects as dictionaries with a prototype. Getters and setters are called through
-- `call`, the `api_call_function` of core/api.c.
pub mod Keeps
pub mod Prototypes
pub mod Succeeds
use atomix_js.Prelude.{
  ℕ, zero, suc, true, false, ◌||◌, Str, ◌==◌, if◌then◌else◌, List, [], ◌∷◌, none, some, Option,
}
use atomix_js.Prelude.Result.{no_setter, no_getter}
use atomix_js.Value.{JsValue, js_gs_box, has_type, value_object, value_undefined}
use atomix_js.Dict.{
  dict_get, dict_get_by_symbol, dict_add, dict_add_with_symbol, dict_update,
  dict_update_with_symbol,
}
use atomix_js.Vm.{Ptr, null, JsObject}
use atomix_js.Vm.Exec.{
  Exec, ret, put_globals, exhausted, pure, raise, lift, ◌>>=◌, ◌>>◌, get_vm, Host, gc_malloc,
  gc_malloc_unchecked, deref_object, deref_box, put_object,
}
use atomix_js.Scope.{new_dict}

abbrev pub object_bucket_size : ℕ
object_bucket_size = 16

-- A function, `this` and the arguments.
abbrev pub Caller : Type 0
Caller = Ptr → JsValue → List JsValue → Exec JsValue

module _ (h : Host) where
  unfoldable pub object_create_object : Ptr → Exec Ptr
  object_create_object prototype = do
    p ← gc_malloc_unchecked h
    properties ← new_dict h object_bucket_size
    put_object p (record { prototype = prototype; properties = properties })
    pure p

  -- The setter of an accessor property.
  unfoldable pub call_setter : Caller → Ptr → JsValue → JsValue → Exec (Unit {0})
  call_setter call obj prop value = do
    box ← deref_box prop.value
    if box.setter == null
        then raise no_setter
        else call box.setter (value_object obj) (value ∷ []) >>= λ _. pure tt

  -- What is done with the property that was found, or with none.
  unfoldable pub set_found :
      Caller → Ptr → JsObject → Str → JsValue → Option JsValue → Exec (Unit {0})
  set_found call obj o key value (some prop) =
      if has_type prop js_gs_box
      then call_setter call obj prop value
      else put_object obj (record o { properties = (dict_update o.properties key value).1 })
  set_found call obj o key value none = do
    entry ← gc_malloc h
    properties ← lift (dict_add entry o.properties key value)
    put_object obj (record o { properties = properties })

  unfoldable pub object_set_property : Caller → Ptr → Str → JsValue → Exec (Unit {0})
  object_set_property call obj key value = do
    o ← deref_object obj
    set_found call obj o key value (dict_get o.properties key)

  unfoldable pub set_symbol_found :
      Caller → Ptr → JsObject → ℕ → JsValue → Option JsValue → Exec (Unit {0})
  set_symbol_found call obj o symbol value (some prop) =
      if has_type prop js_gs_box
      then call_setter call obj prop value
      else put_object obj
          (record o { properties = (dict_update_with_symbol o.properties symbol value).1 })
  set_symbol_found call obj o symbol value none = do
    entry ← gc_malloc h
    properties ← lift (dict_add_with_symbol entry o.properties symbol value)
    put_object obj (record o { properties = properties })

  unfoldable pub object_set_property_with_symbol : Caller → Ptr → ℕ → JsValue → Exec (Unit {0})
  object_set_property_with_symbol call obj symbol value = do
    o ← deref_object obj
    set_symbol_found call obj o symbol value (dict_get_by_symbol o.properties symbol)

-- What a property that was found gives: the getter's result, or the value.
unfoldable pub read_property : Caller → Ptr → JsValue → Exec JsValue
read_property call obj value =
    if has_type value js_gs_box
    then (do
      box ← deref_box value.value
      if box.getter == null then raise no_getter else call box.getter (value_object obj) [])
    else pure value

unfoldable pub get_found : Caller → Ptr → Option JsValue → Exec JsValue → Exec JsValue
get_found call obj (some value) up = read_property call obj value
get_found call obj none up = up

-- The walk ends at an object with no prototype, or that is its own.
unfoldable pub up_prototype : Ptr → JsObject → Exec JsValue → Exec JsValue
up_prototype obj o up =
    if o.prototype == null || o.prototype == obj then pure value_undefined else up

unfoldable pub object_get_property : Caller → ℕ → Ptr → Str → Exec JsValue
object_get_property call zero obj key = exhausted
object_get_property call (suc fuel) obj key = do
  o ← deref_object obj
  get_found call obj (dict_get o.properties key)
      (up_prototype obj o (object_get_property call fuel o.prototype key))

unfoldable pub object_get_property_by_symbol : Caller → ℕ → Ptr → ℕ → Exec JsValue
object_get_property_by_symbol call zero obj symbol = exhausted
object_get_property_by_symbol call (suc fuel) obj symbol = do
  o ← deref_object obj
  get_found call obj (dict_get_by_symbol o.properties symbol)
      (up_prototype obj o (object_get_property_by_symbol call fuel o.prototype symbol))

abbrev set_object_prototype : Ptr → Exec (Unit {0})
set_object_prototype p vm = put_globals (record vm.globals { object_prototype = p }) vm

abbrev set_array_prototype : Ptr → Exec (Unit {0})
set_array_prototype p vm = put_globals (record vm.globals { array_prototype = p }) vm

abbrev set_function_prototype : Ptr → Exec (Unit {0})
set_function_prototype p vm = put_globals (record vm.globals { function_prototype = p }) vm

abbrev set_symbol_prototype : Ptr → Exec (Unit {0})
set_symbol_prototype p vm = put_globals (record vm.globals { symbol_prototype = p }) vm

-- The prototype objects are created at the first use, and kept in static variables.
module _ (h : Host) where
  unfoldable pub object_get_object_prototype : Exec Ptr
  object_get_object_prototype = do
    vm ← get_vm
    if vm.globals.object_prototype == null
        then (do
          p ← object_create_object h null
          set_object_prototype p
          o ← deref_object p
          put_object p (record o { prototype = p })
          pure p)
        else pure vm.globals.object_prototype

  unfoldable pub object_get_array_prototype : Exec Ptr
  object_get_array_prototype = do
    vm ← get_vm
    if vm.globals.array_prototype == null
        then (do
          parent ← object_get_object_prototype
          p ← object_create_object h parent
          set_array_prototype p
          pure p)
        else pure vm.globals.array_prototype

  unfoldable pub object_get_function_prototype : Exec Ptr
  object_get_function_prototype = do
    vm ← get_vm
    if vm.globals.function_prototype == null
        then (do
          parent ← object_get_object_prototype
          p ← object_create_object h parent
          set_function_prototype p
          pure p)
        else pure vm.globals.function_prototype

  unfoldable pub object_get_symbol_prototype : Exec Ptr
  object_get_symbol_prototype = do
    vm ← get_vm
    if vm.globals.symbol_prototype == null
        then (do
          parent ← object_get_object_prototype
          p ← object_create_object h parent
          set_symbol_prototype p
          pure p)
        else pure vm.globals.symbol_prototype
