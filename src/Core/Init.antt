-- ===== src/Core/Init.antt =====
-- `core_init` of modules/core/core.c: the names that the core module declares in a scope.
use atomix_js.Prelude.{Str, [], ◌∷◌}
use atomix_js.Value.{JsValue, value_function, value_object}
use atomix_js.Vm.{Ptr}
use atomix_js.Vm.Exec.{
  Exec, ◌>>=◌, ◌>>◌, Host, init_string, deref_function, deref_object, put_object,
}
use atomix_js.Scope.{scope_declare}
use atomix_js.Object.{
  Caller, object_create_object, object_get_object_prototype, object_get_array_prototype,
  object_get_function_prototype, object_get_symbol_prototype, object_set_property,
}
use atomix_js.Function.{function_create_native_function}
use atomix_js.Symbol.{symbol_to_primitive}
use atomix_js.Core.Table.{CoreFunction, pointer_to}

abbrev pub key_print : Str
key_print = b'p' ∷ b'r' ∷ b'i' ∷ b'n' ∷ b't' ∷ []

abbrev pub key_module : Str
key_module = b'M' ∷ b'o' ∷ b'd' ∷ b'u' ∷ b'l' ∷ b'e' ∷ []

abbrev pub key_get_export_obj : Str
key_get_export_obj =
    b'g' ∷ b'e' ∷ b't' ∷ b'E' ∷ b'x' ∷ b'p' ∷ b'o' ∷ b'r' ∷ b't' ∷ b'O' ∷ b'b' ∷ b'j' ∷ []

abbrev pub key_import_module : Str
key_import_module =
    b'i' ∷ b'm' ∷ b'p' ∷ b'o' ∷ b'r' ∷ b't' ∷ b'M' ∷ b'o' ∷ b'd' ∷ b'u' ∷ b'l' ∷ b'e' ∷ []

abbrev pub key_object_name : Str
key_object_name = b'O' ∷ b'b' ∷ b'j' ∷ b'e' ∷ b'c' ∷ b't' ∷ []

abbrev pub key_instantiate : Str
key_instantiate = b'i' ∷ b'n' ∷ b's' ∷ b't' ∷ b'a' ∷ b'n' ∷ b't' ∷ b'i' ∷ b'a' ∷ b't' ∷ b'e' ∷ []

abbrev pub key_create : Str
key_create = b'c' ∷ b'r' ∷ b'e' ∷ b'a' ∷ b't' ∷ b'e' ∷ []

abbrev pub key_set_prototype_of : Str
key_set_prototype_of =
    b's' ∷ b'e' ∷ b't' ∷ b'P' ∷ b'r' ∷ b'o' ∷ b't' ∷ b'o' ∷ b't' ∷ b'y' ∷ b'p' ∷ b'e' ∷ b'O' ∷ b'f'
    ∷ []

abbrev pub key_array : Str
key_array = b'A' ∷ b'r' ∷ b'r' ∷ b'a' ∷ b'y' ∷ []

abbrev pub key_is_array : Str
key_is_array = b'i' ∷ b's' ∷ b'A' ∷ b'r' ∷ b'r' ∷ b'a' ∷ b'y' ∷ []

abbrev pub key_function_name : Str
key_function_name = b'F' ∷ b'u' ∷ b'n' ∷ b'c' ∷ b't' ∷ b'i' ∷ b'o' ∷ b'n' ∷ []

abbrev pub key_call : Str
key_call = b'c' ∷ b'a' ∷ b'l' ∷ b'l' ∷ []

abbrev pub key_symbol_name : Str
key_symbol_name = b'S' ∷ b'y' ∷ b'm' ∷ b'b' ∷ b'o' ∷ b'l' ∷ []

abbrev pub key_to_primitive : Str
key_to_primitive = b't' ∷ b'o' ∷ b'P' ∷ b'r' ∷ b'i' ∷ b'm' ∷ b'i' ∷ b't' ∷ b'i' ∷ b'v' ∷ b'e' ∷ []

-- `obj->prototype = prototype`
unfoldable pub set_prototype : Ptr → Ptr → Exec (Unit {0})
set_prototype p prototype = do o ← deref_object p; put_object p (record o { prototype = prototype })

module _ (h : Host) where
  unfoldable pub make : CoreFunction → Exec Ptr
  make f = function_create_native_function h (pointer_to f)

  -- `scope_declare(scope, init_string(name), value)`
  unfoldable pub declare : Ptr → Str → JsValue → Exec (Unit {0})
  declare scope name value = do key ← init_string h name; scope_declare h scope name value

  module _ (invoke : Caller) where
    -- `object_set_property(vm, obj, init_string(name), value)`
    unfoldable pub set_key : Ptr → Str → JsValue → Exec (Unit {0})
    set_key p name value = do key ← init_string h name; object_set_property h invoke p name value

    unfoldable pub add_function : Ptr → Str → CoreFunction → Exec (Unit {0})
    add_function p name f = do g ← make f; set_key p name (value_function g)

    unfoldable pub init_helper : Ptr → Exec (Unit {0})
    init_helper scope = do
      print ← make CoreFunction.print
      declare scope key_print (value_function print)

    unfoldable pub init_module : Ptr → Exec (Unit {0})
    init_module scope = do
      parent ← object_get_object_prototype h
      p ← object_create_object h parent
      add_function p key_get_export_obj CoreFunction.module_get_export_obj
      add_function p key_import_module CoreFunction.module_import_module
      declare scope key_module (value_object p)

    unfoldable pub init_object : Ptr → Exec (Unit {0})
    init_object scope = do
      object ← make CoreFunction.object
      f ← deref_function object
      add_function f.base key_instantiate CoreFunction.instantiate
      add_function f.base key_create CoreFunction.create
      add_function f.base key_set_prototype_of CoreFunction.set_prototype_of
      declare scope key_object_name (value_function object)

    unfoldable pub init_array : Ptr → Exec (Unit {0})
    init_array scope = do
      array ← make CoreFunction.array
      prototype ← object_get_array_prototype h
      f ← deref_function array
      set_prototype f.base prototype
      add_function f.base key_is_array CoreFunction.is_array
      declare scope key_array (value_function array)

    -- `call` goes into the prototype of functions.
    unfoldable pub init_function : Ptr → Exec (Unit {0})
    init_function scope = do
      function ← make CoreFunction.function
      prototype ← object_get_function_prototype h
      f ← deref_function function
      set_prototype f.base prototype
      declare scope key_function_name (value_function function)
      invoker ← make CoreFunction.call
      base ← deref_object f.base
      set_key base.prototype key_call (value_function invoker)

    unfoldable pub init_symbol : Ptr → Exec (Unit {0})
    init_symbol scope = do
      symbol ← make CoreFunction.symbol
      prototype ← object_get_symbol_prototype h
      f ← deref_function symbol
      set_prototype f.base prototype
      value ← symbol_to_primitive h invoke
      set_key f.base key_to_primitive value
      declare scope key_symbol_name (value_function symbol)

    unfoldable pub core_init : Ptr → Exec (Unit {0})
    core_init scope = do
      init_helper scope
      init_module scope
      init_object scope
      init_array scope
      init_function scope
      init_symbol scope
