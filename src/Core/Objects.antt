-- ===== src/Core/Objects.antt =====
-- The functions of `Object`, `Function` and `Symbol` in modules/core/core.c.
use atomix_js.Prelude.{not, ◌&&◌, ◌||◌, List, [], ◌∷◌, if◌then◌else◌}
use atomix_js.Value.{
  JsValue, js_func, js_object, js_string, has_type, value_object, value_string, value_symbol,
  value_undefined,
}
use atomix_js.Vm.{Ptr}
use atomix_js.Vm.Exec.{
  Exec, pure, ◌>>=◌, ◌>>◌, Host, deref_object, deref_function, put_object, init_string,
}
use atomix_js.Scope.{chain_fuel}
use atomix_js.Object.{
  Caller, object_create_object, object_get_object_prototype, object_get_property,
  object_get_symbol_prototype, object_set_property,
}
use atomix_js.Function.{text_prototype}
use atomix_js.Symbol.{text_description}
use atomix_js.Text.{value_to_string}

unfoldable pub object : JsValue → List JsValue → Exec JsValue
object this args = pure value_undefined

unfoldable pub function : JsValue → List JsValue → Exec JsValue
function this args = pure value_undefined

-- The object of an object or of a function.
unfoldable pub base_object : JsValue → Exec Ptr
base_object v =
    if has_type v js_object then pure v.value else do f ← deref_function v.value; pure f.base

unfoldable pub set_prototype_of : JsValue → List JsValue → Exec JsValue
set_prototype_of this (a ∷ b ∷ args) =
    if (not (has_type a js_object) && not (has_type a js_func))
      || (not (has_type b js_object) && not (has_type b js_func))
    then pure value_undefined
    else do
      target ← base_object a
      prototype ← base_object b
      o ← deref_object target
      put_object target (record o { prototype = prototype })
      pure value_undefined
set_prototype_of this _ = pure value_undefined

module _ (h : Host) where
  unfoldable pub create_plain : Exec JsValue
  create_plain = do
    prototype ← object_get_object_prototype h
    p ← object_create_object h prototype
    pure (value_object p)

  unfoldable pub create : JsValue → List JsValue → Exec JsValue
  create this [] = create_plain
  create this (a ∷ args) =
      if not (has_type a js_object)
      then create_plain
      else do p ← object_create_object h a.value; pure (value_object p)

  module _ (invoke : Caller) where
    unfoldable pub construct : Ptr → JsValue → List JsValue → Exec JsValue
    construct constructor prototype args =
        if not (has_type prototype js_object) then pure value_undefined else do
          obj ← object_create_object h prototype.value
          return_value ← invoke constructor (value_object obj) args
          if has_type return_value js_object then pure return_value else pure (value_object obj)

    unfoldable pub instantiate : JsValue → List JsValue → Exec JsValue
    instantiate this [] = pure value_undefined
    instantiate this (a ∷ args) = if not (has_type a js_func) then pure value_undefined else do
      constructor ← deref_function a.value
      fuel ← chain_fuel
      prototype ← object_get_property invoke fuel constructor.base text_prototype
      construct a.value prototype args

    unfoldable pub call_this : Ptr → List JsValue → Exec JsValue
    call_this f [] = invoke f value_undefined []
    call_this f (a ∷ args) = invoke f a args

    unfoldable pub call : JsValue → List JsValue → Exec JsValue
    call this args =
        if not (has_type this js_func) then pure value_undefined else call_this this.value args

    unfoldable pub describe : Ptr → List JsValue → Exec (Unit {0})
    describe p [] = pure tt
    describe p (a ∷ args) =
        if has_type a js_string
        then (do
          key ← init_string h text_description
          object_set_property h invoke p text_description a)
        else do
          text ← value_to_string h a
          key ← init_string h text_description
          object_set_property h invoke p text_description (value_string text)

    unfoldable pub symbol : JsValue → List JsValue → Exec JsValue
    symbol this args = do
      prototype ← object_get_symbol_prototype h
      p ← object_create_object h prototype
      describe p args
      pure (value_symbol p)
