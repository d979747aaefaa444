-- ===== src/Text.antt =====
-- core/value.c: `value_to_string`, and `value_is_array` with its walk along the prototypes.
pub mod Keeps
use Prim.Native.Nat.{bit_and}
use atomix_js.Prelude.{
  ℕ, zero, suc, Bool, true, false, not, ◌&&◌, Str, [], ◌∷◌, ◌==◌, if◌then◌else◌,
}
use atomix_js.Prelude.Result.{undefined_value_type}
use atomix_js.Value.{
  JsValueType, js_integer, js_double, js_string, js_object, js_func, js_undefined, js_null,
  js_boolean, js_symbol, js_gs_box, JsValue, as_int, has_type, exponent_mask,
}
use atomix_js.Vm.{Ptr}
use atomix_js.Vm.Exec.{
  Exec, pure, raise, exhausted, ◌>>=◌, ◌>>◌, Host, gc_malloc_checked, put_string, init_string,
  deref_object,
}
use atomix_js.Object.{object_get_object_prototype, object_get_array_prototype}

-- The literals of the source, as bytes.
abbrev pub text_nan : Str
text_nan = b'N' ∷ b'a' ∷ b'N' ∷ []

abbrev pub text_true : Str
text_true = b't' ∷ b'r' ∷ b'u' ∷ b'e' ∷ []

abbrev pub text_false : Str
text_false = b'f' ∷ b'a' ∷ b'l' ∷ b's' ∷ b'e' ∷ []

abbrev pub text_null : Str
text_null = b'n' ∷ b'u' ∷ b'l' ∷ b'l' ∷ []

abbrev pub text_undefined : Str
text_undefined = b'u' ∷ b'n' ∷ b'd' ∷ b'e' ∷ b'f' ∷ b'i' ∷ b'n' ∷ b'e' ∷ b'd' ∷ []

abbrev pub text_object : Str
text_object = b'[' ∷ b'O' ∷ b'b' ∷ b'j' ∷ b'e' ∷ b'c' ∷ b't' ∷ b']' ∷ []

abbrev pub text_function : Str
text_function = b'[' ∷ b'F' ∷ b'u' ∷ b'n' ∷ b'c' ∷ b't' ∷ b'i' ∷ b'o' ∷ b'n' ∷ b']' ∷ []

abbrev pub text_symbol : Str
text_symbol = b'[' ∷ b'S' ∷ b'y' ∷ b'm' ∷ b'b' ∷ b'o' ∷ b'l' ∷ b']' ∷ []

module _ (h : Host) where
  unfoldable pub int_to_string : ℕ → Exec Ptr
  int_to_string n = do p ← gc_malloc_checked h; put_string p (h.print_int n); pure p

  unfoldable pub double_to_string : ℕ → Exec Ptr
  double_to_string d =
      if (bit_and d exponent_mask == exponent_mask) && not (bit_and d exponent_mask == 0)
      then init_string h text_nan
      else do p ← gc_malloc_checked h; put_string p (h.print_double d); pure p

  unfoldable pub value_to_string_of : JsValueType → JsValue → Exec Ptr
  value_to_string_of js_integer v = int_to_string (as_int v)
  value_to_string_of js_double v = double_to_string v.value
  value_to_string_of js_boolean v = init_string h (if as_int v == 0 then text_false else text_true)
  value_to_string_of js_null v = init_string h text_null
  value_to_string_of js_undefined v = init_string h text_undefined
  value_to_string_of js_object v = init_string h text_object
  value_to_string_of js_func v = init_string h text_function
  value_to_string_of js_string v = pure v.value
  value_to_string_of js_symbol v = init_string h text_symbol
  value_to_string_of js_gs_box v = raise undefined_value_type

  unfoldable pub value_to_string : JsValue → Exec Ptr
  value_to_string v = value_to_string_of v.type v

  unfoldable pub prototype_walk : ℕ → Ptr → Ptr → Ptr → Exec Bool
  prototype_walk zero object_prototype array_prototype prototype = exhausted
  prototype_walk (suc fuel) object_prototype array_prototype prototype =
      elim (prototype == object_prototype) [
        | true ↦ pure false
        | false ↦ elim (prototype == array_prototype) [
          | true ↦ pure true
          | false ↦ do
            o ← deref_object prototype
            prototype_walk fuel object_prototype array_prototype o.prototype
        ]
      ]

  unfoldable pub value_is_array : ℕ → JsValue → Exec Bool
  value_is_array fuel v = if not (has_type v js_object) then pure false else do
    object_prototype ← object_get_object_prototype h
    array_prototype ← object_get_array_prototype h
    o ← deref_object v.value
    prototype_walk fuel object_prototype array_prototype o.prototype
