-- ===== src/Core/Arrays.antt =====
-- `Array` and `Array.isArray` of modules/core/core.c. A list of arguments is shorter than 2 ^ 31.
use atomix_js.Prelude.{ℕ, zero, suc, ◌+◌, ◌%◌, false, Str, List, [], ◌∷◌, length, if◌then◌else◌}
use atomix_js.Prelude.Word.{u32_mod, is_negative}
use atomix_js.Value.{
  JsValue, js_integer, js_double, has_type, as_int, value_int, value_object, value_undefined,
  value_bool,
}
use atomix_js.Vm.{Ptr}
use atomix_js.Vm.Exec.{Exec, pure, ◌>>=◌, ◌>>◌, Host, deref_string, init_string}
use atomix_js.Scope.{chain_fuel}
use atomix_js.Object.{Caller, object_create_object, object_get_array_prototype, object_set_property}
use atomix_js.Text.{value_to_string, value_is_array}

abbrev pub text_length : Str
text_length = b'l' ∷ b'e' ∷ b'n' ∷ b'g' ∷ b't' ∷ b'h' ∷ []

-- The rounds of `for (int i = 0; i < size; i++)`.
unfoldable pub rounds : ℕ → ℕ
rounds size = if is_negative size then 0 else size

module _ (h : Host) where
  unfoldable pub is_array : JsValue → List JsValue → Exec JsValue
  is_array this [] = pure (value_bool false)
  is_array this (value ∷ args) = do
    fuel ← chain_fuel
    b ← value_is_array h fuel value
    pure (value_bool b)

  module _ (invoke : Caller) where
    unfoldable pub set_element : Ptr → ℕ → JsValue → Exec (Unit {0})
    set_element arr i value = do
      p ← value_to_string h (value_int i)
      key ← deref_string p
      object_set_property h invoke arr key value

    -- Element `i` and the `n - 1` behind it.
    unfoldable pub clear_elements : ℕ → Ptr → ℕ → Exec (Unit {0})
    clear_elements zero arr i = pure tt
    clear_elements (suc n) arr i = set_element arr i value_undefined >> clear_elements n arr (i + 1)

    unfoldable pub set_elements : Ptr → ℕ → List JsValue → Exec (Unit {0})
    set_elements arr i [] = pure tt
    set_elements arr i (value ∷ values) = set_element arr i value >> set_elements arr (i + 1) values

    unfoldable pub set_length : Ptr → JsValue → Exec (Unit {0})
    set_length arr value = do
      key ← init_string h text_length
      object_set_property h invoke arr text_length value

    unfoldable pub filled : Ptr → List JsValue → Exec JsValue
    filled arr args = do
      set_length arr (value_int (length args % u32_mod))
      set_elements arr 0 args
      pure (value_object arr)

    unfoldable pub sized : Ptr → JsValue → Exec JsValue
    sized arr size = do
      set_length arr size
      clear_elements (rounds (as_int size)) arr 0
      pure (value_object arr)

    unfoldable pub array_of : Ptr → List JsValue → Exec JsValue
    array_of arr (size ∷ []) =
        if has_type size js_double
        then pure value_undefined
        else if has_type size js_integer
        then sized arr size
        else filled arr (size ∷ [])
    array_of arr args = filled arr args

    unfoldable pub array : JsValue → List JsValue → Exec JsValue
    array this args = do
      prototype ← object_get_array_prototype h
      arr ← object_create_object h prototype
      array_of arr args
