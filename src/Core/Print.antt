-- ===== src/Core/Print.antt =====
-- `print` of modules/core/core.c. What `printf` writes is added to the texts of the process.
use atomix_js.Prelude.{Str, List, [], ◌∷◌, ◌++◌, ◌==◌, if◌then◌else◌}
use atomix_js.Value.{
  JsValueType, js_integer, js_double, js_string, js_object, js_func, js_undefined, js_null,
  js_boolean, js_symbol, js_gs_box, JsValue, as_int, value_undefined, value_is_nan,
}
use atomix_js.Vm.Exec.{Exec, pure, ◌>>=◌, ◌>>◌, Host, put_globals, deref_string}
use atomix_js.Text.{
  text_nan, text_true, text_false, text_null, text_undefined, text_object, text_function,
  text_symbol,
}

abbrev pub text_infinity : Str
text_infinity = b'I' ∷ b'n' ∷ b'f' ∷ b'i' ∷ b'n' ∷ b'i' ∷ b't' ∷ b'y' ∷ []

abbrev pub newline : Str
newline = 10 ∷ []

-- `printf("%s\n", text)`
unfoldable pub print_line : Str → Exec (Unit {0})
print_line text vm =
    put_globals (record vm.globals { output = (text ++ newline) ∷ vm.globals.output }) vm

module _ (h : Host) where
  unfoldable pub double_text : JsValue → Str
  double_text value =
      if h.platform.feq value.value h.platform.pos_infinity
      then text_infinity
      else if h.platform.feq value.value h.platform.neg_infinity
      then b'-' ∷ text_infinity
      else if value_is_nan value
      then text_nan
      else h.print_fixed value.value

  -- The switch, which has no case for JS_GS_BOX.
  unfoldable pub print_value_of : JsValueType → JsValue → Exec (Unit {0})
  print_value_of js_integer value = print_line (h.print_int (as_int value))
  print_value_of js_double value = print_line (double_text value)
  print_value_of js_string value = do text ← deref_string value.value; print_line text
  print_value_of js_object value = print_line text_object
  print_value_of js_func value = print_line text_function
  print_value_of js_undefined value = print_line text_undefined
  print_value_of js_null value = print_line text_null
  print_value_of js_boolean value = print_line (if as_int value == 0 then text_false else text_true)
  print_value_of js_symbol value = print_line text_symbol
  print_value_of js_gs_box value = pure tt

  unfoldable pub print_values : List JsValue → Exec (Unit {0})
  print_values [] = pure tt
  print_values (value ∷ values) = print_value_of value.type value >> print_values values

  unfoldable pub print : JsValue → List JsValue → Exec JsValue
  print this [] = do print_line []; pure value_undefined
  print this (value ∷ values) = do print_values (value ∷ values); pure value_undefined
