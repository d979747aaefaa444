-- ===== src/Execution/Typeof.antt =====
-- core/execution.c: `inst_typeof`. The case of a symbol writes its value and falls out of the
-- switch into the PANIC behind it.
use atomix_js.Prelude.{Str, [], ◌∷◌}
use atomix_js.Prelude.Result.{unknown_operand_type}
use atomix_js.Value.{
  JsValueType, js_integer, js_double, js_string, js_object, js_func, js_undefined, js_null,
  js_boolean, js_symbol, js_gs_box, value_string, value_symbol,
}
use atomix_js.Instruction.{Inst}
use atomix_js.Vm.Exec.{Exec, raise, ◌>>=◌, ◌>>◌, Host, peek, poke, need, init_string}

abbrev pub name_number : Str
name_number = b'n' ∷ b'u' ∷ b'm' ∷ b'b' ∷ b'e' ∷ b'r' ∷ []

abbrev pub name_string : Str
name_string = b's' ∷ b't' ∷ b'r' ∷ b'i' ∷ b'n' ∷ b'g' ∷ []

abbrev pub name_object : Str
name_object = b'o' ∷ b'b' ∷ b'j' ∷ b'e' ∷ b'c' ∷ b't' ∷ []

abbrev pub name_function : Str
name_function = b'f' ∷ b'u' ∷ b'n' ∷ b'c' ∷ b't' ∷ b'i' ∷ b'o' ∷ b'n' ∷ []

abbrev pub name_undefined : Str
name_undefined = b'u' ∷ b'n' ∷ b'd' ∷ b'e' ∷ b'f' ∷ b'i' ∷ b'n' ∷ b'e' ∷ b'd' ∷ []

abbrev pub name_boolean : Str
name_boolean = b'b' ∷ b'o' ∷ b'o' ∷ b'l' ∷ b'e' ∷ b'a' ∷ b'n' ∷ []

abbrev pub name_symbol : Str
name_symbol = b's' ∷ b'y' ∷ b'm' ∷ b'b' ∷ b'o' ∷ b'l' ∷ []

module _ (h : Host) where
  unfoldable pub put_name : Str → Exec (Unit {0})
  unfolding poke init_string
  put_name s = do p ← init_string h s; poke 1 (value_string p)

  unfoldable pub put_typeof : JsValueType → Exec (Unit {0})
  unfolding put_name
  put_typeof js_integer = put_name name_number
  put_typeof js_double = put_name name_number
  put_typeof js_string = put_name name_string
  put_typeof js_object = put_name name_object
  put_typeof js_null = put_name name_object
  put_typeof js_func = put_name name_function
  put_typeof js_undefined = put_name name_undefined
  put_typeof js_boolean = put_name name_boolean
  put_typeof js_symbol = do
    p ← init_string h name_symbol
    poke 1 (value_symbol p)
    raise unknown_operand_type
  put_typeof js_gs_box = raise unknown_operand_type

  unfoldable pub inst_typeof : Inst → Exec (Unit {0})
  unfolding need peek put_typeof
  inst_typeof inst = do need 1; v ← peek 1; put_typeof v.type
