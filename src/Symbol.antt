-- ===== src/Symbol.antt =====
-- core/symbol.c: symbols as objects, and the symbol that is kept in a static variable.
pub mod Keeps
use atomix_js.Prelude.{[], ◌∷◌, Str, ◌==◌, if◌then◌else◌}
use atomix_js.Value.{JsValue, value_string, value_symbol}
use atomix_js.Vm.{Ptr, null}
use atomix_js.Vm.Exec.{Exec, pure, ◌>>=◌, ◌>>◌, Host, get_vm, put_globals, init_string}
use atomix_js.Object.{
  Caller, object_create_object, object_get_symbol_prototype, object_set_property,
}

abbrev pub text_description : Str
text_description = b'd' ∷ b'e' ∷ b's' ∷ b'c' ∷ b'r' ∷ b'i' ∷ b'p' ∷ b't' ∷ b'i' ∷ b'o' ∷ b'n' ∷ []

abbrev pub text_to_primitive : Str
text_to_primitive =
    b'S' ∷ b'y' ∷ b'm' ∷ b'b' ∷ b'o' ∷ b'l' ∷ b'.' ∷ b't' ∷ b'o' ∷ b'P' ∷ b'r' ∷ b'i' ∷ b'm' ∷ b'i'
    ∷ b't' ∷ b'i' ∷ b'v' ∷ b'e' ∷ []

abbrev set_symbol_to_primitive : Ptr → Exec (Unit {0})
set_symbol_to_primitive p vm = put_globals (record vm.globals { symbol_to_primitive = p }) vm

module _ (h : Host) (call : Caller) where
  unfoldable pub create_symbol : Str → Exec Ptr
  create_symbol description = do
    prototype ← object_get_symbol_prototype h
    symbol ← object_create_object h prototype
    key ← init_string h text_description
    text ← init_string h description
    object_set_property h call symbol text_description (value_string text)
    pure symbol

  unfoldable pub symbol_to_primitive : Exec JsValue
  symbol_to_primitive = do
    vm ← get_vm
    if vm.globals.symbol_to_primitive == null
        then (do
          p ← create_symbol text_to_primitive
          set_symbol_to_primitive p
          pure (value_symbol p))
        else pure (value_symbol vm.globals.symbol_to_primitive)
