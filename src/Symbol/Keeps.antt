-- ===== src/Symbol/Keeps.antt =====
-- Making a symbol keeps every invariant of the registers and the stack that calls keep.
use atomix_js.Prelude.{Str, List}
use atomix_js.Value.{JsValue}
use atomix_js.Vm.{Vm, Ptr}
use atomix_js.Vm.Exec.{Host}
use atomix_js.Vm.Keeps.{Keeps, IsBlind, keeps_rules, put_globals-Keeps, init_string-Keeps}
use atomix_js.Object.{Caller}
use atomix_js.Object.Keeps.{
  object_create_object-Keeps, object_get_symbol_prototype-Keeps, object_set_property-Keeps,
}
use atomix_js.Symbol.{create_symbol, symbol_to_primitive}

module _ {I : Vm → Type 0} (blind : IsBlind I) (h : Host) (call : Caller)
    (kept : (f : Ptr) (this : JsValue) (args : List JsValue) → Keeps I (call f this args)) where
  pub create_symbol-Keeps : (s : Str) → Keeps I (create_symbol h call s)
  unfolding create_symbol
  create_symbol-Keeps s vm i =
      search
        (
          keeps_rules, kept, blind, init_string-Keeps, object_create_object-Keeps,
          object_get_symbol_prototype-Keeps, object_set_property-Keeps,
        )
        depth 16

  pub symbol_to_primitive-Keeps : Keeps I (symbol_to_primitive h call)
  unfolding symbol_to_primitive
  symbol_to_primitive-Keeps vm i =
      search (keeps_rules, blind, create_symbol-Keeps, put_globals-Keeps) depth 12
