-- ===== src/Execution/Compare/Order.antt =====
-- The four orders against one description of when a value is less than another.
use atomix_js.Prelude.{ℕ, ◌-◌, Bool, false, Option, none, some}
use atomix_js.Prelude.Result.{unknown_comparison}
use atomix_js.Value.{
  JsValueType, js_integer, js_double, js_undefined, js_null, js_boolean, js_string, js_object,
  js_func, js_symbol, js_gs_box, JsValue, as_int, Platform, value_bool,
}
use atomix_js.Vm.{Vm}
use atomix_js.Vm.Exec.{Outcome, ret, panicked}
use atomix_js.Vm.Live.{with_slot}

-- What a value counts as in a comparison: an integer, a double, `undefined`, or nothing that the
-- machine compares.
pub data Comparand : Type 0 where
  whole : ℕ → Comparand
  real : ℕ → Comparand
  missing : Comparand
  incomparable : Comparand

unfoldable pub comparand_of : JsValueType → JsValue → Comparand
comparand_of js_integer v = whole (as_int v)
comparand_of js_boolean v = whole (as_int v)
comparand_of js_null v = whole 0
comparand_of js_double v = real v.value
comparand_of js_undefined v = missing
comparand_of js_string v = incomparable
comparand_of js_object v = incomparable
comparand_of js_func v = incomparable
comparand_of js_symbol v = incomparable
comparand_of js_gs_box v = incomparable

abbrev pub comparand : JsValue → Comparand
comparand v = comparand_of v.type v

-- Two comparands under an order of integers and one of doubles. Nothing compares with `undefined`.
unfoldable pub compared :
    Platform → (ℕ → ℕ → Bool) → (ℕ → ℕ → Bool) → Comparand → Comparand → Option Bool
compared p int_order double_order missing b = some false
compared p int_order double_order (whole a) missing = some false
compared p int_order double_order (real a) missing = some false
compared p int_order double_order incomparable missing = some false
compared p int_order double_order (whole a) (whole b) = some (int_order a b)
compared p int_order double_order (whole a) (real b) = some (double_order (p.of_int a) b)
compared p int_order double_order (real a) (whole b) = some (double_order a (p.of_int b))
compared p int_order double_order (real a) (real b) = some (double_order a b)
compared p int_order double_order incomparable b = none
compared p int_order double_order a incomparable = none

-- The operands come off and the truth value goes on, or the machine panics.
unfoldable pub compare_outcome : Vm → Option Bool → Outcome (Unit {0})
compare_outcome vm none = panicked unknown_comparison
compare_outcome vm (some b) =
    ret tt (with_slot vm (vm.stats.stack_counter - 1) (vm.stats.stack_counter - 2) (value_bool b))

abbrev pub left_operand : Vm → JsValue
left_operand vm = vm.stats.stack (vm.stats.stack_counter - 2)

abbrev pub right_operand : Vm → JsValue
right_operand vm = vm.stats.stack (vm.stats.stack_counter - 1)
