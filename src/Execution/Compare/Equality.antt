-- ===== src/Execution/Compare/Equality.antt =====
-- `===` against a description of strict equality, and `!==` against `===`.
use atomix_js.Prelude.{
  ◌≤◌, ◌≡◌, refl, inl, inr, Bool-cases, ltb, arith, Bool, true, false, Option, none, some, ◌==◌,
}
use atomix_js.Value.{
  JsValueType, js_integer, js_double, js_string, js_object, js_func, js_undefined, js_null,
  js_boolean, js_symbol, js_gs_box, JsValue, as_int, Platform, value_is_falsy, value_bool,
}
use atomix_js.Instruction.{Inst}
use atomix_js.Vm.{Vm, stack_size}
use atomix_js.Vm.Exec.{◌>>◌}
use atomix_js.Vm.Live.{sub64_operands}
use atomix_js.Execution.Compare.{inst_teq, inst_nteq, inst_not}
use atomix_js.Execution.Compare.Order.{compare_outcome, left_operand, right_operand}

-- When two values are equal: numbers by their value, `null` and `undefined` each with itself, objects
-- and functions by their address, values of different types never. For two Booleans, strings, symbols
-- or boxes there is no answer.
unfoldable pub equal_as : Platform → JsValueType → JsValueType → JsValue → JsValue → Option Bool
equal_as p js_integer js_integer a b = some (as_int a == as_int b)
equal_as p js_integer js_double a b = some (p.feq (p.of_int (as_int a)) b.value)
equal_as p js_double js_integer a b = some (p.feq a.value (p.of_int (as_int b)))
equal_as p js_double js_double a b = some (p.feq a.value b.value)
equal_as p js_null js_null a b = some true
equal_as p js_undefined js_undefined a b = some true
equal_as p js_object js_object a b = some (a.value == b.value)
equal_as p js_func js_func a b = some (a.value == b.value)
equal_as p js_boolean js_boolean a b = none
equal_as p js_string js_string a b = none
equal_as p js_symbol js_symbol a b = none
equal_as p js_gs_box js_gs_box a b = none
equal_as p _ _ a b = some false

module _ (p : Platform) (inst : Inst) where
  -- On a stack that fits, `!==` ends as `===` followed by `!` does: with the same machine, or by the
  -- same panic.
  pub inst_nteq-teq_not :
      (vm : Vm)
      → vm.stats.stack_counter ≤ stack_size
      → inst_nteq p inst vm ≡ (inst_teq p inst >> inst_not p inst) vm
  unfolding inst_teq inst_nteq inst_not value_is_falsy value_bool
  inst_nteq-teq_not vm h = elim (Bool-cases (ltb vm.stats.stack_counter 2)) [
    | inl y ↦ rw y refl
    | inr n ↦ ground (arith, sub64_operands vm.stats.stack_counter (ground arith) h)
  ]

  -- With two operands on a stack that fits, `===` replaces them by the truth value of `equal_as`, and
  -- panics where that has no answer: on two Booleans, two strings and two symbols.
  pub inst_teq-equal_as :
      (vm : Vm)
      → 2 ≤ vm.stats.stack_counter
      → vm.stats.stack_counter ≤ stack_size
      → inst_teq p inst vm
        ≡ compare_outcome vm (
            equal_as p
              (left_operand vm).type
              (right_operand vm).type
              (left_operand vm)
              (right_operand vm))
  unfolding inst_teq equal_as compare_outcome value_bool
  inst_teq-equal_as vm two fits = ground (arith, sub64_operands vm.stats.stack_counter two fits)
