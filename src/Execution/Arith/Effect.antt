-- ===== src/Execution/Arith/Effect.antt =====
-- `+`, `-` and `*` against one description of their operands, and what they leave on the stack.
use atomix_js.Prelude.{ℕ, ◌-◌, ◌≤◌, ◌≡◌, Bool, true, false, arith}
use atomix_js.Prelude.Result.{unsupported_operation}
use atomix_js.Prelude.Word.{sub32, mul32}
use atomix_js.Value.{
  JsValueType, js_integer, js_double, js_undefined, js_null, js_boolean, js_string, js_object,
  js_func, js_symbol, js_gs_box, JsValue, as_int, Platform, value_int, value_double,
}
use atomix_js.Instruction.{Inst}
use atomix_js.Vm.{Vm, stack_size}
use atomix_js.Vm.Exec.{Outcome, ret, panicked}
use atomix_js.Vm.Live.{sub64_operands, with_slot}
use atomix_js.Execution.Arith.{inst_minus, inst_mul, shrink}
use atomix_js.Execution.Compare.Order.{left_operand, right_operand}

-- What a value counts as: an integer, a double, no number, or a value that only a double operand on
-- the other side makes a number, by the low half of its union.
pub data Operand : Type 0 where
  whole : ℕ → Operand
  real : ℕ → Operand
  not_number : Operand
  opaque : ℕ → Operand

-- The classes for `+`, and those for `-` and `*`, which take objects and functions for no numbers.
unfoldable pub addend_of : JsValueType → JsValue → Operand
addend_of js_integer v = whole (as_int v)
addend_of js_boolean v = whole (as_int v)
addend_of js_null v = whole (as_int v)
addend_of js_double v = real v.value
addend_of js_undefined v = not_number
addend_of js_string v = opaque (as_int v)
addend_of js_object v = opaque (as_int v)
addend_of js_func v = opaque (as_int v)
addend_of js_symbol v = opaque (as_int v)
addend_of js_gs_box v = opaque (as_int v)

unfoldable pub factor_of : JsValueType → JsValue → Operand
unfolding addend_of
factor_of js_object v = not_number
factor_of js_func v = not_number
factor_of t v = addend_of t v

-- The classes for `/`, which divides doubles only: a null dividend is 0, a null divisor no
-- number. No operand is whole, so the integer operation of `combined` plays no part.
unfoldable pub dividend_of : Platform → JsValueType → JsValue → Operand
unfolding factor_of
dividend_of p js_integer v = real (p.of_int (as_int v))
dividend_of p js_boolean v = real (p.of_int (as_int v))
dividend_of p js_null v = real p.fzero
dividend_of p t v = factor_of t v

unfoldable pub divisor_of : Platform → JsValueType → JsValue → Operand
unfolding dividend_of
divisor_of p js_null v = not_number
divisor_of p t v = dividend_of p t v

abbrev pub addend : JsValue → Operand
addend v = addend_of v.type v

abbrev pub factor : JsValue → Operand
factor v = factor_of v.type v

-- A double as the value that `/` leaves: an integer where it is one.
unfoldable pub narrowed : Platform → ℕ → JsValue
narrowed p r = elim (p.feq r (p.of_int (p.to_int r))) [
  | true ↦ value_int (p.to_int r)
  | false ↦ value_double r
]

-- The quotient by cases: whether the divisor is zero, the dividend is zero, the dividend is above
-- zero. By zero a positive dividend gives infinity, a zero NaN, any other negative infinity.
unfoldable pub divided_as : Platform → Bool → Bool → Bool → ℕ → ℕ → JsValue
unfolding narrowed
divided_as p false zero above l r = narrowed p (p.fdiv l r)
divided_as p true true above l r = value_double p.nan
divided_as p true false true l r = value_double p.pos_infinity
divided_as p true false false l r = value_double p.neg_infinity

abbrev pub divided : Platform → ℕ → ℕ → JsValue
divided p l r = divided_as p (p.feq r p.fzero) (p.feq l p.fzero) (p.flt p.fzero l) l r

pub data Sum : Type 0 where
  value : JsValue → Sum
  nan_above : Sum
  unsupported : Sum

-- An operation on integers, and one on doubles with the value that it becomes.
unfoldable pub combined : Platform → (ℕ → ℕ → ℕ) → (ℕ → ℕ → JsValue) → Operand → Operand → Sum
combined p int_op double_op not_number b = nan_above
combined p int_op double_op (whole a) not_number = nan_above
combined p int_op double_op (real a) not_number = nan_above
combined p int_op double_op (opaque a) not_number = nan_above
combined p int_op double_op (whole a) (whole b) = value (value_int (int_op a b))
combined p int_op double_op (whole a) (real b) = value (double_op (p.of_int a) b)
combined p int_op double_op (real a) (whole b) = value (double_op a (p.of_int b))
combined p int_op double_op (real a) (real b) = value (double_op a b)
combined p int_op double_op (real a) (opaque b) = value (double_op a (p.of_int b))
combined p int_op double_op (opaque a) (real b) = value (double_op (p.of_int a) b)
combined p int_op double_op (opaque a) b = unsupported
combined p int_op double_op a (opaque b) = unsupported

-- The result takes the place of both operands. A NaN takes the place of the right operand only: the
-- left one stays on the stack.
unfoldable pub arith_outcome : Platform → Vm → Sum → Outcome (Unit {0})
arith_outcome p vm (value v) =
    ret tt (with_slot vm (vm.stats.stack_counter - 1) (vm.stats.stack_counter - 2) v)
arith_outcome p vm nan_above =
    ret tt (with_slot vm vm.stats.stack_counter (vm.stats.stack_counter - 1) (value_double p.nan))
arith_outcome p vm unsupported = panicked unsupported_operation

module _ (p : Platform) (inst : Inst) (vm : Vm) (two : 2 ≤ vm.stats.stack_counter)
    (fits : vm.stats.stack_counter ≤ stack_size) where
  -- With two operands on a stack that fits, `-` on `undefined`, an object or a function
  -- puts the NaN in the place of the right operand and leaves the left one below it. Else the result
  -- takes the place of both operands: the 32-bit operation on two integers (`null` and Booleans
  -- count as such), and the double operation if one is a double, the other counted by its low half
  -- as an integer. On any other pair the machine panics.
  inst_minus-combined :
      inst_minus p inst vm
      ≡ arith_outcome p vm (
          combined p sub32
            (λ a b. value_double (p.fsub a b))
            (factor (left_operand vm))
            (factor (right_operand vm)))
  unfolding inst_minus factor_of combined arith_outcome as_int
  inst_minus-combined = ground (arith, sub64_operands vm.stats.stack_counter two fits)

  -- With two operands on a stack that fits, `*` on `undefined`, an object or a function
  -- puts the NaN in the place of the right operand and leaves the left one below it. Else the result
  -- takes the place of both operands: the 32-bit operation on two integers (`null` and Booleans
  -- count as such), and the double operation if one is a double, the other counted by its low half
  -- as an integer. On any other pair the machine panics.
  inst_mul-combined :
      inst_mul p inst vm
      ≡ arith_outcome p vm (
          combined p mul32
            (λ a b. shrink p (p.fmul a b))
            (factor (left_operand vm))
            (factor (right_operand vm)))
  unfolding inst_mul factor_of combined arith_outcome as_int
  inst_mul-combined = ground (arith, sub64_operands vm.stats.stack_counter two fits)
