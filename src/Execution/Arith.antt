-- ===== src/Execution/Arith.antt =====
-- core/execution.c: `inst_add`, `inst_minus`, `inst_mul`, `inst_div`, `inst_mod` and `inst_negate`.
-- The arithmetic of `int32_t` wraps. The remainder of the least integer by -1 is a fault: its
-- quotient overflows.
pub mod Effect
use atomix_js.Prelude.{ℕ, ◌-◌, Bool, ◌&&◌, ◌||◌, ◌==◌, if◌then◌else◌}
use atomix_js.Prelude.Result.{unsupported_operation, unknown_operand_type}
use atomix_js.Prelude.Word.{add32, sub32, mul32, neg32, rem32, sign_bit, u32_mod}
use atomix_js.Value.{
  JsValue, js_integer, js_double, js_object, js_func, js_undefined, js_null, js_boolean, has_type,
  as_int, retype, value_int, value_double, Platform,
}
use atomix_js.Instruction.{Inst}
use atomix_js.Vm.Exec.{Exec, raise, crash, ◌>>=◌, ◌>>◌, peek, poke, lower, need}

-- `v.type == JS_UNDEFINED || v.type == JS_OBJECT || v.type == JS_FUNC`
unfoldable pub not_a_number : JsValue → Bool
unfolding has_type
not_a_number v = has_type v js_undefined || has_type v js_object || has_type v js_func

-- `if (v.type == JS_BOOLEAN || v.type == JS_NULL) { v.type = JS_INTEGER; }`
unfoldable pub to_integer : JsValue → JsValue
unfolding has_type
to_integer v = if has_type v js_boolean || has_type v js_null then retype js_integer v else v

unfoldable pub both_integers : JsValue → JsValue → Bool
unfolding has_type
both_integers left right = has_type left js_integer && has_type right js_integer

unfoldable pub any_double : JsValue → JsValue → Bool
unfolding has_type
any_double left right = has_type left js_double || has_type right js_double

module _ (p : Platform) where
  -- `v.type == JS_DOUBLE ? v.value.as_double : (double)v.value.as_int`
  unfoldable pub to_double : JsValue → ℕ
  unfolding has_type as_int
  to_double v = if has_type v js_double then v.value else p.of_int (as_int v)

  -- `r == (int)r ? JS_VALUE_INT((int)r) : JS_VALUE_DOUBLE(r)`
  unfoldable pub shrink : ℕ → JsValue
  shrink r = if p.feq r (p.of_int (p.to_int r)) then value_int (p.to_int r) else value_double r

  unfoldable pub inst_add : Inst → Exec (Unit {0})
  unfolding need peek poke lower to_integer both_integers any_double to_double
  inst_add inst = do
    need 2
    left ← peek 2
    right ← peek 1
    if has_type left js_undefined || has_type right js_undefined
        then poke 1 (value_double p.nan)
        else do
          let left = to_integer left
          let right = to_integer right
          lower
          if both_integers left right
              then poke 1 (value_int (add32 (as_int left) (as_int right)))
              else if any_double left right
              then poke 1 (value_double (p.fadd (to_double left) (to_double right)))
              else raise unsupported_operation

  unfoldable pub inst_minus : Inst → Exec (Unit {0})
  unfolding need peek poke lower not_a_number to_integer both_integers any_double to_double
  inst_minus inst = do
    need 2
    left ← peek 2
    right ← peek 1
    if not_a_number left || not_a_number right then poke 1 (value_double p.nan) else do
      let left = to_integer left
      let right = to_integer right
      lower
      if both_integers left right
          then poke 1 (value_int (sub32 (as_int left) (as_int right)))
          else if any_double left right
          then poke 1 (value_double (p.fsub (to_double left) (to_double right)))
          else raise unsupported_operation

  unfoldable pub inst_mul : Inst → Exec (Unit {0})
  unfolding need peek poke lower not_a_number to_integer both_integers any_double to_double shrink
  inst_mul inst = do
    need 2
    left ← peek 2
    right ← peek 1
    if not_a_number left || not_a_number right then poke 1 (value_double p.nan) else do
      let left = to_integer left
      let right = to_integer right
      lower
      if both_integers left right
          then poke 1 (value_int (mul32 (as_int left) (as_int right)))
          else if any_double left right
          then poke 1 (shrink (p.fmul (to_double left) (to_double right)))
          else raise unsupported_operation

  -- `inst_div` turns integers into doubles; a null dividend is 0.
  unfoldable pub dividend : JsValue → JsValue
  unfolding has_type as_int
  dividend v =
      if has_type v js_null
      then value_double p.fzero
      else if has_type v js_integer || has_type v js_boolean
      then value_double (p.of_int (as_int v))
      else v

  unfoldable pub divisor : JsValue → JsValue
  unfolding has_type as_int
  divisor v =
      if has_type v js_integer || has_type v js_boolean
      then value_double (p.of_int (as_int v))
      else v

  -- The quotient of two doubles, with the tests for a zero divisor.
  unfoldable pub quotient : ℕ → ℕ → JsValue
  unfolding shrink
  quotient l r =
      if p.feq r p.fzero && p.feq l p.fzero
      then value_double p.nan
      else if p.feq r p.fzero
      then value_double (if p.flt p.fzero l then p.pos_infinity else p.neg_infinity)
      else shrink (p.fdiv l r)

  unfoldable pub inst_div : Inst → Exec (Unit {0})
  unfolding need peek poke lower not_a_number dividend divisor any_double to_double quotient
  inst_div inst = do
    need 2
    left ← peek 2
    right ← peek 1
    if not_a_number left || not_a_number right || has_type right js_null
        then poke 1 (value_double p.nan)
        else do
          let left = dividend left
          let right = divisor right
          lower
          if any_double left right
              then poke 1 (quotient (to_double left) (to_double right))
              else raise unsupported_operation

  -- `inst_mod` leaves a null divisor, which the first test has excluded.
  unfoldable pub modulus : JsValue → JsValue
  unfolding has_type
  modulus v = if has_type v js_boolean then retype js_integer v else v

  unfoldable pub int_rest : ℕ → ℕ → Exec (Unit {0})
  unfolding poke rem32
  int_rest l r =
      if r == 0
      then poke 1 (value_double p.nan)
      else if l == sign_bit && r == u32_mod - 1
      then crash
      else poke 1 (value_int (rem32 l r))

  unfoldable pub double_rest : ℕ → ℕ → JsValue
  unfolding shrink
  double_rest l r = if p.feq r p.fzero then value_double p.nan else shrink (p.fmod l r)

  unfoldable pub inst_mod : Inst → Exec (Unit {0})
  unfolding need peek poke lower not_a_number to_integer modulus both_integers any_double to_double
      int_rest double_rest
  inst_mod inst = do
    need 2
    left ← peek 2
    right ← peek 1
    if not_a_number left || not_a_number right || has_type right js_null
        then poke 1 (value_double p.nan)
        else do
          let left = to_integer left
          let right = modulus right
          lower
          if both_integers left right
              then int_rest (as_int left) (as_int right)
              else if any_double left right
              then poke 1 (double_rest (to_double left) (to_double right))
              else raise unsupported_operation

  unfoldable pub inst_negate : Inst → Exec (Unit {0})
  unfolding need peek poke not_a_number to_integer
  inst_negate inst = do
    need 1
    right ← peek 1
    if not_a_number right then poke 1 (value_double p.nan) else do
      let right = to_integer right
      if has_type right js_integer
          then poke 1 (value_int (neg32 (as_int right)))
          else if has_type right js_double
          then poke 1 (value_double (p.fneg right.value))
          else raise unknown_operand_type
