-- ===== src/Execution/Compare.antt =====
-- core/execution.c: `inst_not`, `inst_teq`, `inst_nteq` and the four orders. `x > y` and `x >= y`
-- of doubles are `y < x` and `y <= x`.
pub mod Equality
pub mod Order
use atomix_js.Prelude.{Bool, true, false, not, ◌&&◌, ◌||◌, ◌==◌, if◌then◌else◌, Option, none, some}
use atomix_js.Prelude.Result.{unknown_comparison, undefined_value_type}
use atomix_js.Prelude.Word.{lt32, le32}
use atomix_js.Value.{
  JsValue, js_integer, js_double, js_object, js_func, js_undefined, js_null, js_boolean, same_type,
  has_type, as_int, retype, value_int, value_bool, value_is_falsy, Platform,
}
use atomix_js.Instruction.{Inst}
use atomix_js.Vm.Exec.{Exec, pure, raise, ◌>>=◌, ◌>>◌, peek, poke, lower, need}

-- `value_is_falsy` with the panic of its last line.
abbrev pub falsy : Option Bool → Exec Bool
falsy none = raise undefined_value_type
falsy (some b) = pure b

-- `left.type != right.type && !(one is a double and the other an integer)`
unfoldable pub types_differ : JsValue → JsValue → Bool
unfolding same_type has_type
types_differ left right =
    not (same_type left.type right.type)
    && not (
        (has_type left js_double && has_type right js_integer)
        || (has_type left js_integer && has_type right js_double))

-- `if (v.type == JS_BOOLEAN) v.type = JS_INTEGER;`
unfoldable pub from_boolean : JsValue → JsValue
unfolding has_type
from_boolean v = if has_type v js_boolean then retype js_integer v else v

unfoldable pub from_null : JsValue → JsValue
unfolding has_type
from_null v = if has_type v js_null then value_int 0 else v

module _ (p : Platform) where
  unfoldable pub inst_not : Inst → Exec (Unit {0})
  unfolding need peek poke
  inst_not inst = do need 1; v ← peek 1; b ← falsy (value_is_falsy p v); poke 1 (value_bool b)

  unfoldable pub inst_teq : Inst → Exec (Unit {0})
  unfolding need peek poke lower types_differ
  inst_teq inst = do
    need 2
    left ← peek 2
    right ← peek 1
    lower
    if types_differ left right
        then poke 1 (value_bool false)
        else if has_type left js_double && has_type right js_integer
        then poke 1 (value_bool (p.feq left.value (p.of_int (as_int right))))
        else if has_type left js_integer && has_type right js_double
        then poke 1 (value_bool (p.feq (p.of_int (as_int left)) right.value))
        else if has_type left js_integer
        then poke 1 (value_bool (as_int left == as_int right))
        else if has_type left js_double
        then poke 1 (value_bool (p.feq left.value right.value))
        else if has_type left js_null || has_type left js_undefined
        then poke 1 (value_bool true)
        else if has_type left js_func || has_type left js_object
        then poke 1 (value_bool (left.value == right.value))
        else raise unknown_comparison

  unfoldable pub inst_nteq : Inst → Exec (Unit {0})
  unfolding need peek poke lower types_differ
  inst_nteq inst = do
    need 2
    left ← peek 2
    right ← peek 1
    lower
    if types_differ left right
        then poke 1 (value_bool true)
        else if has_type left js_double && has_type right js_integer
        then poke 1 (value_bool (not (p.feq left.value (p.of_int (as_int right)))))
        else if has_type left js_integer && has_type right js_double
        then poke 1 (value_bool (not (p.feq (p.of_int (as_int left)) right.value)))
        else if has_type left js_integer
        then poke 1 (value_bool (not (as_int left == as_int right)))
        else if has_type left js_double
        then poke 1 (value_bool (not (p.feq left.value right.value)))
        else if has_type left js_null || has_type left js_undefined
        then poke 1 (value_bool false)
        else if has_type left js_func || has_type left js_object
        then poke 1 (value_bool (not (left.value == right.value)))
        else raise unknown_comparison

  unfoldable pub inst_gt : Inst → Exec (Unit {0})
  unfolding need peek poke lower from_boolean from_null
  inst_gt inst = do
    need 2
    left ← peek 2
    right ← peek 1
    lower
    let left = from_boolean left
    let right = from_boolean right
    if has_type left js_undefined || has_type right js_undefined
        then poke 1 (value_bool false)
        else do
          let left = from_null left
          let right = from_null right
          if has_type left js_integer && has_type right js_integer
              then poke 1 (value_bool (lt32 (as_int right) (as_int left)))
              else if has_type left js_double && has_type right js_double
              then poke 1 (value_bool (p.flt right.value left.value))
              else if has_type left js_double && has_type right js_integer
              then poke 1 (value_bool (p.flt (p.of_int (as_int right)) left.value))
              else if has_type left js_integer && has_type right js_double
              then poke 1 (value_bool (p.flt right.value (p.of_int (as_int left))))
              else raise unknown_comparison

  unfoldable pub inst_geq : Inst → Exec (Unit {0})
  unfolding need peek poke lower from_boolean from_null
  inst_geq inst = do
    need 2
    left ← peek 2
    right ← peek 1
    lower
    let left = from_boolean left
    let right = from_boolean right
    if has_type left js_undefined || has_type right js_undefined
        then poke 1 (value_bool false)
        else do
          let left = from_null left
          let right = from_null right
          if has_type left js_integer && has_type right js_integer
              then poke 1 (value_bool (le32 (as_int right) (as_int left)))
              else if has_type left js_double && has_type right js_double
              then poke 1 (value_bool (p.fle right.value left.value))
              else if has_type left js_double && has_type right js_integer
              then poke 1 (value_bool (p.fle (p.of_int (as_int right)) left.value))
              else if has_type left js_integer && has_type right js_double
              then poke 1 (value_bool (p.fle right.value (p.of_int (as_int left))))
              else raise unknown_comparison

  unfoldable pub inst_lt : Inst → Exec (Unit {0})
  unfolding need peek poke lower from_boolean from_null
  inst_lt inst = do
    need 2
    left ← peek 2
    right ← peek 1
    lower
    let left = from_boolean left
    let right = from_boolean right
    if has_type left js_undefined || has_type right js_undefined
        then poke 1 (value_bool false)
        else do
          let left = from_null left
          let right = from_null right
          if has_type left js_integer && has_type right js_integer
              then poke 1 (value_bool (lt32 (as_int left) (as_int right)))
              else if has_type left js_double && has_type right js_double
              then poke 1 (value_bool (p.flt left.value right.value))
              else if has_type left js_double && has_type right js_integer
              then poke 1 (value_bool (p.flt left.value (p.of_int (as_int right))))
              else if has_type left js_integer && has_type right js_double
              then poke 1 (value_bool (p.flt (p.of_int (as_int left)) right.value))
              else raise unknown_comparison

  unfoldable pub inst_leq : Inst → Exec (Unit {0})
  unfolding need peek poke lower from_boolean from_null
  inst_leq inst = do
    need 2
    left ← peek 2
    right ← peek 1
    lower
    let left = from_boolean left
    let right = from_boolean right
    if has_type left js_undefined || has_type right js_undefined
        then poke 1 (value_bool false)
        else do
          let left = from_null left
          let right = from_null right
          if has_type left js_integer && has_type right js_integer
              then poke 1 (value_bool (le32 (as_int left) (as_int right)))
              else if has_type left js_double && has_type right js_double
              then poke 1 (value_bool (p.fle left.value right.value))
              else if has_type left js_double && has_type right js_integer
              then poke 1 (value_bool (p.fle left.value (p.of_int (as_int right))))
              else if has_type left js_integer && has_type right js_double
              then poke 1 (value_bool (p.fle (p.of_int (as_int left)) right.value))
              else raise unknown_comparison
