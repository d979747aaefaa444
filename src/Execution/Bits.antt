-- ===== src/Execution/Bits.antt =====
-- core/execution.c: the bitwise operators and shifts. A shift by a count outside 0 to 31 is
-- undefined in C, and a fault here.
use atomix_js.Prelude.{ℕ, ◌-◌, Bool, not, ◌||◌, ltb, if◌then◌else◌}
use atomix_js.Prelude.Word.{and32, or32, xor32, not32, shl32, shr32, sar32, u32_mod}
use atomix_js.Value.{
  JsValue, js_integer, js_double, js_object, js_func, js_undefined, js_null, js_boolean, has_type,
  as_int, retype, value_int, value_double, Platform,
}
use atomix_js.Instruction.{Inst}
use atomix_js.Vm.Exec.{Exec, crash, ◌>>=◌, ◌>>◌, peek, poke, lower, need}

-- `v.type == JS_INTEGER || v.type == JS_DOUBLE`
unfoldable pub is_number : JsValue → Bool
unfolding has_type
is_number v = has_type v js_integer || has_type v js_double

module _ (p : Platform) where
  -- `v.type == JS_DOUBLE ? (int)v.value.as_double : v.value.as_int`
  unfoldable pub int_of : JsValue → ℕ
  unfolding has_type as_int
  int_of v = if has_type v js_double then p.to_int v.value else as_int v

  unfoldable pub inst_binary_and : Inst → Exec (Unit {0})
  unfolding need peek poke lower is_number int_of
  inst_binary_and inst = do
    need 2
    left ← peek 2
    right ← peek 1
    lower
    if not (is_number left) || not (is_number right)
        then poke 1 (value_int 0)
        else poke 1 (value_int (and32 (int_of left) (int_of right)))

  -- What `|` and `^` give where an operand is no number: the other as an integer, or 0.
  unfoldable pub only_number : JsValue → JsValue → JsValue
  unfolding has_type
  only_number left right =
      if has_type left js_integer
      then left
      else if has_type left js_double
      then value_int (p.to_int left.value)
      else if has_type right js_integer
      then right
      else if has_type right js_double
      then value_int (p.to_int right.value)
      else value_int 0

  unfoldable pub inst_binary_or : Inst → Exec (Unit {0})
  unfolding need peek poke lower is_number int_of only_number
  inst_binary_or inst = do
    need 2
    left ← peek 2
    right ← peek 1
    lower
    if not (is_number left) || not (is_number right)
        then poke 1 (only_number left right)
        else poke 1 (value_int (or32 (int_of left) (int_of right)))

  unfoldable pub inst_binary_xor : Inst → Exec (Unit {0})
  unfolding need peek poke lower is_number int_of only_number
  inst_binary_xor inst = do
    need 2
    left ← peek 2
    right ← peek 1
    lower
    if not (is_number left) || not (is_number right)
        then poke 1 (only_number left right)
        else poke 1 (value_int (xor32 (int_of left) (int_of right)))

  -- The common shape of the three shifts: the operands that are no numbers first.
  unfoldable pub shift_by_other : JsValue → JsValue
  unfolding has_type
  shift_by_other left =
      if has_type left js_double then value_double (p.of_int (p.to_int left.value)) else left

  unfoldable pub inst_binary_lshft : Inst → Exec (Unit {0})
  unfolding need peek poke lower is_number int_of shift_by_other
  inst_binary_lshft inst = do
    need 2
    left ← peek 2
    right ← peek 1
    lower
    if not (is_number left)
        then poke 1 (value_int 0)
        else if not (is_number right)
        then poke 1 (shift_by_other left)
        else if ltb (int_of right) 32
        then poke 1 (value_int (shl32 (int_of left) (int_of right)))
        else crash

  unfoldable pub inst_binary_rshft : Inst → Exec (Unit {0})
  unfolding need peek poke lower is_number int_of shift_by_other
  inst_binary_rshft inst = do
    need 2
    left ← peek 2
    right ← peek 1
    lower
    if not (is_number left)
        then poke 1 (value_int 0)
        else if not (is_number right)
        then poke 1 (shift_by_other left)
        else if ltb (int_of right) 32
        then poke 1 (value_int (sar32 (int_of left) (int_of right)))
        else crash

  unfoldable pub inst_binary_zrshft : Inst → Exec (Unit {0})
  unfolding need peek poke lower is_number int_of shift_by_other
  inst_binary_zrshft inst = do
    need 2
    left ← peek 2
    right ← peek 1
    lower
    if not (is_number left)
        then poke 1 (value_int 0)
        else if not (is_number right)
        then poke 1 (shift_by_other left)
        else if ltb (int_of right) 32
        then poke 1 (value_int (shr32 (int_of left) (int_of right)))
        else crash

  -- The operand as an integer. A string or a symbol keeps the low half of its pointer.
  unfoldable pub not_operand : JsValue → JsValue
  unfolding has_type
  not_operand v =
      if has_type v js_boolean || has_type v js_null
      then retype js_integer v
      else if has_type v js_double
      then value_int (p.to_int v.value)
      else v

  unfoldable pub inst_binary_not : Inst → Exec (Unit {0})
  unfolding need peek poke not_operand
  inst_binary_not inst = do
    need 1
    right ← peek 1
    if has_type right js_undefined || has_type right js_object || has_type right js_func
        then poke 1 (value_int (u32_mod - 1))
        else poke 1 (value_int (not32 (as_int (not_operand right))))
