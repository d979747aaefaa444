-- ===== src/Value.antt =====
-- core/value.impl.h and core/value.c: the tagged values of the machine, with the tests on them.
-- The union of a `JSValue` is one 64-bit pattern, read by `as_int`, `as_double` and `as_pointer`.
-- Storing an `int32_t` leaves the upper half of the union unspecified; the model writes zeros.
use Prim.Native.Nat.{bit_and}
use atomix_js.Prelude.{
  ℕ, ◌%◌, Bool, true, false, not, ◌&&◌, ◌||◌, ◌==◌, if◌then◌else◌, Option, none, some,
}
use atomix_js.Prelude.Word.{u32_mod}

pub data JsValueType : Type 0 where
  js_integer js_double js_string js_object js_func js_undefined js_null js_boolean js_symbol
        js_gs_box :
      JsValueType

pub record JsValue : Type 0 where
  pub type : JsValueType
  pub value : ℕ

-- The number of an enumerator, which `==` compares.
unfoldable pub tag : JsValueType → ℕ
tag js_integer = 0
tag js_double = 1
tag js_string = 2
tag js_object = 3
tag js_func = 4
tag js_undefined = 5
tag js_null = 6
tag js_boolean = 7
tag js_symbol = 8
tag js_gs_box = 9

unfoldable pub same_type : JsValueType → JsValueType → Bool
unfolding tag
same_type a b = tag a == tag b

-- `v.type == t`
unfoldable pub has_type : JsValue → JsValueType → Bool
unfolding same_type
has_type v t = same_type v.type t

unfoldable pub as_int : JsValue → ℕ
as_int v = v.value % u32_mod

-- The JS_VALUE_ macros.
abbrev pub js_value : JsValueType → ℕ → JsValue
js_value t x = record { type = t; value = x }

abbrev pub value_int : ℕ → JsValue
value_int x = js_value js_integer x

abbrev pub value_double : ℕ → JsValue
value_double x = js_value js_double x

abbrev pub value_string : ℕ → JsValue
value_string p = js_value js_string p

abbrev pub value_undefined : JsValue
value_undefined = js_value js_undefined 0

abbrev pub value_null : JsValue
value_null = js_value js_null 0

abbrev pub value_function : ℕ → JsValue
value_function p = js_value js_func p

abbrev pub value_object : ℕ → JsValue
value_object p = js_value js_object p

abbrev pub value_symbol : ℕ → JsValue
value_symbol p = js_value js_symbol p

unfoldable pub value_bool : Bool → JsValue
value_bool b = js_value js_boolean (if b then 1 else 0)

-- `v.type = t`, which keeps the union.
abbrev pub retype : JsValueType → JsValue → JsValue
retype t v = record v { type = t }

-- The arithmetic of `double`, which the processor and libm give, on 64-bit patterns: sum,
-- difference, product, quotient, `fmod`, opposite, the conversions from and to an `int32_t`
-- pattern, the tests `==`, `<` and `<=`, and the results of `0.0 / 0.0`, `1 / 0.0` and `-1 / 0.0`.
pub record Platform : Type 0 where
  pub fadd : ℕ → ℕ → ℕ
  pub fsub : ℕ → ℕ → ℕ
  pub fmul : ℕ → ℕ → ℕ
  pub fdiv : ℕ → ℕ → ℕ
  pub fmod : ℕ → ℕ → ℕ
  pub fneg : ℕ → ℕ
  pub of_int : ℕ → ℕ
  pub to_int : ℕ → ℕ
  pub feq : ℕ → ℕ → Bool
  pub flt : ℕ → ℕ → Bool
  pub fle : ℕ → ℕ → Bool
  pub fzero : ℕ
  pub nan : ℕ
  pub pos_infinity : ℕ
  pub neg_infinity : ℕ

module _ (p : Platform) where
  -- `none` is the panic on a type that the switch does not list.
  unfoldable pub value_is_falsy_of : JsValueType → JsValue → Option Bool
  unfolding as_int
  value_is_falsy_of js_integer v = some (as_int v == 0)
  value_is_falsy_of js_boolean v = some (as_int v == 0)
  value_is_falsy_of js_double v = some (p.feq v.value p.fzero || p.feq v.value (p.fneg p.fzero))
  value_is_falsy_of js_string v = some false
  value_is_falsy_of js_object v = some false
  value_is_falsy_of js_func v = some false
  value_is_falsy_of js_symbol v = some false
  value_is_falsy_of js_undefined v = some true
  value_is_falsy_of js_null v = some true
  value_is_falsy_of js_gs_box v = none

  unfoldable pub value_is_falsy : JsValue → Option Bool
  unfolding value_is_falsy_of
  value_is_falsy v = value_is_falsy_of v.type v

abbrev pub exponent_mask : ℕ
exponent_mask = 0x7FF0_0000_0000_0000

unfoldable pub value_is_nan : JsValue → Bool
unfolding has_type
value_is_nan v =
    if has_type v js_double
    then (bit_and v.value exponent_mask == exponent_mask)
      && not (bit_and v.value exponent_mask == 0)
    else false
