-- ===== src/Text/Keeps.antt =====
-- Making a text keeps every invariant of the registers and the stack.
use atomix_js.Prelude.{ℕ, zero, suc, ◌==◌}
use atomix_js.Value.{JsValueType, js_integer, js_double, js_string, js_gs_box, JsValue}
use atomix_js.Vm.{Vm, Ptr}
use atomix_js.Vm.Exec.{Host}
use atomix_js.Vm.Keeps.{
  Keeps, IsBlind, keeps_rules, returned, by_panic, init_string-Keeps, gc_malloc_checked-Keeps,
  put_string-Keeps, by_fuel, Ends-bind, Ends-choose, deref_object-Keeps,
}
use atomix_js.Object.Keeps.{object_get_object_prototype-Keeps, object_get_array_prototype-Keeps}
use atomix_js.Text.{
  int_to_string, double_to_string, value_to_string_of, value_to_string, prototype_walk,
  value_is_array,
}

module _ {I : Vm → Type 0} (blind : IsBlind I) (h : Host) where
  int_to_string-Keeps : (n : ℕ) → Keeps I (int_to_string h n)
  unfolding int_to_string
  int_to_string-Keeps n vm i =
      search (keeps_rules, gc_malloc_checked-Keeps, put_string-Keeps) depth 8

  double_to_string-Keeps : (d : ℕ) → Keeps I (double_to_string h d)
  unfolding double_to_string
  double_to_string-Keeps d vm i =
      search (keeps_rules, init_string-Keeps, gc_malloc_checked-Keeps, put_string-Keeps) depth 8

  value_to_string_of-Keeps : (t : JsValueType) (v : JsValue) → Keeps I (value_to_string_of h t v)
  unfolding value_to_string_of
  value_to_string_of-Keeps js_integer v vm i = int_to_string-Keeps _ vm i
  value_to_string_of-Keeps js_double v vm i = double_to_string-Keeps v.value vm i
  value_to_string_of-Keeps js_string v vm i = returned i
  value_to_string_of-Keeps js_gs_box v vm i = by_panic
  value_to_string_of-Keeps _ v vm i = init_string-Keeps blind h _ vm i

  pub value_to_string-Keeps : (v : JsValue) → Keeps I (value_to_string h v)
  unfolding value_to_string
  value_to_string-Keeps v = value_to_string_of-Keeps v.type v

  prototype_walk-Keeps : (fuel : ℕ) (o a p : Ptr) → Keeps I (prototype_walk h fuel o a p)
  unfolding prototype_walk
  prototype_walk-Keeps zero o a p vm i = by_fuel
  prototype_walk-Keeps (suc fuel) o a p vm i =
      Ends-choose (p == o) (λ w k. returned k)
        (λ w k.
          Ends-choose (p == a) (λ w1 k1. returned k1)
            (λ w1 k1.
              Ends-bind (deref_object-Keeps blind p w1 k1)
                λ q. prototype_walk-Keeps fuel o a q.prototype)
            k)
        i

  pub value_is_array-Keeps : (fuel : ℕ) (v : JsValue) → Keeps I (value_is_array h fuel v)
  unfolding value_is_array
  value_is_array-Keeps fuel v vm i =
      search
        (
          keeps_rules, blind, object_get_object_prototype-Keeps, object_get_array_prototype-Keeps,
          deref_object-Keeps, prototype_walk-Keeps,
        )
        depth 16
