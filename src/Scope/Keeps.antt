-- ===== src/Scope/Keeps.antt =====
-- Scopes live in the heap: their operations keep every invariant of the registers and the stack.
use atomix_js.Prelude.{ℕ, zero, suc, Bool, true, false, Option, none, some, Str}
use atomix_js.Value.{JsValue, value_undefined}
use atomix_js.Dict.{dict_get}
use atomix_js.Vm.{Vm, Ptr, Scope}
use atomix_js.Vm.Exec.{Exec, Host}
use atomix_js.Vm.Keeps.{
  Keeps, IsBlind, keeps_rules, Ends-bind, returned, by_fuel, gc_malloc-Keeps,
  gc_malloc_checked-Keeps, gc_malloc_unchecked-Keeps, deref_scope-Keeps, put_scope-Keeps,
}
use atomix_js.Scope.{
  new_dict, unless_null, overwrite, set_in, declare_in, get_in, contains_in, scope_create_scope,
  scope_set, scope_declare, scope_get, scope_contains,
}

module _ {I : Vm → Type 0} (blind : IsBlind I) where
  ruleset heap_rules = (
    gc_malloc-Keeps, gc_malloc_checked-Keeps, gc_malloc_unchecked-Keeps, deref_scope-Keeps,
    put_scope-Keeps,
  )

  pub new_dict-Keeps : (h : Host) (n : ℕ) → Keeps I (new_dict h n)
  unfolding new_dict
  new_dict-Keeps h n vm i = search (keeps_rules, heap_rules) depth 12

  pub scope_create_scope-Keeps : (h : Host) (p : Ptr) → Keeps I (scope_create_scope h p)
  unfolding scope_create_scope
  scope_create_scope-Keeps h p vm i = search (keeps_rules, heap_rules, new_dict-Keeps) depth 12

  overwrite-Keeps : (p : Ptr) (s : Scope) (key : Str) (v : JsValue) → Keeps I (overwrite p s key v)
  unfolding overwrite
  overwrite-Keeps p s key v vm i = put_scope-Keeps blind p _ vm i

  unless_null-Keeps :
      {A : Type 0} (p : Ptr) (a : A) {m : Exec A} → Keeps I m → Keeps I (unless_null p a m)
  unfolding unless_null
  unless_null-Keeps p a k vm i = search (keeps_rules) depth 8

  declare_in-Keeps :
      (h : Host) (p : Ptr) (s : Scope) (key : Str) (v : JsValue) (o : Option JsValue)
      → Keeps I (declare_in h p s key v o)
  unfolding declare_in
  declare_in-Keeps h p s key v (some old) vm i = overwrite-Keeps p s key v vm i
  declare_in-Keeps h p s key v none vm i = search (keeps_rules, heap_rules) depth 12

  pub scope_declare-Keeps :
      (h : Host) (p : Ptr) (key : Str) (v : JsValue) → Keeps I (scope_declare h p key v)
  unfolding scope_declare
  scope_declare-Keeps h p key v vm i = search (keeps_rules, heap_rules, declare_in-Keeps) depth 12

  set_in-Keeps :
      (p : Ptr) (s : Scope) (key : Str) (v : JsValue) (o : Option JsValue) {up : Exec Bool}
      → Keeps I up
      → Keeps I (set_in p s key v o up)
  unfolding set_in
  set_in-Keeps p s key v (some old) k vm i = search (keeps_rules, overwrite-Keeps) depth 8
  set_in-Keeps p s key v none k vm i = k vm i

  pub scope_set-Keeps :
      (fuel : ℕ) (p : Ptr) (key : Str) (v : JsValue) → Keeps I (scope_set fuel p key v)
  unfolding scope_set
  scope_set-Keeps zero p key v vm i = by_fuel
  scope_set-Keeps (suc fuel) p key v vm i = Ends-bind (deref_scope-Keeps blind p vm i) (λ s.
      set_in-Keeps p s key v (dict_get s.symbols key)
        (unless_null-Keeps s.parent false (scope_set-Keeps fuel s.parent key v)))

  get_in-Keeps : (o : Option JsValue) {up : Exec JsValue} → Keeps I up → Keeps I (get_in o up)
  unfolding get_in
  get_in-Keeps (some v) k vm i = returned i
  get_in-Keeps none k vm i = k vm i

  pub scope_get-Keeps : (fuel : ℕ) (p : Ptr) (key : Str) → Keeps I (scope_get fuel p key)
  unfolding scope_get
  scope_get-Keeps zero p key vm i = by_fuel
  scope_get-Keeps (suc fuel) p key vm i = Ends-bind (deref_scope-Keeps blind p vm i) (λ s.
      get_in-Keeps (dict_get s.symbols key)
        (unless_null-Keeps s.parent value_undefined (scope_get-Keeps fuel s.parent key)))

  contains_in-Keeps :
      (o : Option JsValue) {up : Exec Bool} → Keeps I up → Keeps I (contains_in o up)
  unfolding contains_in
  contains_in-Keeps (some v) k vm i = returned i
  contains_in-Keeps none k vm i = k vm i

  pub scope_contains-Keeps :
      (fuel : ℕ) (p : Ptr) (key : Str) (up : Bool) → Keeps I (scope_contains fuel p key up)
  unfolding scope_contains
  scope_contains-Keeps zero p key up vm i = by_fuel
  scope_contains-Keeps (suc fuel) p key true vm i = Ends-bind (deref_scope-Keeps blind p vm i) (λ s.
      contains_in-Keeps (dict_get s.symbols key)
        (unless_null-Keeps s.parent false (scope_contains-Keeps fuel s.parent key true)))
  scope_contains-Keeps (suc fuel) p key false vm i =
      Ends-bind (deref_scope-Keeps blind p vm i)
        (λ s. contains_in-Keeps (dict_get s.symbols key) (λ w j. returned j))
