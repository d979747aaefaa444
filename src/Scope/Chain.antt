-- ===== src/Scope/Chain.antt =====
-- core/scope.c: what the walks find in a chain of scopes that ends, and that they end.
use atomix_js.Prelude.{
  ℕ, zero, suc, ◌+◌, ◌≤◌, ◌≡◌, ◌≢◌, refl, Bool, true, false, ◌||◌, Option, none, some, List, [],
  ◌∷◌, Str, is_some, length, arith, inl, inr, Option-cases, str_eq_refl,
}
use atomix_js.Value.{JsValue, value_undefined}
use atomix_js.Dict.{JsDict, dict_get, dict_update}
use atomix_js.Dict.Lookup.{IsDict}
use atomix_js.Dict.Update.{Puts, dict_add_lem, dict_update_present}
use atomix_js.Vm.{Vm, Ptr, null, Heap, Scope, update}
use atomix_js.Vm.Exec.{Exec, ret, Host, deref_scope, put_scope, gc_malloc}
use atomix_js.Scope.{
  scope_get, scope_contains, scope_declare, unless_null, get_in, contains_in, declare_in, overwrite,
}

-- From `p` the pointers to the parents lead through these scopes to NULL.
pub data IsChain (h : Heap) : Ptr → List Scope → Type 0 where
  last : {p : Ptr} {s : Scope} → h.scopes p ≡ some s → s.parent ≡ null → IsChain h p (s ∷ [])
  link :
      {p : Ptr} {s : Scope} {ss : List Scope}
      → h.scopes p ≡ some s
      → s.parent ≢ null
      → IsChain h s.parent ss
      → IsChain h p (s ∷ ss)

-- The value of the innermost scope that declares the name.
unfoldable pub resolve : List Scope → Str → JsValue
resolve [] key = value_undefined
resolve (s ∷ ss) key = elim (dict_get s.symbols key) [ some v ↦ v | none ↦ resolve ss key ]

unfoldable pub declared : List Scope → Str → Bool
declared [] key = false
declared (s ∷ ss) key = is_some (dict_get s.symbols key) || declared ss key

get_in_last :
    (s : Scope) (key : Str) (o : Option JsValue) (up : Exec JsValue) (vm : Vm)
    → dict_get s.symbols key ≡ o
    → s.parent ≡ null
    → get_in o (unless_null s.parent value_undefined up) vm ≡ ret (resolve (s ∷ []) key) vm
unfolding get_in unless_null resolve
get_in_last s key none up vm e l = ground (arith, e)
get_in_last s key (some v) up vm e l = ground (arith, e)

get_in_link :
    (s : Scope) (ss : List Scope) (key : Str) (o : Option JsValue) (up : Exec JsValue) (vm : Vm)
    → dict_get s.symbols key ≡ o
    → s.parent ≢ null
    → up vm ≡ ret (resolve ss key) vm
    → get_in o (unless_null s.parent value_undefined up) vm ≡ ret (resolve (s ∷ ss) key) vm
unfolding get_in unless_null resolve
get_in_link s ss key none up vm e l u = ground (arith, e)
get_in_link s ss key (some v) up vm e l u = ground (arith, e)

-- In a chain of scopes that ends, with at least as much fuel as it has scopes, `scope_get` returns
-- the value of the innermost scope that declares the name, or `undefined`, and changes nothing.
pub scope_get_lem :
    (fuel : ℕ) (p : Ptr) (ss : List Scope) (key : Str) (vm : Vm)
    → IsChain vm.heap p ss
    → length ss ≤ fuel
    → scope_get fuel p key vm ≡ ret (resolve ss key) vm
unfolding scope_get deref_scope
scope_get_lem zero p [] key vm chain h = elim chain [ ]
scope_get_lem (suc fuel) p [] key vm chain h = elim chain [ ]
scope_get_lem zero p (s ∷ ss) key vm chain h = absurd (omega arith)
scope_get_lem (suc fuel) p (s ∷ []) key vm (last at top) h =
    rw at (get_in_last s key (dict_get s.symbols key) (scope_get fuel s.parent key) vm refl top)
scope_get_lem (suc fuel) p (s ∷ ss) key vm (link at up chain) h = rw at (
    get_in_link s ss key (dict_get s.symbols key) (scope_get fuel s.parent key) vm refl up
      (scope_get_lem fuel s.parent ss key vm chain (omega arith)))

contains_in_last :
    (s : Scope) (key : Str) (o : Option JsValue) (up : Exec Bool) (vm : Vm)
    → dict_get s.symbols key ≡ o
    → s.parent ≡ null
    → contains_in o (unless_null s.parent false up) vm ≡ ret (declared (s ∷ []) key) vm
unfolding contains_in unless_null declared
contains_in_last s key none up vm e l = ground (arith, e)
contains_in_last s key (some v) up vm e l = ground (arith, e)

contains_in_link :
    (s : Scope) (ss : List Scope) (key : Str) (o : Option JsValue) (up : Exec Bool) (vm : Vm)
    → dict_get s.symbols key ≡ o
    → s.parent ≢ null
    → up vm ≡ ret (declared ss key) vm
    → contains_in o (unless_null s.parent false up) vm ≡ ret (declared (s ∷ ss) key) vm
unfolding contains_in unless_null declared
contains_in_link s ss key none up vm e l u = ground (arith, e)
contains_in_link s ss key (some v) up vm e l u = ground (arith, e)

-- In a chain of scopes that ends, with at least as much fuel as it has scopes, `scope_contains` with
-- the parents included returns whether some scope declares the name, and changes nothing.
pub scope_contains_lem :
    (fuel : ℕ) (p : Ptr) (ss : List Scope) (key : Str) (vm : Vm)
    → IsChain vm.heap p ss
    → length ss ≤ fuel
    → scope_contains fuel p key true vm ≡ ret (declared ss key) vm
unfolding scope_contains deref_scope
scope_contains_lem zero p [] key vm chain h = elim chain [ ]
scope_contains_lem (suc fuel) p [] key vm chain h = elim chain [ ]
scope_contains_lem zero p (s ∷ ss) key vm chain h = absurd (omega arith)
scope_contains_lem (suc fuel) p (s ∷ []) key vm (last at top) h = rw at (
    contains_in_last s key (dict_get s.symbols key) (scope_contains fuel s.parent key true) vm refl
      top)
scope_contains_lem (suc fuel) p (s ∷ ss) key vm (link at up chain) h = rw at (
    contains_in_link s ss key (dict_get s.symbols key) (scope_contains fuel s.parent key true) vm
      refl up (scope_contains_lem fuel s.parent ss key vm chain (omega arith)))

-- What `scope_declare` leaves: the scope at `p` with `symbols` for its dictionary, and `n` calls of
-- the allocator.
abbrev with_symbols : Vm → Ptr → Scope → JsDict → ℕ → Vm
with_symbols vm p s symbols n = record vm {
  heap = record vm.heap {
    allocs = n;
    scopes = update vm.heap.scopes p (some (record s { symbols = symbols }));
  };
}

module _ (h : Host) (key : Str) (v : JsValue) where
  get_declared :
      (fuel : ℕ) (p : Ptr) (s : Scope) (symbols : JsDict) (n : ℕ) (vm : Vm)
      → Puts s.symbols key v symbols
      → scope_get (suc fuel) p key (with_symbols vm p s symbols n)
        ≡ ret v (with_symbols vm p s symbols n)
  unfolding scope_get deref_scope get_in
  get_declared fuel p s symbols n vm puts = ground (arith, puts.keys key, str_eq_refl key)

  -- Declaring a name in a scope whose dictionary is well formed, while the collector returns an
  -- entry, returns; afterwards `scope_get` from this scope returns the declared value, whatever the
  -- scope and its parents held.
  pub scope_declare-scope_get :
      (fuel : ℕ) (p : Ptr) (s : Scope) (vm : Vm)
      → vm.heap.scopes p ≡ some s
      → IsDict s.symbols
      → h.malloc vm.heap.allocs ≢ null
      → (vm' : Vm) × (scope_declare h p key v vm ≡ ret tt vm')
        × (scope_get (suc fuel) p key vm' ≡ ret v vm')
  unfolding scope_declare deref_scope declare_in overwrite put_scope gc_malloc
  scope_declare-scope_get fuel p s vm at w entry = elim (Option-cases (dict_get s.symbols key)) [
    | inl gone ↦
        let (d, added, puts) = dict_add_lem s.symbols w key v (h.malloc vm.heap.allocs) entry in
        (
          with_symbols vm p s d (vm.heap.allocs + 1),
          rw (at, gone, added),
          get_declared fuel p s d _ vm puts,
        )
    | inr (old, is) ↦
        let updated = dict_update_present s.symbols w key v (λ e. ground arith) in
        (
          with_symbols vm p s (dict_update s.symbols key v).1 vm.heap.allocs,
          rw (at, is),
          get_declared fuel p s _ _ vm updated.1,
        )
  ]
