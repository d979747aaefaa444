-- ===== src/Scope.antt =====
-- core/scope.c: scopes as dictionaries with a parent. A walk to the parents takes fuel; `out_of_fuel`
-- stands for the endless recursion of a cyclic chain.
pub mod Chain
pub mod Keeps
use atomix_js.Prelude.{
  ℕ, zero, suc, ◌+◌, Bool, true, false, Str, ◌==◌, if◌then◌else◌, is_some, Option, none, some,
}
use atomix_js.Value.{JsValue, value_undefined}
use atomix_js.Dict.{JsDict, dict_create_dict, dict_get, dict_add, dict_update}
use atomix_js.Dict.Delete.{dict_delete}
use atomix_js.Vm.{Ptr, null, Vm, Scope}
use atomix_js.Vm.Exec.{
  Exec, Outcome, exhausted, pure, crash, lift, ◌>>=◌, ◌>>◌, Host, gc_malloc, gc_malloc_checked,
  gc_malloc_unchecked, deref_scope, put_scope,
}

abbrev pub scope_bucket_size : ℕ
scope_bucket_size = 32

-- As many steps as there were allocations reach the end of a chain without a cycle.
abbrev pub chain_fuel : Exec ℕ
chain_fuel vm = Outcome.ret (vm.heap.allocs + 1) vm

-- `dict_create_dict`, with its two allocations: the first is tested, the second is used at once.
unfoldable pub new_dict : Host → ℕ → Exec JsDict
new_dict h n = do
  dict ← gc_malloc_checked h
  buckets ← gc_malloc_unchecked h
  pure (dict_create_dict n)

unfoldable pub scope_create_scope : Host → Ptr → Exec Ptr
scope_create_scope h parent = do
  p ← gc_malloc_unchecked h
  symbols ← new_dict h scope_bucket_size
  put_scope p (record { parent = parent; symbols = symbols })
  pure p

-- The last two steps of a walk: the parent, or a result where there is none.
unfoldable pub unless_null : {A : Type 0} → Ptr → A → Exec A → Exec A
unless_null parent a up = if parent == null then pure a else up

-- `*prop = value` for the node that `dict_get` found.
unfoldable pub overwrite : Ptr → Scope → Str → JsValue → Exec (Unit {0})
overwrite p s key v = put_scope p (record s { symbols = (dict_update s.symbols key v).1 })

unfoldable pub set_in : Ptr → Scope → Str → JsValue → Option JsValue → Exec Bool → Exec Bool
set_in p s key v (some old) up = do overwrite p s key v; pure true
set_in p s key v none up = up

unfoldable pub scope_set : ℕ → Ptr → Str → JsValue → Exec Bool
scope_set zero p key v = exhausted
scope_set (suc fuel) p key v = do
  s ← deref_scope p
  set_in p s key v (dict_get s.symbols key)
      (unless_null s.parent false (scope_set fuel s.parent key v))

unfoldable pub declare_in : Host → Ptr → Scope → Str → JsValue → Option JsValue → Exec (Unit {0})
declare_in h p s key v (some old) = overwrite p s key v
declare_in h p s key v none = do
  entry ← gc_malloc h
  symbols ← lift (dict_add entry s.symbols key v)
  put_scope p (record s { symbols = symbols })

unfoldable pub scope_declare : Host → Ptr → Str → JsValue → Exec (Unit {0})
scope_declare h p key v = do s ← deref_scope p; declare_in h p s key v (dict_get s.symbols key)

unfoldable pub get_in : Option JsValue → Exec JsValue → Exec JsValue
get_in (some v) up = pure v
get_in none up = up

unfoldable pub scope_get : ℕ → Ptr → Str → Exec JsValue
scope_get zero p key = exhausted
scope_get (suc fuel) p key = do
  s ← deref_scope p
  get_in (dict_get s.symbols key)
      (unless_null s.parent value_undefined (scope_get fuel s.parent key))

unfoldable pub contains_in : Option JsValue → Exec Bool → Exec Bool
contains_in (some v) up = pure true
contains_in none up = up

unfoldable pub scope_contains : ℕ → Ptr → Str → Bool → Exec Bool
scope_contains zero p key parent_scopes = exhausted
scope_contains (suc fuel) p key parent_scopes = do
  s ← deref_scope p
  let up = scope_contains fuel s.parent key true
  contains_in (dict_get s.symbols key)
      (if parent_scopes then unless_null s.parent false up else pure false)

-- Of this scope alone. Where the key is absent, the dictionary comes back as it was.
unfoldable pub scope_delete : Ptr → Str → Exec Bool
scope_delete p key = do
  s ← deref_scope p
  deleted ← lift (dict_delete s.symbols key)
  put_scope p (record s { symbols = deleted.1 })
  pure deleted.0
