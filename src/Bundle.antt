-- ===== src/Bundle.antt =====
-- `bundle_get_module` of core/format.c, and the native modules that core/api.c registers for it.
pub mod Keeps
pub mod Modules
use atomix_js.Prelude.{
  ℕ, zero, suc, ◌+◌, ◌*◌, List, [], ◌∷◌, length, ◌==◌, if◌then◌else◌, true, false,
}
use atomix_js.Prelude.Result.{module_not_found}
use atomix_js.Format.{Found, module_at, not_in_bundle, outside_array, out_of_fuel, bundle_search}
use atomix_js.Vm.{Ptr, null, Vm, JsBundle, JsModule}
use atomix_js.Vm.Exec.{
  Exec, pure, raise, crash, exhausted, ◌>>=◌, ◌>>◌, Host, get_vm, put_globals, deref_module,
  deref_bundle, put_module, gc_malloc_unchecked,
}

module _ (h : Host) where
  -- `&bundle->modules[i]`
  abbrev pub module_slot : JsBundle → ℕ → Ptr
  module_slot bundle i = bundle.modules + i * h.module_size

  -- The hashes of `n` modules of the array, from the i-th on.
  unfoldable pub module_hashes : ℕ → JsBundle → ℕ → Exec (List ℕ)
  module_hashes zero bundle i = pure []
  module_hashes (suc n) bundle i = do
    m ← deref_module (module_slot bundle i)
    hashes ← module_hashes n bundle (i + 1)
    pure (m.hash ∷ hashes)

  -- The walk along `native_modules`.
  unfoldable pub native_search : List Ptr → ℕ → Exec Ptr
  native_search [] hash = raise module_not_found
  native_search (p ∷ list) hash = do
    m ← deref_module p
    if m.hash == hash then pure p else native_search list hash

  unfoldable pub search_native_modules : ℕ → Exec Ptr
  search_native_modules hash = do vm ← get_vm; native_search vm.globals.native_modules hash

  unfoldable pub from_search : JsBundle → ℕ → Found → Exec Ptr
  from_search bundle hash (module_at i) = pure (module_slot bundle i)
  from_search bundle hash not_in_bundle = search_native_modules hash
  from_search bundle hash outside_array = crash
  from_search bundle hash out_of_fuel = exhausted

  -- The search reads hashes of modules only, so they are read first here.
  unfoldable pub bundle_get_module : Ptr → ℕ → Exec Ptr
  bundle_get_module bundle hash = if bundle == null then search_native_modules hash else do
    b ← deref_bundle bundle
    hashes ← module_hashes b.module_count b 0
    from_search b hash (bundle_search (b.module_count + 2) hashes hash)

  unfoldable pub register_native_module : ℕ → Ptr → Exec (Unit {0})
  register_native_module hash exports = do
    entry ← gc_malloc_unchecked h
    p ← gc_malloc_unchecked h
    put_module p (record {
      bundle = null;
      hash = hash;
      string_table = record { length = 0; count = 0; offsets = []; strings = [] };
      count = 0;
      instructions = [];
      initialized = true;
      exports = exports;
      scope = null;
    })
    vm ← get_vm
    put_globals (record vm.globals { native_modules = p ∷ vm.globals.native_modules })
