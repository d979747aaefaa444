-- ===== src/Bundle/Keeps.antt =====
-- Finding a module keeps every invariant of the registers and the stack.
use atomix_js.Prelude.{ℕ, zero, suc, ◌+◌, List, [], ◌∷◌, ◌==◌}
use atomix_js.Format.{Found, module_at, not_in_bundle, outside_array, out_of_fuel}
use atomix_js.Vm.{Vm, Ptr, JsBundle}
use atomix_js.Vm.Exec.{Host}
use atomix_js.Vm.Keeps.{
  Keeps, IsBlind, keeps_rules, returned, by_panic, by_crash, by_fuel, Ends-bind, Ends-if,
  deref_module-Keeps, deref_bundle-Keeps, put_module-Keeps, put_globals-Keeps,
  gc_malloc_unchecked-Keeps,
}
use atomix_js.Bundle.{
  module_slot, module_hashes, native_search, search_native_modules, from_search, bundle_get_module,
  register_native_module,
}

module _ {I : Vm → Type 0} (blind : IsBlind I) (h : Host) where
  module_hashes-Keeps : (n : ℕ) (b : JsBundle) (i : ℕ) → Keeps I (module_hashes h n b i)
  unfolding module_hashes
  module_hashes-Keeps zero b i vm k = returned k
  module_hashes-Keeps (suc n) b i vm k =
      Ends-bind (deref_module-Keeps blind (module_slot h b i) vm k)
        λ m. λ w j. Ends-bind (module_hashes-Keeps n b (i + 1) w j) λ hashes. λ w1 j1. returned j1

  native_search-Keeps : (list : List Ptr) (hash : ℕ) → Keeps I (native_search h list hash)
  unfolding native_search
  native_search-Keeps [] hash vm k = by_panic
  native_search-Keeps (p ∷ list) hash vm k =
      Ends-bind (deref_module-Keeps blind p vm k) λ m.
        λ w1 k1. Ends-if (m.hash == hash) (λ w j. returned j) (native_search-Keeps list hash) k1

  search_native_modules-Keeps : (hash : ℕ) → Keeps I (search_native_modules h hash)
  unfolding search_native_modules
  search_native_modules-Keeps hash vm k = native_search-Keeps vm.globals.native_modules hash vm k

  from_search-Keeps : (b : JsBundle) (hash : ℕ) (f : Found) → Keeps I (from_search h b hash f)
  unfolding from_search
  from_search-Keeps b hash (module_at i) vm k = returned k
  from_search-Keeps b hash not_in_bundle vm k = search_native_modules-Keeps hash vm k
  from_search-Keeps b hash outside_array vm k = by_crash
  from_search-Keeps b hash out_of_fuel vm k = by_fuel

  pub bundle_get_module-Keeps :
      (bundle : Ptr) (hash : ℕ) → Keeps I (bundle_get_module h bundle hash)
  unfolding bundle_get_module
  bundle_get_module-Keeps bundle hash vm k =
      search
        (
          keeps_rules, blind, search_native_modules-Keeps, deref_bundle-Keeps, module_hashes-Keeps,
          from_search-Keeps,
        )
        depth 12

  pub register_native_module-Keeps :
      (hash : ℕ) (exports : Ptr) → Keeps I (register_native_module h hash exports)
  unfolding register_native_module
  register_native_module-Keeps hash exports vm k =
      search (keeps_rules, blind, gc_malloc_unchecked-Keeps, put_module-Keeps, put_globals-Keeps)
        depth 16
