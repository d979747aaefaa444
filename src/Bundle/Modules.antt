-- ===== src/Bundle/Modules.antt =====
-- `bundle_get_module` of core/format.c on a bundle in memory, and on the registered native modules.
use atomix_js.Prelude.{
  ℕ, ◌+◌, ◌<◌, ◌≡◌, refl, ap, true, false, some, List, [], ◌∷◌, length, get_elem?, ==_refl, ◌==◌,
  arith,
}
use mathlib.Core.Path.{◌∙◌, subst}
use atomix_js.Format.{bundle_search}
use atomix_js.Format.Search.{IsSorted, bundle_search_present, bundle_search_between}
use atomix_js.Vm.{Vm, Ptr, null, JsBundle, JsModule, update}
use atomix_js.Vm.Exec.{
  Host, ret, gc_malloc, gc_malloc_unchecked, deref_module, deref_bundle, put_module,
}
use atomix_js.Vm.Succeeds.{Allocates}
use atomix_js.Bundle.{
  module_slot, module_hashes, native_search, search_native_modules, from_search, bundle_get_module,
  register_native_module,
}

module _ (h : Host) where
  -- From the i-th slot of the array on, the heap holds modules with these hashes.
  pub data Stored (vm : Vm) (b : JsBundle) : ℕ → List ℕ → Type 0 where
    no_more : {i : ℕ} → Stored vm b i []
    stored :
        {i : ℕ} {hashes : List ℕ} {m : JsModule}
        → vm.heap.modules (module_slot h b i) ≡ some m
        → Stored vm b (i + 1) hashes
        → Stored vm b i (m.hash ∷ hashes)

  -- A bundle in memory, with its modules in the order of their hashes.
  pub record Contains (vm : Vm) (bundle : Ptr) (b : JsBundle) (hashes : List ℕ) : Type 0 where
    pub address : (bundle == null) ≡ false
    pub bundle_is : vm.heap.bundles bundle ≡ some b
    pub counted : length hashes ≡ b.module_count
    pub modules_are : Stored vm b 0 hashes
    pub sorted : IsSorted hashes

  module_hashes_lem :
      (vm : Vm) (b : JsBundle) (i : ℕ) (hashes : List ℕ)
      → Stored vm b i hashes
      → module_hashes h (length hashes) b i vm ≡ ret hashes vm
  unfolding module_hashes deref_module
  module_hashes_lem vm b i [] s = refl
  module_hashes_lem vm b i (x ∷ hashes) (stored e s) =
      rw (e, module_hashes_lem vm b (i + 1) hashes s) refl

  counted_hashes :
      (vm : Vm) (b : JsBundle) (hashes : List ℕ) (n : ℕ)
      → length hashes ≡ n
      → Stored vm b 0 hashes
      → module_hashes h n b 0 vm ≡ ret hashes vm
  counted_hashes vm b hashes n e s =
      subst (λ n. module_hashes h n b 0 vm ≡ ret hashes vm) e (module_hashes_lem vm b 0 hashes s)

  searched :
      (vm : Vm) (bundle : Ptr) (b : JsBundle) (hashes : List ℕ) (hash : ℕ)
      → Contains vm bundle b hashes
      → bundle_get_module h bundle hash vm
        ≡ from_search h b hash (bundle_search (b.module_count + 2) hashes hash) vm
  unfolding bundle_get_module deref_bundle
  searched vm bundle b hashes hash c =
      rw (c.address, c.bundle_is, counted_hashes vm b hashes b.module_count c.counted c.modules_are)
        refl

  -- In a bundle whose modules stand in the order of their hashes, bundle_get_module returns the
  -- address of the k-th module for the hash of that module, and changes nothing.
  pub bundle_get_module_present :
      (vm : Vm) (bundle : Ptr) (b : JsBundle) (hashes : List ℕ) (hash k : ℕ)
      → Contains vm bundle b hashes
      → get_elem? hashes k ≡ some hash
      → bundle_get_module h bundle hash vm ≡ ret (module_slot h b k) vm
  unfolding from_search
  bundle_get_module_present vm bundle b hashes hash k c at =
      let counted = c.counted in
      searched vm bundle b hashes hash c
      ∙ ap (λ f. from_search h b hash f vm)
          (bundle_search_present hashes c.sorted hash (b.module_count + 2) k at (omega arith))

  -- The bundle, if there is one, has two neighbours that the hash falls between.
  pub data Leaves (vm : Vm) (hash : ℕ) : Ptr → Type 0 where
    no_bundle : Leaves vm hash null
    falls_between :
        {bundle : Ptr} {b : JsBundle} {hashes : List ℕ} (k lower upper : ℕ)
        → Contains vm bundle b hashes
        → get_elem? hashes k ≡ some lower
        → get_elem? hashes (k + 1) ≡ some upper
        → lower < hash
        → hash < upper
        → Leaves vm hash bundle

  bundle_get_module_native :
      (vm : Vm) (hash : ℕ) (bundle : Ptr)
      → Leaves vm hash bundle
      → bundle_get_module h bundle hash vm ≡ search_native_modules h hash vm
  unfolding bundle_get_module from_search
  bundle_get_module_native vm hash bundle no_bundle = refl
  bundle_get_module_native vm hash bundle (falls_between {b = b} {hashes} k lower upper c l u p q) =
      let counted = c.counted in
      searched vm bundle b hashes hash c
      ∙ ap (λ f. from_search h b hash f vm)
          (bundle_search_between hashes c.sorted hash (b.module_count + 2) k lower upper l u p q
            (omega arith))

-- The module that stands for the native functions in `exports`.
abbrev pub native_module : ℕ → Ptr → JsModule
native_module hash exports = record {
  bundle = null;
  hash = hash;
  string_table = record { length = 0; count = 0; offsets = []; strings = [] };
  count = 0;
  instructions = [];
  initialized = true;
  exports = exports;
  scope = null;
}

module _ (h : Host) where
  -- The second of the two allocations.
  abbrev pub native_address : Vm → Ptr
  native_address vm = h.malloc (vm.heap.allocs + 1)

  -- The machine after `register_native_module`.
  abbrev pub registered : ℕ → Ptr → Vm → Vm
  registered hash exports vm = record vm {
    heap = record vm.heap {
      allocs = vm.heap.allocs + 1 + 1;
      modules = update vm.heap.modules (native_address vm) (some (native_module hash exports));
    };
    globals = record vm.globals { native_modules = native_address vm ∷ vm.globals.native_modules };
  }

  register_native_module_lem :
      (hash : ℕ) (exports : Ptr) (vm : Vm)
      → Allocates h
      → register_native_module h hash exports vm ≡ ret tt (registered hash exports vm)
  unfolding register_native_module gc_malloc_unchecked gc_malloc put_module
  register_native_module_lem hash exports vm memory =
      rw (memory.never_null vm.heap.allocs, memory.never_null (vm.heap.allocs + 1)) refl

  newest_native :
      (hash : ℕ) (exports : Ptr) (vm : Vm)
      → search_native_modules h hash (registered hash exports vm)
        ≡ ret (native_address vm) (registered hash exports vm)
  unfolding search_native_modules native_search deref_module
  newest_native hash exports vm = rw (==_refl (native_address vm), ==_refl hash) refl

  -- Where the collector has memory left, register_native_module returns, and in the machine that it
  -- leaves bundle_get_module returns the new module for its hash, ahead of the modules registered
  -- before, where there is no bundle or the hash falls between two neighbours of the bundle.
  pub register_native_module-bundle_get_module :
      (hash : ℕ) (exports bundle : Ptr) (vm : Vm)
      → Allocates h
      → Leaves h (registered hash exports vm) hash bundle
      → (register_native_module h hash exports vm ≡ ret tt (registered hash exports vm))
        × (bundle_get_module h bundle hash (registered hash exports vm)
            ≡ ret (native_address vm) (registered hash exports vm))
  register_native_module-bundle_get_module hash exports bundle vm memory leaves = (
    register_native_module_lem hash exports vm memory,
    bundle_get_module_native h (registered hash exports vm) hash bundle leaves
        ∙ newest_native hash exports vm,
  )
