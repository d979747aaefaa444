-- ===== src/Loader/Trip/Bundle.antt =====
-- Files of atomixc that the loader is given without a word on what they are: modules, and bundles.
use atomix_js.Prelude.{ℕ, ◌+◌, ◌*◌, ◌≡◌, ◌≢◌, ◌<◌, refl, false, List, [], ◌∷◌, ◌++◌, length, arith}
use atomix_js.Prelude.Result.{ok, invalid_magic}
use atomix_js.Vm.{Vm, Ptr}
use atomix_js.Vm.Exec.{Host, put_bundle, ret, panicked}
use atomix_js.Vm.Succeeds.{
  Succeeds, succeeds, Succeeds-bind, Succeeds-then, Succeeds-mono, Allocates,
  gc_malloc_checked-Succeeds,
}
use atomix_js.Loader.Bytes.{Buffer, has_magic, read_uint}
use atomix_js.Loader.Files.{
  load_bundle, load_module, check_header, module_magic3, bundle_magic3, bundle_version,
  module_load_from_buffer, bundle_load_from_buffer, unknown_load_from_buffer,
}
use atomix_js.Loader.Write.{
  ModuleFormat, write_uint, write_hash, write_header, write_stable, stable_length, write_data,
  write_module, write_modules, write_bundle,
}
use atomix_js.Loader.Trip.Header.{has_magic_lem, check_header_version, write_hash_lem}
use atomix_js.Loader.Trip.Holds.{
  Holds, Holds-front, Holds-back, Holds-next, read_uint-front, byte_bound,
}
use atomix_js.Loader.Trip.Module.{
  IsWritable, HoldsModule, module_load_from_buffer_offset-write_module,
}
use atomix_js.Loader.Trip.Modules.{InBundle, load_modules_one, load_modules_two}

module _ (h : Host) (memory : Allocates h) (buff : Buffer) where
  module_load_from_buffer-write_module :
      (f : ModuleFormat) (p : Ptr) (vm : Vm)
      → IsWritable f
      → Holds buff 0 (write_module f)
      → Succeeds (λ u w. HoldsModule f p w) (module_load_from_buffer h buff p vm)
  unfolding module_load_from_buffer
  module_load_from_buffer-write_module f p vm fits held =
      Succeeds-bind (module_load_from_buffer_offset-write_module h memory buff f 0 fits held p vm)
        λ next w loaded. succeeds loaded.1

  -- A module that atomixc writes, with every number in the range of its field, is recognised and loaded
  -- where the collector has memory left: behind it stands a module with the hash, the strings and the
  -- instructions that were written, not initialized, and in no bundle.
  pub unknown_load_from_buffer-write_module :
      (f : ModuleFormat) (p bundle : Ptr) (vm : Vm)
      → IsWritable f
      → Holds buff 0 (write_module f)
      → Succeeds
          (λ r w. (r ≡ load_module) × HoldsModule f p w)
          (unknown_load_from_buffer h buff p bundle vm)
  unfolding unknown_load_from_buffer write_module
  unknown_load_from_buffer-write_module f p bundle vm fits held =
      rw
        (has_magic_lem h buff 0 46 65 120 77
          (2 ∷ 0 ∷ (write_header f ++ (write_stable f.strings ++ write_data f.instructions)))
          module_magic3 held)
        (Succeeds-bind (module_load_from_buffer-write_module f p vm fits held)
          λ u w loaded. succeeds (refl, loaded))

  -- The bytes in front of the modules of a bundle.
  module _ (low high : ℕ) (fs : List ModuleFormat) (low_fits : low < byte_bound 4)
      (high_fits : high < byte_bound 4) (few : length fs < byte_bound 2)
      (held : Holds buff 0 (write_bundle low high fs)) where
    abbrev counted : Buffer
    counted = write_uint 2 (length fs) ++ write_modules fs

    no_module : has_magic module_magic3 buff 0 ≡ ok false
    unfolding write_bundle
    no_module =
        has_magic_lem h buff 0 46 65 120 66 (1 ∷ 0 ∷ (write_hash low high ++ counted)) module_magic3
          held

    bundle_checked : (vm : Vm) → check_header h buff bundle_magic3 bundle_version 0 vm ≡ ret tt vm
    unfolding write_bundle
    bundle_checked vm =
        check_header_version h buff 0 46 65 120 66 1 0 (write_hash low high ++ counted)
          bundle_magic3 bundle_version vm held refl

    entry_held : Holds buff 6 (write_uint 8 (low + byte_bound 4 * high) ++ counted)
    unfolding write_bundle
    entry_held =
        rw (write_hash_lem low high low_fits)
          (Holds-back 0 (46 ∷ 65 ∷ 120 ∷ 66 ∷ 1 ∷ 0 ∷ []) (write_hash low high ++ counted) held)

    entry_read : read_uint 8 buff 6 ≡ ok (low + byte_bound 4 * high)
    entry_read =
        read_uint-front buff 8 (low + byte_bound 4 * high) 6 counted (omega arith) entry_held

    count_held : Holds buff 14 counted
    count_held = Holds-next buff 8 (low + byte_bound 4 * high) 6 counted entry_held

    count_read : read_uint 2 buff 14 ≡ ok (length fs)
    count_read = read_uint-front buff 2 (length fs) 14 (write_modules fs) few count_held

    modules_held : Holds buff 16 (write_modules fs)
    modules_held = Holds-next buff 2 (length fs) 14 (write_modules fs) count_held

  module _ (low high : ℕ) (f : ModuleFormat) (module_ptr bundle : Ptr) (vm : Vm)
      (low_fits : low < byte_bound 4) (high_fits : high < byte_bound 4) (fits : IsWritable f) where
    bundle_load_one :
        Holds buff 0 (write_bundle low high (f ∷ []))
        → Succeeds
            (λ u w. (p : Ptr) × InBundle f bundle p w)
            (bundle_load_from_buffer h buff bundle vm)
    unfolding bundle_load_from_buffer put_bundle write_modules
    bundle_load_one held =
        rw
          (
            bundle_checked low high (f ∷ []) low_fits high_fits (omega arith) held vm,
            entry_read low high (f ∷ []) low_fits high_fits (omega arith) held,
            count_read low high (f ∷ []) low_fits high_fits (omega arith) held,
          )
          (Succeeds-bind (gc_malloc_checked-Succeeds h memory vm) λ p w u.
            Succeeds-mono
              (load_modules_one h memory buff f bundle p _ fits (
                Holds-front 16 (write_module f) []
                  (modules_held low high (f ∷ []) low_fits high_fits (omega arith) held)))
              λ v w1 loaded. (p, loaded))

    -- A bundle of one module that atomixc writes, with every number in the range of its field, is
    -- recognised and loaded where the collector has memory left, and its module ends up as it was
    -- written, with a pointer to its bundle.
    pub unknown_load_from_buffer-write_bundle :
        Holds buff 0 (write_bundle low high (f ∷ []))
        → Succeeds
            (λ r w. (r ≡ load_bundle) × ((p : Ptr) × InBundle f bundle p w))
            (unknown_load_from_buffer h buff module_ptr bundle vm)
    unfolding unknown_load_from_buffer
    unknown_load_from_buffer-write_bundle held =
        rw (no_module low high (f ∷ []) low_fits high_fits (omega arith) held)
          (Succeeds-bind (bundle_load_one held) λ u w loaded. succeeds (refl, loaded))

    module _ (g : ModuleFormat) (fs : List ModuleFormat)
        (few : length (f ∷ g ∷ fs) < byte_bound 2) where
      bundle_load_many :
          stable_length f.strings ≢ 0x4D78_412E
          → Holds buff 0 (write_bundle low high (f ∷ g ∷ fs))
          → bundle_load_from_buffer h buff bundle vm ≡ panicked invalid_magic
      unfolding bundle_load_from_buffer put_bundle
      bundle_load_many other held =
          rw
            (
              bundle_checked low high (f ∷ g ∷ fs) low_fits high_fits few held vm,
              entry_read low high (f ∷ g ∷ fs) low_fits high_fits few held,
              count_read low high (f ∷ g ∷ fs) low_fits high_fits few held,
            )
            (Succeeds-then (gc_malloc_checked-Succeeds h memory vm) λ p w u.
              load_modules_two h memory buff f g fs (length fs) bundle p _ fits other
                (modules_held low high (f ∷ g ∷ fs) low_fits high_fits few held))

      -- A bundle of two or more modules, as atomixc writes it with every number of the first in the
      -- range of its field, is refused for its magic bytes where the collector has memory left, unless
      -- the length of the first string table happens to read as the magic bytes of a module.
      pub unknown_load_from_buffer_many :
          stable_length f.strings ≢ 0x4D78_412E
          → Holds buff 0 (write_bundle low high (f ∷ g ∷ fs))
          → unknown_load_from_buffer h buff module_ptr bundle vm ≡ panicked invalid_magic
      unfolding unknown_load_from_buffer
      unknown_load_from_buffer_many other held =
          rw
            (
              no_module low high (f ∷ g ∷ fs) low_fits high_fits few held,
              bundle_load_many other held,
            )
            refl
