-- ===== src/Loader/Trip/Modules.antt =====
-- The modules of a bundle that atomixc writes, as the loader walks along them.
use atomix_js.Prelude.{
  ℕ, suc, ◌+◌, ◌%◌, ◌/◌, ◌≡◌, ◌≢◌, ◌<◌, refl, false, some, List, ◌∷◌, arith, ==_refl,
}
use atomix_js.Prelude.Result.{invalid_magic}
use atomix_js.Vm.{Vm, Ptr}
use atomix_js.Vm.Exec.{Host, put_module, deref_module, panicked}
use atomix_js.Vm.Succeeds.{Succeeds, succeeds, Succeeds-bind, Succeeds-then, Allocates}
use atomix_js.Loader.Bytes.{Buffer}
use atomix_js.Loader.Files.{
  check_header, module_magic3, module_version, module_load_from_buffer_offset, load_modules,
}
use atomix_js.Loader.Write.{
  ModuleFormat, write_uint, write_stable, stable_length, write_module, write_modules,
}
use atomix_js.Loader.Trip.Header.{is_magic, check_header_magic}
use atomix_js.Loader.Trip.Holds.{Holds, Holds-front, byte_bound}
use atomix_js.Loader.Trip.Module.{
  IsWritable, module_of, sections_held, table_small, module_load_from_buffer_offset-write_module,
}

-- The module stands at `p`, and knows its bundle.
abbrev pub InBundle : ModuleFormat → Ptr → Ptr → Vm → Type 0
InBundle f bundle p vm =
    (exports : Ptr) × ((scope : Ptr) × (vm.heap.modules p
        ≡ some (record (module_of f exports scope) { bundle = bundle })))

length_is_no_magic :
    (n : ℕ)
    → n < byte_bound 4
    → n ≢ 0x4D78_412E
    → is_magic module_magic3
        (n % 256)
        (n / 256 % 256)
        (n / 256 / 256 % 256)
        (n / 256 / 256 / 256 % 256)
      ≡ false
length_is_no_magic n small other = ground arith

module _ (h : Host) (memory : Allocates h) (buff : Buffer) where
  -- Behind the header of a first module stands its string table.
  first_held :
      (f g : ModuleFormat) (fs : List ModuleFormat)
      → Holds buff 16 (write_modules (f ∷ g ∷ fs))
      → Holds buff 16 (write_module f)
  unfolding write_modules
  first_held f g fs held = Holds-front 16 (write_module f) (write_modules (g ∷ fs)) held

  table_is_no_header :
      (f : ModuleFormat) (vm : Vm)
      → IsWritable f
      → stable_length f.strings ≢ 0x4D78_412E
      → Holds buff 16 (write_module f)
      → check_header h buff module_magic3 module_version 38 vm ≡ panicked invalid_magic
  unfolding write_stable write_uint
  table_is_no_header f vm fits other held =
      check_header_magic h buff 38 _ _ _ _ _ module_magic3 module_version vm
        (sections_held h memory buff f 16 fits held)
        (length_is_no_magic (stable_length f.strings) (table_small h memory buff f 16 fits held)
          other)

  second_lem :
      (f : ModuleFormat) (p : Ptr) (vm : Vm)
      → IsWritable f
      → stable_length f.strings ≢ 0x4D78_412E
      → Holds buff 16 (write_module f)
      → module_load_from_buffer_offset h buff p 38 vm ≡ panicked invalid_magic
  unfolding module_load_from_buffer_offset
  second_lem f p vm fits other held = rw (table_is_no_header f vm fits other held) refl

  -- The loader goes on behind the header of a module.
  pub load_modules_two :
      (f g : ModuleFormat) (fs : List ModuleFormat) (n : ℕ) (bundle p : Ptr) (vm : Vm)
      → IsWritable f
      → stable_length f.strings ≢ 0x4D78_412E
      → Holds buff 16 (write_modules (f ∷ g ∷ fs))
      → load_modules h buff (suc (suc n)) bundle p 16 vm ≡ panicked invalid_magic
  unfolding load_modules write_modules deref_module put_module
  load_modules_two f g fs n bundle p vm fits other held =
      Succeeds-then
        (module_load_from_buffer_offset-write_module h memory buff f 16 fits
          (first_held f g fs held) p vm)
        λ next w loaded.
          rw
            (
              loaded.0,
              loaded.1.1.1,
              second_lem f (p + h.module_size) _ fits other (first_held f g fs held),
            )
            refl

  pub load_modules_one :
      (f : ModuleFormat) (bundle p : Ptr) (vm : Vm)
      → IsWritable f
      → Holds buff 16 (write_module f)
      → Succeeds (λ u w. InBundle f bundle p w) (load_modules h buff 1 bundle p 16 vm)
  unfolding load_modules deref_module put_module
  load_modules_one f bundle p vm fits held =
      Succeeds-bind (module_load_from_buffer_offset-write_module h memory buff f 16 fits held p vm)
        λ next w loaded.
          rw loaded.1.1.1 (succeeds (loaded.1.0, (loaded.1.1.0, rw (==_refl p) refl)))
