-- ===== src/Loader/Trip/Module.antt =====
-- A module that atomixc writes, loaded by `module_load_from_buffer_offset`.
use atomix_js.Prelude.{
  ℕ, ◌+◌, ◌*◌, ◌≡◌, ◌<◌, refl, false, some, [], ◌∷◌, ◌++◌, length, length-append, arith, ==_refl,
}
use native.Mathlib.Nat.{add_assoc}
use mathlib.Core.Path.{subst}
use atomix_js.Prelude.Result.{ok}
use atomix_js.Vm.{Vm, Ptr, JsModule, null}
use atomix_js.Vm.Exec.{Host, put_module, ret}
use atomix_js.Vm.Succeeds.{Succeeds, succeeds, Succeeds-bind, Allocates}
use atomix_js.Object.Succeeds.{
  object_create_object-Succeeds, object_get_object_prototype-Succeeds, scope_create_scope-Succeeds,
}
use atomix_js.Loader.Bytes.{Buffer, read_uint}
use atomix_js.Loader.Files.{
  check_header, module_magic3, module_version, module_load_from_buffer_offset,
}
use atomix_js.Loader.Write.{
  ModuleFormat, write_uint, write_hash, write_stable, stable_length, write_data, data_length,
  data_start, write_header, write_module,
}
use atomix_js.Loader.Trip.Data.{AllFit, all_kept, load_data_section_lem}
use atomix_js.Loader.Trip.Header.{check_header_version, length-write_hash, write_hash_lem}
use atomix_js.Loader.Trip.Holds.{
  Holds, length-write_uint, Holds-front, Holds-back, Holds-next, read_uint-front,
  read_uint-write_uint, byte_bound,
}
use atomix_js.Loader.Trip.Strings.{length-write_stable, load_string_table_lem}
use atomix_js.Loader.Trip.Table.{table_of}

-- Every number of the module fits its field.
pub record IsWritable (f : ModuleFormat) : Type 0 where
  pub low_fits : f.low < byte_bound 4
  pub high_fits : f.high < byte_bound 4
  pub data_start_fits : data_start f < byte_bound 4
  pub count_fits : length f.instructions < byte_bound 4
  pub length_fits : data_length f.instructions < byte_bound 4
  pub operands_fit : AllFit f.instructions

unfoldable pub hash_of : ModuleFormat → ℕ
hash_of f = f.low + byte_bound 4 * f.high

-- The module that the loader makes, with its exports object and its scope.
abbrev pub module_of : ModuleFormat → Ptr → Ptr → JsModule
module_of f exports scope = record {
  bundle = null;
  hash = hash_of f;
  string_table = table_of f.strings;
  count = length f.instructions;
  instructions = all_kept f.instructions;
  initialized = false;
  exports = exports;
  scope = scope;
}

-- The module stands at `p`.
abbrev pub HoldsModule : ModuleFormat → Ptr → Vm → Type 0
HoldsModule f p vm =
    (exports : Ptr) × ((scope : Ptr) × (vm.heap.modules p ≡ some (module_of f exports scope)))

module _ (h : Host) (memory : Allocates h) (buff : Buffer) (f : ModuleFormat) (start : ℕ)
    (fits : IsWritable f) (held : Holds buff start (write_module f)) where
  abbrev code : Buffer
  code = write_data f.instructions

  abbrev sections : Buffer
  sections = write_stable f.strings ++ code

  abbrev magic : Buffer
  magic = 46 ∷ 65 ∷ 120 ∷ 77 ∷ 2 ∷ 0 ∷ []

  abbrev starts : Buffer
  starts = write_uint 4 22 ++ write_uint 4 (data_start f)

  header_checked : (vm : Vm) → check_header h buff module_magic3 module_version start vm ≡ ret tt vm
  unfolding write_module
  header_checked vm =
      check_header_version h buff start 46 65 120 77 2 0 (write_header f ++ sections) module_magic3
        module_version vm held refl

  header_held : Holds buff (start + 6) (write_header f ++ sections)
  unfolding write_module
  header_held = Holds-back start magic (write_header f ++ sections) held

  fields_held : Holds buff (start + 6) (write_uint 8 (hash_of f) ++ starts)
  unfolding write_header hash_of
  fields_held =
      rw (write_hash_lem f.low f.high fits.low_fits)
        (Holds-front (start + 6) (write_header f) sections header_held)

  hash_small : hash_of f < byte_bound 8
  unfolding hash_of
  hash_small = let a = fits.low_fits in let b = fits.high_fits in omega arith

  hash_read : read_uint 8 buff (start + 6) ≡ ok (hash_of f)
  hash_read = read_uint-front buff 8 (hash_of f) (start + 6) starts hash_small fields_held

  starts_held : Holds buff (start + 14) starts
  starts_held =
      subst (λ p. Holds buff p starts) (add_assoc start 6 8)
        (Holds-next buff 8 (hash_of f) (start + 6) starts fields_held)

  table_start_read : read_uint 4 buff (start + 14) ≡ ok 22
  table_start_read =
      read_uint-front buff 4 22 (start + 14) (write_uint 4 (data_start f)) (omega arith) starts_held

  data_start_read : read_uint 4 buff (start + 18) ≡ ok (data_start f)
  data_start_read = read_uint-write_uint 4 (data_start f) buff (start + 18) fits.data_start_fits (
      subst (λ p. Holds buff p (write_uint 4 (data_start f))) (add_assoc start 14 4)
        (Holds-next buff 4 22 (start + 14) (write_uint 4 (data_start f)) starts_held))

  length-write_header : length (write_header f) ≡ 16
  unfolding write_header
  length-write_header =
      rw
        (
          length-append (write_hash f.low f.high) starts,
          length-write_hash f.low f.high,
          length-append (write_uint 4 22) (write_uint 4 (data_start f)),
          length-write_uint 4 22,
          length-write_uint 4 (data_start f),
        )
        refl

  pub sections_held : Holds buff (22 + start) sections
  sections_held =
      subst (λ p. Holds buff p sections) (let l = length-write_header in omega arith)
        (Holds-back (start + 6) (write_header f) sections header_held)

  code_held : Holds buff (data_start f + start) code
  unfolding data_start
  code_held =
      subst (λ p. Holds buff p code) (let l = length-write_stable f.strings in omega arith)
        (Holds-back (22 + start) (write_stable f.strings) code sections_held)

  pub table_small : stable_length f.strings < byte_bound 4
  unfolding data_start
  table_small = let d = fits.data_start_fits in omega arith

  pub module_load_from_buffer_offset-write_module :
      (p : Ptr) (vm : Vm)
      → Succeeds
          (λ next w. (next ≡ start + 22) × HoldsModule f p w)
          (module_load_from_buffer_offset h buff p start vm)
  unfolding module_load_from_buffer_offset put_module
  module_load_from_buffer_offset-write_module p vm =
      rw (header_checked vm, hash_read, table_start_read, data_start_read)
        (Succeeds-bind
          (load_string_table_lem h memory buff f.strings (22 + start) table_small
            (Holds-front (22 + start) (write_stable f.strings) code sections_held) vm)
          λ table w e. rw e (
            Succeeds-bind
              (load_data_section_lem h memory buff f.instructions (data_start f + start) w
                fits.operands_fit fits.count_fits fits.length_fits code_held)
              λ section w1 e1.
                rw (e1.0, e1.1)
                  (Succeeds-bind (object_get_object_prototype-Succeeds h memory w1) λ parent w2 u.
                    Succeeds-bind (object_create_object-Succeeds h memory parent w2) λ exports w3 o.
                      Succeeds-bind (scope_create_scope-Succeeds h memory null w3)
                        λ scope w4 u4. succeeds (refl, (exports, (scope, rw (==_refl p) refl))))))
