-- ===== src/Loader/Files.antt =====
-- `module_load_from_buffer_offset`, `module_load_from_buffer`, `bundle_load_from_buffer` and
-- `unknown_load_from_buffer` of core/loader.c. The buffer holds the file that was read. A module
-- does not keep its magic bytes, its version and the places of its sections.
use atomix_js.Prelude.{ℕ, zero, suc, ◌+◌, false, not, ◌==◌, if◌then◌else◌}
use atomix_js.Prelude.Result.{invalid_magic, invalid_version}
use atomix_js.Vm.{Ptr, null}
use atomix_js.Vm.Exec.{
  Exec, pure, lift, panic_if, ◌>>=◌, ◌>>◌, Host, gc_malloc_checked, deref_module, put_module,
  put_bundle,
}
use atomix_js.Scope.{scope_create_scope}
use atomix_js.Object.{object_create_object, object_get_object_prototype}
use atomix_js.Loader.Bytes.{Buffer, has_magic, read_uint}
use atomix_js.Loader.Code.{load_data_section}
use atomix_js.Loader.Strings.{load_string_table}

abbrev pub module_magic3 : ℕ
module_magic3 = 0x4D

abbrev pub module_version : ℕ
module_version = 2

abbrev pub bundle_magic3 : ℕ
bundle_magic3 = 0x42

abbrev pub bundle_version : ℕ
bundle_version = 1

pub data LoadResult : Type 0 where
  load_bundle load_module : LoadResult

module _ (h : Host) (buff : Buffer) where
  -- The tests of the magic bytes and of the version.
  unfoldable pub check_header : ℕ → ℕ → ℕ → Exec (Unit {0})
  check_header magic3 expected position = do
    magic ← lift (has_magic magic3 buff position)
    panic_if (not magic) invalid_magic
    version ← lift (read_uint 2 buff (position + 4))
    panic_if (not (version == expected)) invalid_version

  -- The module is stored at `p`; the result is the new position.
  unfoldable pub module_load_from_buffer_offset : Ptr → ℕ → Exec ℕ
  module_load_from_buffer_offset p position = do
    check_header module_magic3 module_version position
    hash ← lift (read_uint 8 buff (position + 6))
    string_table_start ← lift (read_uint 4 buff (position + 14))
    data_section_start ← lift (read_uint 4 buff (position + 18))
    string_table ← load_string_table h buff (string_table_start + position)
    data_section ← load_data_section h buff (data_section_start + position)
    prototype ← object_get_object_prototype h
    exports ← object_create_object h prototype
    scope ← scope_create_scope h null
    put_module p (record {
      bundle = null;
      hash = hash;
      string_table = string_table;
      count = data_section.count;
      instructions = data_section.instructions;
      initialized = false;
      exports = exports;
      scope = scope;
    })
    pure (position + 22)

  unfoldable pub module_load_from_buffer : Ptr → Exec (Unit {0})
  module_load_from_buffer p = do position ← module_load_from_buffer_offset p 0; pure tt

  -- `n` modules, into the array from `p` on.
  unfoldable pub load_modules : ℕ → Ptr → Ptr → ℕ → Exec (Unit {0})
  load_modules zero bundle p position = pure tt
  load_modules (suc n) bundle p position = do
    next ← module_load_from_buffer_offset p position
    m ← deref_module p
    put_module p (record m { bundle = bundle })
    load_modules n bundle (p + h.module_size) next

  unfoldable pub bundle_load_from_buffer : Ptr → Exec (Unit {0})
  bundle_load_from_buffer bundle = do
    check_header bundle_magic3 bundle_version 0
    entry_point ← lift (read_uint 8 buff 6)
    module_count ← lift (read_uint 2 buff 14)
    modules ← gc_malloc_checked h
    put_bundle bundle
        (record { entry_point = entry_point; module_count = module_count; modules = modules })
    load_modules module_count bundle modules 16

  unfoldable pub unknown_load_from_buffer : Ptr → Ptr → Exec LoadResult
  unknown_load_from_buffer module_ptr bundle = do
    magic ← lift (has_magic module_magic3 buff 0)
    if magic
        then (do module_load_from_buffer module_ptr; pure load_module)
        else do bundle_load_from_buffer bundle; pure load_bundle
