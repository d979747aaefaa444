-- ===== src/Core/Modules.antt =====
-- `Module.getExportObj` and `Module.importModule` of modules/core/core.c.
use atomix_js.Prelude.{ℕ, ◌+◌, ◌*◌, true, not, ◌||◌, List, ◌∷◌, if◌then◌else◌}
use atomix_js.Prelude.Word.{u32_mod}
use atomix_js.Value.{JsValue, js_integer, has_type, as_int, value_object, value_undefined}
use atomix_js.Vm.{Ptr, JsModule}
use atomix_js.Vm.Exec.{Exec, pure, ◌>>=◌, ◌>>◌, Host, get_vm, deref_module, put_module}
use atomix_js.Bundle.{bundle_get_module}
use atomix_js.Execution.Run.{Importer}

unfoldable pub module_get_export_obj : JsValue → List JsValue → Exec JsValue
module_get_export_obj this args = do
  vm ← get_vm
  m ← deref_module vm.current
  pure (value_object m.exports)

-- `(uint64_t)a << 32 | (uint32_t)b`
unfoldable pub import_hash : JsValue → JsValue → ℕ
unfolding as_int
import_hash a b = as_int a * u32_mod + as_int b

module _ (h : Host) (importer : Importer) where
  unfoldable pub run_once : Ptr → JsModule → Exec (Unit {0})
  run_once p m =
      if m.initialized
      then pure tt
      else do put_module p (record m { initialized = true }); importer p

  unfoldable pub import_hashed : ℕ → Exec JsValue
  import_hashed hash = do
    vm ← get_vm
    current ← deref_module vm.current
    p ← bundle_get_module h current.bundle hash
    m ← deref_module p
    run_once p m
    loaded ← deref_module p
    pure (value_object loaded.exports)

  -- Arguments beyond the second are not read.
  unfoldable pub module_import_module : JsValue → List JsValue → Exec JsValue
  module_import_module this (a ∷ b ∷ args) =
      if not (has_type a js_integer) || not (has_type b js_integer)
      then pure value_undefined
      else import_hashed (import_hash a b)
  module_import_module this _ = pure value_undefined
