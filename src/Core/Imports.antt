-- ===== src/Core/Imports.antt =====
-- `Module.importModule`: how the hash is passed.
use atomix_js.Prelude.{ℕ, ◌/◌, ◌%◌, ◌≡◌, ◌<◌, ap, List, ◌∷◌, arith}
use atomix_js.Prelude.Word.{u32_mod, u64_mod}
use atomix_js.Value.{JsValue, has_type, as_int, value_int}
use atomix_js.Vm.{Vm}
use atomix_js.Vm.Exec.{Host}
use atomix_js.Execution.Run.{Importer}
use atomix_js.Core.Modules.{import_hash, import_hashed, module_import_module}

module _ (h : Host) (importer : Importer) where
  -- `importModule` given the upper and the lower 32 bits of a hash as two integers imports the module
  -- with that hash, whatever arguments follow.
  pub module_import_module_halves :
      (hash : ℕ) (this : JsValue) (args : List JsValue) (vm : Vm)
      → hash < u64_mod
      → module_import_module h importer this
          (value_int (hash / u32_mod) ∷ value_int (hash % u32_mod) ∷ args)
          vm
        ≡ import_hashed h importer hash vm
  unfolding module_import_module import_hash has_type as_int
  module_import_module_halves hash this args vm fits =
      ap (λ n. import_hashed h importer n vm) (omega arith)
