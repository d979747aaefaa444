-- ===== src/Core.antt =====
-- modules/core/core.c: calls of the native functions of the core module.
pub mod Arrays
pub mod Bounds
pub mod Imports
pub mod Inherit
pub mod Init
pub mod InitKeeps
pub mod Keeps
pub mod Modules
pub mod Objects
pub mod Print
pub mod Table
use atomix_js.Prelude.{List, Option, none, some}
use atomix_js.Value.{JsValue}
use atomix_js.Vm.Exec.{Exec, crash, Host}
use atomix_js.Object.{Caller}
use atomix_js.Execution.Run.{Importer, Natives}
use atomix_js.Core.Arrays
use atomix_js.Core.Modules
use atomix_js.Core.Objects
use atomix_js.Core.Print
use atomix_js.Core.Table.{CoreFunction, function_at}

module _ (h : Host) where
  unfoldable pub run_core : Caller → Importer → CoreFunction → JsValue → List JsValue → Exec JsValue
  run_core invoke importer CoreFunction.print = Print.print h
  run_core invoke importer CoreFunction.module_get_export_obj = Modules.module_get_export_obj
  run_core invoke importer CoreFunction.module_import_module =
      Modules.module_import_module h importer
  run_core invoke importer CoreFunction.object = Objects.object
  run_core invoke importer CoreFunction.instantiate = Objects.instantiate h invoke
  run_core invoke importer CoreFunction.create = Objects.create h
  run_core invoke importer CoreFunction.set_prototype_of = Objects.set_prototype_of
  run_core invoke importer CoreFunction.array = Arrays.array h invoke
  run_core invoke importer CoreFunction.is_array = Arrays.is_array h
  run_core invoke importer CoreFunction.function = Objects.function
  run_core invoke importer CoreFunction.call = Objects.call h invoke
  run_core invoke importer CoreFunction.symbol = Objects.symbol h invoke

  unfoldable pub run_at :
      Caller → Importer → Option CoreFunction → JsValue → List JsValue → Exec JsValue
  run_at invoke importer none this args = crash
  run_at invoke importer (some f) this args = run_core invoke importer f this args

  -- A call through the pointer: an address of no function is a fault.
  unfoldable pub core_natives : Natives
  core_natives invoke importer i = run_at invoke importer (function_at i)
