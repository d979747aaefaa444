-- ===== src/Core/Table.antt =====
-- The native functions of modules/core/core.c by number: a number stands for the address of the C
-- function.
use atomix_js.Prelude.{ℕ, zero, suc, List, [], ◌∷◌, Option, none, get_elem?}

pub data CoreFunction : Type 0 where
  print module_get_export_obj module_import_module object instantiate create set_prototype_of array
        is_array function call symbol :
      CoreFunction

-- The functions with numbers, from 1 on; 0 is NULL.
unfoldable pub pointer_to : CoreFunction → ℕ
pointer_to CoreFunction.print = 1
pointer_to CoreFunction.module_get_export_obj = 2
pointer_to CoreFunction.module_import_module = 3
pointer_to CoreFunction.object = 4
pointer_to CoreFunction.instantiate = 5
pointer_to CoreFunction.create = 6
pointer_to CoreFunction.set_prototype_of = 7
pointer_to CoreFunction.array = 8
pointer_to CoreFunction.is_array = 9
pointer_to CoreFunction.function = 10
pointer_to CoreFunction.call = 11
pointer_to CoreFunction.symbol = 12

abbrev pub core_functions : List CoreFunction
core_functions =
    CoreFunction.print ∷ CoreFunction.module_get_export_obj ∷ CoreFunction.module_import_module
    ∷ CoreFunction.object ∷ CoreFunction.instantiate ∷ CoreFunction.create
    ∷ CoreFunction.set_prototype_of ∷ CoreFunction.array ∷ CoreFunction.is_array
    ∷ CoreFunction.function ∷ CoreFunction.call ∷ CoreFunction.symbol ∷ []

unfoldable pub function_at : ℕ → Option CoreFunction
function_at zero = none
function_at (suc n) = get_elem? core_functions n
