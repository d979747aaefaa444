-- ===== src/Tests/Loops.antt =====
-- Straight code on a concrete machine.
use atomix_js.Prelude.{◌≡◌, refl, none, some, List, [], ◌∷◌, Option, arith}
use atomix_js.Value.{JsValue, value_int, value_null}
use atomix_js.Instruction.{op_ld_int, op_ld_null}
use atomix_js.Vm.{Vm, JsModule}
use atomix_js.Vm.Exec.{ret}
use atomix_js.Execution.Run.{calls, module_loop}
use atomix_js.Execution.Straight.{IsStraight, ended, meaning, meaning_of, next, ran}
use atomix_js.Execution.Straight.Loop.{module_loop-ran}
use atomix_js.Core.{core_natives}
use atomix_js.Tests.Machines.{code, host, machine}

-- `5`, a NULL and `null`.
abbrev constants : JsModule
constants = record code {
  count = 3;
  instructions =
      some (record { opcode = op_ld_int; operand = 5; operand2 = 0 })
      ∷ none
      ∷ some (record { opcode = op_ld_null; operand = 0; operand2 = 0 })
      ∷ [];
}

abbrev pushed : List (Option JsValue)
pushed = some (value_int 5) ∷ none ∷ some value_null ∷ []

abbrev at_constants : Vm
at_constants = record (machine []) {
  stats = record (machine []).stats { instruction_counter = 0 };
  heap = record (machine []).heap { modules = λ p. some constants };
}

constants-IsStraight : IsStraight constants.instructions pushed
unfolding meaning meaning_of
constants-IsStraight = next refl (next refl (next refl ended))

module_loop-ran_example :
    (module_loop host 4 (calls host (core_natives host) 2) at_constants
      ≡ ret tt (ran pushed at_constants))
    × ((ran pushed at_constants).stats.instruction_counter ≡ 3)
module_loop-ran_example =
    module_loop-ran host (calls host (core_natives host) 2) constants refl pushed 4 at_constants
      constants-IsStraight refl refl (omega arith) (omega arith)
