-- ===== src/Tests/Operators.antt =====
-- The operators of core/execution.c on a concrete machine.
use atomix_js.Prelude.{◌≡◌, arith}
use atomix_js.Value.{js_integer, value_int}
use atomix_js.Instruction.{op_teq}
use atomix_js.Vm.Exec.{◌>>◌}
use atomix_js.Execution.Compare.{inst_teq, inst_nteq, inst_not}
use atomix_js.Execution.Compare.Order.{compare_outcome}
use atomix_js.Execution.Compare.Equality.{equal_as, inst_teq-equal_as, inst_nteq-teq_not}
use atomix_js.Tests.Machines.{processor, no_operand, two_values}

inst_teq-equal_as_example :
    inst_teq processor (no_operand op_teq) two_values
    ≡ compare_outcome two_values
        (equal_as processor js_integer js_integer (value_int 3) (value_int 4))
inst_teq-equal_as_example =
    inst_teq-equal_as processor (no_operand op_teq) two_values (omega arith) (omega arith)

inst_nteq-teq_not_example :
    inst_nteq processor (no_operand op_teq) two_values
    ≡ (inst_teq processor (no_operand op_teq) >> inst_not processor (no_operand op_teq)) two_values
inst_nteq-teq_not_example = inst_nteq-teq_not processor (no_operand op_teq) two_values (omega arith)
