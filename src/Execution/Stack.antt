-- ===== src/Execution/Stack.antt =====
-- core/execution.c: constants, `this` excepted, and the handlers that move values on the stack.
pub mod View
use atomix_js.Prelude.{◌+◌, Bool, true, false}
use atomix_js.Value.{value_int, value_double, value_undefined, value_null, value_bool}
use atomix_js.Instruction.{Inst, Opcode, op_ld_true}
use atomix_js.Vm.Exec.{
  Exec, pure, ◌>>=◌, ◌>>◌, stack_counter, set_stack_counter, peek, poke, push, lower, need, room,
}

unfoldable pub inst_nop : Inst → Exec (Unit {0})
inst_nop inst = pure tt

unfoldable pub inst_ld_int : Inst → Exec (Unit {0})
unfolding room push
inst_ld_int inst = room >> push (value_int inst.operand)

unfoldable pub inst_ld_double : Inst → Exec (Unit {0})
unfolding room push
inst_ld_double inst = room >> push (value_double inst.operand)

unfoldable pub inst_ld_undf : Inst → Exec (Unit {0})
unfolding room push
inst_ld_undf inst = room >> push value_undefined

unfoldable pub inst_ld_null : Inst → Exec (Unit {0})
unfolding room push
inst_ld_null inst = room >> push value_null

unfoldable pub is_ld_true : Opcode → Bool
is_ld_true op_ld_true = true
is_ld_true _ = false

unfoldable pub inst_ld_boolean : Inst → Exec (Unit {0})
unfolding room push is_ld_true
inst_ld_boolean inst = room >> push (value_bool (is_ld_true inst.opcode))

-- `stack_counter == 0` is the guard of these two.
unfoldable pub inst_pop : Inst → Exec (Unit {0})
unfolding need lower
inst_pop inst = need 1 >> lower

unfoldable pub inst_dup : Inst → Exec (Unit {0})
unfolding need room peek poke
inst_dup inst = do need 1; room; n ← stack_counter; set_stack_counter (n + 1); v ← peek 2; poke 1 v

unfoldable pub inst_swap : Inst → Exec (Unit {0})
unfolding need peek poke
inst_swap inst = do need 2; tmp ← peek 2; top ← peek 1; poke 2 top; poke 1 tmp
