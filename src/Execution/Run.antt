-- ===== src/Execution/Run.antt =====
-- core/execution.c: the table `inst_set` of `vm_init`, `vm_exec`, `vm_exec_function` and
-- `vm_exec_module`. One fuel bounds the depth of calls and the rounds of each loop.
use atomix_js.Prelude.{
  ℕ, zero, suc, ◌+◌, ◌-◌, Bool, true, false, Option, none, some, List, ltb, leb, if◌then◌else◌,
}
use atomix_js.Prelude.Result.{counter_out_of_bounds}
use atomix_js.Value.{JsValue, value_undefined}
use atomix_js.Format.{element}
use atomix_js.Instruction.{Inst, Opcode}
use atomix_js.Vm.{Ptr, Vm, JsFunction}
use atomix_js.Vm.Exec.{
  Exec, ret, pure, raise, exhausted, lift, ◌>>=◌, ◌>>◌, Host, get_vm, set_instruction_counter,
  set_stack_counter, load_slot, deref_module, deref_scope, deref_function, put_scope,
}
use atomix_js.Object.{Caller}
use atomix_js.Execution.Stack
use atomix_js.Execution.Arith
use atomix_js.Execution.Bits
use atomix_js.Execution.Compare
use atomix_js.Execution.Locals
use atomix_js.Execution.Typeof
use atomix_js.Execution.Objects
use atomix_js.Execution.Calls
use atomix_js.Execution.Calls.{Calls}

-- `vm_exec_module`, as the native functions call it.
abbrev pub Importer : Type 0
Importer = Ptr → Exec (Unit {0})

-- Native functions, which are given `api_call_function` and `vm_exec_module`.
abbrev pub Natives : Type 0
Natives = Caller → Importer → ℕ → JsValue → List JsValue → Exec JsValue

unfoldable pub is_return_op : Opcode → Bool
is_return_op Opcode.op_return = true
is_return_op _ = false

-- `OPCODE_OF(instruction) == OP_RETURN`, where the opcode of NULL is that of NOP.
unfoldable pub is_return : Option Inst → Bool
unfolding is_return_op
is_return none = false
is_return (some inst) = is_return_op inst.opcode

-- The value on top of the frame, if the frame holds one.
unfoldable pub return_value : Exec JsValue
return_value = do
  vm ← get_vm
  if ltb vm.stats.stack_start vm.stats.stack_counter
      then (do
        set_stack_counter (vm.stats.stack_counter - 1)
        load_slot (vm.stats.stack_counter - 1))
      else pure value_undefined

-- `vm->module`, `vm->stats` and `vm->scope` as they were in `old`.
unfoldable pub restore : Vm → Exec (Unit {0})
restore old vm = ret tt (record vm { current = old.current; stats = old.stats; scope = old.scope })

unfoldable pub enter_function : JsFunction → Exec (Unit {0})
enter_function f vm = ret tt (record vm {
  current = f.home;
  scope = f.scope;
  stats = record vm.stats {
    instruction_counter = f.instruction_start;
    stack_start = vm.stats.stack_counter;
  };
})

unfoldable pub enter_module : Ptr → Ptr → Exec (Unit {0})
enter_module module_ptr scope vm = ret tt (record vm {
  current = module_ptr;
  scope = scope;
  stats = record vm.stats { instruction_counter = 0; stack_counter = 0; stack_start = 0 };
})

module _ (h : Host) where
  -- `vm->inst_set[opcode]`
  unfoldable pub inst_set : Calls → Opcode → Inst → Exec (Unit {0})
  inst_set c Opcode.op_nop = Stack.inst_nop
  inst_set c Opcode.op_ld_int = Stack.inst_ld_int
  inst_set c Opcode.op_ld_double = Stack.inst_ld_double
  inst_set c Opcode.op_ld_string = Locals.inst_ld_string h
  inst_set c Opcode.op_ld_undf = Stack.inst_ld_undf
  inst_set c Opcode.op_ld_null = Stack.inst_ld_null
  inst_set c Opcode.op_ld_true = Stack.inst_ld_boolean
  inst_set c Opcode.op_ld_false = Stack.inst_ld_boolean
  inst_set c Opcode.op_ld_this = Locals.inst_ld_this h
  inst_set c Opcode.op_add = Arith.inst_add h.platform
  inst_set c Opcode.op_minus = Arith.inst_minus h.platform
  inst_set c Opcode.op_mul = Arith.inst_mul h.platform
  inst_set c Opcode.op_div = Arith.inst_div h.platform
  inst_set c Opcode.op_mod = Arith.inst_mod h.platform
  inst_set c Opcode.op_binary_and = Bits.inst_binary_and h.platform
  inst_set c Opcode.op_binary_or = Bits.inst_binary_or h.platform
  inst_set c Opcode.op_binary_xor = Bits.inst_binary_xor h.platform
  inst_set c Opcode.op_binary_lshft = Bits.inst_binary_lshft h.platform
  inst_set c Opcode.op_binary_rshft = Bits.inst_binary_rshft h.platform
  inst_set c Opcode.op_binary_zrshft = Bits.inst_binary_zrshft h.platform
  inst_set c Opcode.op_binary_not = Bits.inst_binary_not h.platform
  inst_set c Opcode.op_not = Compare.inst_not h.platform
  inst_set c Opcode.op_negate = Arith.inst_negate h.platform
  inst_set c Opcode.op_typeof = Typeof.inst_typeof h
  inst_set c Opcode.op_teq = Compare.inst_teq h.platform
  inst_set c Opcode.op_nteq = Compare.inst_nteq h.platform
  inst_set c Opcode.op_gt = Compare.inst_gt h.platform
  inst_set c Opcode.op_geq = Compare.inst_geq h.platform
  inst_set c Opcode.op_lt = Compare.inst_lt h.platform
  inst_set c Opcode.op_leq = Compare.inst_leq h.platform
  inst_set c Opcode.op_pop = Stack.inst_pop
  inst_set c Opcode.op_dup = Stack.inst_dup
  inst_set c Opcode.op_swap = Stack.inst_swap
  inst_set c Opcode.op_alloc_local = Locals.inst_alloc_store_local h
  inst_set c Opcode.op_store_local = Locals.inst_alloc_store_local h
  inst_set c Opcode.op_load_local = Locals.inst_load_local h
  inst_set c Opcode.op_load_arg = Locals.inst_load_arg
  inst_set c Opcode.op_func_decl = Locals.inst_func_decl h
  inst_set c Opcode.op_func_decl_e = Locals.inst_func_decl h
  inst_set c Opcode.op_call = Calls.inst_call h c
  inst_set c Opcode.op_arr_alloc = Objects.inst_arr_alloc h
  inst_set c Opcode.op_obj_alloc = Objects.inst_obj_alloc h
  inst_set c Opcode.op_obj_store = Objects.inst_obj_store h (Calls.api_call_function h c)
  inst_set c Opcode.op_obj_load = Objects.inst_obj_load h (Calls.api_call_function h c)
  inst_set c Opcode.op_obj_cload = Objects.inst_obj_cload h (Calls.api_call_function h c)
  inst_set c Opcode.op_obj_cstore = Objects.inst_obj_cstore h (Calls.api_call_function h c)
  inst_set c Opcode.op_return = Stack.inst_nop
  inst_set c Opcode.op_push_scope = Locals.inst_push_scope h
  inst_set c Opcode.op_pop_scope = Locals.inst_pop_scope
  inst_set c Opcode.op_jmp = Locals.inst_jmp
  inst_set c Opcode.op_jmp_f = Locals.inst_jmp_f h.platform
  inst_set c Opcode.op_jmp_t = Locals.inst_jmp_t h.platform
  inst_set c Opcode.op_export = Objects.inst_export h (Calls.api_call_function h c)

  -- An instruction that the loader left NULL runs as a NOP.
  unfoldable pub run_instruction : Calls → Option Inst → Exec (Unit {0})
  run_instruction c none = pure tt
  run_instruction c (some inst) = inst_set c inst.opcode inst

  unfoldable pub vm_exec : Calls → Exec (Unit {0})
  vm_exec c = do
    vm ← get_vm
    m ← deref_module vm.current
    let counter = vm.stats.instruction_counter
    if leb m.count counter then raise counter_out_of_bounds else do
      instruction ← lift (element m.instructions counter)
      set_instruction_counter (counter + 1)
      run_instruction c instruction

  -- The loop of `vm_exec_function`.
  unfoldable pub function_loop : ℕ → Calls → ℕ → Exec (Unit {0})
  function_loop zero c end = exhausted
  function_loop (suc fuel) c end = do
    vm ← get_vm
    elim (ltb vm.stats.instruction_counter end) [
      | false ↦ pure tt
      | true ↦ do
        m ← deref_module vm.current
        instruction ← lift (element m.instructions vm.stats.instruction_counter)
        elim (is_return instruction) [
          | true ↦ pure tt
          | false ↦ do vm_exec c; function_loop fuel c end
        ]
    ]

  unfoldable pub exec_function : ℕ → Calls → Ptr → Exec JsValue
  exec_function fuel c function = do
    old ← get_vm
    f ← deref_function function
    enter_function f
    function_loop fuel c f.instruction_end
    v ← return_value
    restore old
    pure v

  -- The loop of `vm_exec_module`.
  unfoldable pub module_loop : ℕ → Calls → Exec (Unit {0})
  module_loop zero c = exhausted
  module_loop (suc fuel) c = do
    vm ← get_vm
    m ← deref_module vm.current
    elim (ltb vm.stats.instruction_counter m.count) [
      | false ↦ pure tt
      | true ↦ do vm_exec c; module_loop fuel c
    ]

  unfoldable pub vm_exec_module : ℕ → Calls → Ptr → Exec (Unit {0})
  vm_exec_module fuel c module_ptr = do
    old ← get_vm
    m ← deref_module module_ptr
    s ← deref_scope m.scope
    put_scope m.scope (record s { parent = old.global_scope })
    enter_module module_ptr m.scope
    module_loop fuel c
    restore old

  module _ (natives : Natives) where
    -- The calls within a depth. At depth 0 a call is out of fuel.
    unfoldable pub calls : ℕ → Calls
    calls zero = record { run = λ f. exhausted; native = λ i this args. exhausted }
    calls (suc fuel) = record {
      run = exec_function fuel (calls fuel);
      native = natives (Calls.api_call_function h (calls fuel)) (vm_exec_module fuel (calls fuel));
    }

    unfoldable pub vm_exec_function : ℕ → Ptr → Exec JsValue
    unfolding calls
    vm_exec_function fuel = (calls fuel).run
