-- ===== src/Execution/Bounds/Machine.antt =====
-- Every instruction, the loops and so the whole machine keep the stack counter within the array.
use atomix_js.Prelude.{ℕ, zero, suc, ◌≤◌, Option, none, some, ltb, List}
use atomix_js.Value.{JsValue}
use atomix_js.Format.{element}
use atomix_js.Instruction.{Inst, Opcode}
use atomix_js.Vm.{Vm, Ptr, stack_size}
use atomix_js.Vm.Exec.{Host}
use atomix_js.Vm.Keeps.{
  Ends, Keeps, returned, by_fuel, Ends-bind, Ends-choose, Ends-lift, deref_module-Keeps,
}
use atomix_js.Execution.Calls
use atomix_js.Execution.Calls.{Calls}
use atomix_js.Object.{Caller}
use atomix_js.Execution.Run.{
  Natives, Importer, vm_exec_module, is_return, inst_set, run_instruction, vm_exec, function_loop,
  module_loop, calls,
}
use atomix_js.Execution.Bounds.{Fits, Fits-IsBlind}
use atomix_js.Execution.Bounds.Handlers.{
  inst_add-Fits, inst_binary_and-Fits, inst_binary_lshft-Fits, inst_binary_not-Fits,
  inst_binary_or-Fits, inst_binary_rshft-Fits, inst_binary_xor-Fits, inst_binary_zrshft-Fits,
  inst_div-Fits, inst_dup-Fits, inst_geq-Fits, inst_gt-Fits, inst_ld_boolean-Fits,
  inst_ld_double-Fits, inst_ld_int-Fits, inst_ld_null-Fits, inst_ld_undf-Fits, inst_leq-Fits,
  inst_lt-Fits, inst_minus-Fits, inst_mod-Fits, inst_mul-Fits, inst_negate-Fits, inst_nop-Fits,
  inst_not-Fits, inst_nteq-Fits, inst_pop-Fits, inst_swap-Fits, inst_teq-Fits,
}
use atomix_js.Execution.Bounds.Memory.{
  heap_fits, inst_alloc_store_local-Fits, inst_arr_alloc-Fits, inst_export-Fits,
  inst_func_decl-Fits, inst_jmp-Fits, inst_jmp_f-Fits, inst_jmp_t-Fits, inst_ld_string-Fits,
  inst_ld_this-Fits, inst_load_arg-Fits, inst_load_local-Fits, inst_obj_alloc-Fits,
  inst_obj_cload-Fits, inst_obj_cstore-Fits, inst_obj_load-Fits, inst_obj_store-Fits,
  inst_pop_scope-Fits, inst_push_scope-Fits, inst_typeof-Fits,
}
use atomix_js.Execution.Bounds.Invoke.{
  IsFramed, exec_function-SameFrame, exec_module-Fits, api_call_function-Fits, inst_call-Fits,
}

module _ (h : Host) where
  module _ (c : Calls) (framed : IsFramed c) where
    inst_set-Fits : (o : Opcode) (i : Inst) → Keeps Fits (inst_set h c o i)
    unfolding inst_set
    inst_set-Fits Opcode.op_nop i = inst_nop-Fits i
    inst_set-Fits Opcode.op_ld_int i = inst_ld_int-Fits i
    inst_set-Fits Opcode.op_ld_double i = inst_ld_double-Fits i
    inst_set-Fits Opcode.op_ld_string i = inst_ld_string-Fits h i
    inst_set-Fits Opcode.op_ld_undf i = inst_ld_undf-Fits i
    inst_set-Fits Opcode.op_ld_null i = inst_ld_null-Fits i
    inst_set-Fits Opcode.op_ld_true i = inst_ld_boolean-Fits i
    inst_set-Fits Opcode.op_ld_false i = inst_ld_boolean-Fits i
    inst_set-Fits Opcode.op_ld_this i = inst_ld_this-Fits h i
    inst_set-Fits Opcode.op_add i = inst_add-Fits h.platform i
    inst_set-Fits Opcode.op_minus i = inst_minus-Fits h.platform i
    inst_set-Fits Opcode.op_mul i = inst_mul-Fits h.platform i
    inst_set-Fits Opcode.op_div i = inst_div-Fits h.platform i
    inst_set-Fits Opcode.op_mod i = inst_mod-Fits h.platform i
    inst_set-Fits Opcode.op_binary_and i = inst_binary_and-Fits h.platform i
    inst_set-Fits Opcode.op_binary_or i = inst_binary_or-Fits h.platform i
    inst_set-Fits Opcode.op_binary_xor i = inst_binary_xor-Fits h.platform i
    inst_set-Fits Opcode.op_binary_lshft i = inst_binary_lshft-Fits h.platform i
    inst_set-Fits Opcode.op_binary_rshft i = inst_binary_rshft-Fits h.platform i
    inst_set-Fits Opcode.op_binary_zrshft i = inst_binary_zrshft-Fits h.platform i
    inst_set-Fits Opcode.op_binary_not i = inst_binary_not-Fits h.platform i
    inst_set-Fits Opcode.op_not i = inst_not-Fits h.platform i
    inst_set-Fits Opcode.op_negate i = inst_negate-Fits h.platform i
    inst_set-Fits Opcode.op_typeof i = inst_typeof-Fits h i
    inst_set-Fits Opcode.op_teq i = inst_teq-Fits h.platform i
    inst_set-Fits Opcode.op_nteq i = inst_nteq-Fits h.platform i
    inst_set-Fits Opcode.op_gt i = inst_gt-Fits h.platform i
    inst_set-Fits Opcode.op_geq i = inst_geq-Fits h.platform i
    inst_set-Fits Opcode.op_lt i = inst_lt-Fits h.platform i
    inst_set-Fits Opcode.op_leq i = inst_leq-Fits h.platform i
    inst_set-Fits Opcode.op_pop i = inst_pop-Fits i
    inst_set-Fits Opcode.op_dup i = inst_dup-Fits i
    inst_set-Fits Opcode.op_swap i = inst_swap-Fits i
    inst_set-Fits Opcode.op_alloc_local i = inst_alloc_store_local-Fits h i
    inst_set-Fits Opcode.op_store_local i = inst_alloc_store_local-Fits h i
    inst_set-Fits Opcode.op_load_local i = inst_load_local-Fits h i
    inst_set-Fits Opcode.op_load_arg i = inst_load_arg-Fits h i
    inst_set-Fits Opcode.op_func_decl i = inst_func_decl-Fits h i
    inst_set-Fits Opcode.op_func_decl_e i = inst_func_decl-Fits h i
    inst_set-Fits Opcode.op_call i = inst_call-Fits h c framed i
    inst_set-Fits Opcode.op_arr_alloc i = inst_arr_alloc-Fits h i
    inst_set-Fits Opcode.op_obj_alloc i = inst_obj_alloc-Fits h i
    inst_set-Fits Opcode.op_obj_store i =
        inst_obj_store-Fits h (Calls.api_call_function h c) (api_call_function-Fits h c framed) i
    inst_set-Fits Opcode.op_obj_load i =
        inst_obj_load-Fits h (Calls.api_call_function h c) (api_call_function-Fits h c framed) i
    inst_set-Fits Opcode.op_obj_cload i =
        inst_obj_cload-Fits h (Calls.api_call_function h c) (api_call_function-Fits h c framed) i
    inst_set-Fits Opcode.op_obj_cstore i =
        inst_obj_cstore-Fits h (Calls.api_call_function h c) (api_call_function-Fits h c framed) i
    inst_set-Fits Opcode.op_return i = inst_nop-Fits i
    inst_set-Fits Opcode.op_push_scope i = inst_push_scope-Fits h i
    inst_set-Fits Opcode.op_pop_scope i = inst_pop_scope-Fits h i
    inst_set-Fits Opcode.op_jmp i = inst_jmp-Fits h i
    inst_set-Fits Opcode.op_jmp_f i = inst_jmp_f-Fits h i
    inst_set-Fits Opcode.op_jmp_t i = inst_jmp_t-Fits h i
    inst_set-Fits Opcode.op_export i =
        inst_export-Fits h (Calls.api_call_function h c) (api_call_function-Fits h c framed) i

    run_instruction-Fits : (o : Option Inst) → Keeps Fits (run_instruction h c o)
    unfolding run_instruction
    run_instruction-Fits none vm k = returned k
    run_instruction-Fits (some i) vm k = inst_set-Fits i.opcode i vm k

    -- Whatever instruction the counter stands on.
    pub vm_exec-Fits : Keeps Fits (vm_exec h c)
    unfolding vm_exec
    vm_exec-Fits vm k = search (heap_fits, run_instruction-Fits) depth 12

    function_loop-Fits : (fuel end : ℕ) → Keeps Fits (function_loop h fuel c end)
    unfolding function_loop
    function_loop-Fits zero end vm k = by_fuel
    function_loop-Fits (suc fuel) end vm k =
        Ends-choose (ltb vm.stats.instruction_counter end)
          (λ w k. Ends-bind (deref_module-Keeps Fits-IsBlind vm.current w k) λ m. λ w1 k1.
            Ends-bind (Ends-lift (element m.instructions vm.stats.instruction_counter) w1 k1)
              λ inst. λ w2 k2.
                Ends-choose (is_return inst) (λ w3 k3. returned k3)
                  (λ w3 k3. Ends-bind (vm_exec-Fits w3 k3) (λ u. function_loop-Fits fuel end)) k2)
          (λ w k. returned k) k

    module_loop-Fits : (fuel : ℕ) → Keeps Fits (module_loop h fuel c)
    unfolding module_loop
    module_loop-Fits zero vm k = by_fuel
    module_loop-Fits (suc fuel) vm k =
        Ends-bind (deref_module-Keeps Fits-IsBlind vm.current vm k) λ m. λ w1 k1.
          Ends-choose (ltb vm.stats.instruction_counter m.count)
            (λ w k. Ends-bind (vm_exec-Fits w k) (λ u. module_loop-Fits fuel)) (λ w k. returned k)
            k1

  module _ (natives : Natives)
      (native-Fits : (call : Caller) (importer : Importer)
        → ((g : Ptr) (this : JsValue) (args : List JsValue) → Keeps Fits (call g this args))
        → ((p : Ptr) → Keeps Fits (importer p))
        → (i : ℕ) (this : JsValue) (args : List JsValue)
        → Keeps Fits (natives call importer i this args)) where
    pub calls-IsFramed : (fuel : ℕ) → IsFramed (calls h natives fuel)
    unfolding calls
    calls-IsFramed zero = record { run = λ f old. by_fuel; native = λ i this args vm k. by_fuel }
    calls-IsFramed (suc fuel) = record {
      run = λ f old. exec_function-SameFrame h fuel (calls h natives fuel) f old;
      native =
          native-Fits (Calls.api_call_function h (calls h natives fuel))
            (vm_exec_module h fuel (calls h natives fuel))
            (api_call_function-Fits h (calls h natives fuel) (calls-IsFramed fuel))
            (exec_module-Fits h fuel (calls h natives fuel));
    }

    -- Where a native function keeps the stack counter within the array whenever the calls and
    -- the imports that it makes do, every instruction and every run of the loops of the machine does so: from a counter
    -- of at most 254, the counter of the machine that they return is at most 254.
    pub machine-Fits :
        (fuel n end : ℕ) (vm : Vm)
        → vm.stats.stack_counter ≤ stack_size
        → Ends Fits (vm_exec h (calls h natives fuel) vm)
          × Ends Fits (function_loop h n (calls h natives fuel) end vm)
          × Ends Fits (module_loop h n (calls h natives fuel) vm)
    machine-Fits fuel n end vm k = (
      vm_exec-Fits _ (calls-IsFramed fuel) vm k,
      function_loop-Fits _ (calls-IsFramed fuel) n end vm k,
      module_loop-Fits _ (calls-IsFramed fuel) n vm k,
    )
