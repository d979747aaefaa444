-- ===== src/Tests/Machines.antt =====
-- core/execution.c and core/api.c on concrete machines.
use atomix_js.Prelude.{
  ℕ, ◌+◌, ◌-◌, ◌*◌, ◌/◌, ◌%◌, ◌≡◌, refl, true, false, Option, none, some, List, [], ◌∷◌, arith, ltb,
  leb, ◌==◌, if◌then◌else◌, length, get_elem?,
}
use atomix_js.Prelude.Word.{sub64}
use atomix_js.Value.{JsValue, Platform, value_int, value_undefined, value_function}
use atomix_js.Dict.{dict_create_dict, dict_get, dict_add}
use atomix_js.Instruction.{Inst, Opcode, op_call, op_ld_int, op_return, op_pop}
use atomix_js.Vm.{Vm, Ptr, JsFunction, JsModule}
use atomix_js.Vm.Exec.{Outcome, ret, pure, Host}
use atomix_js.Vm.Keeps.{Ends, Keeps, returned}
use atomix_js.Object.{Caller}
use atomix_js.Execution.Calls
use atomix_js.Vm.Live.{live}
use atomix_js.Execution.Stack.{inst_pop, inst_dup, inst_swap}
use atomix_js.Execution.Stack.View.{stack_after, stack_ops_lem}
use atomix_js.Execution.Bounds.{Fits}
use atomix_js.Execution.Bounds.Invoke.{SameFrame}
use atomix_js.Execution.Bounds.Guards.{IsGuarded, works_on_stack, inst_set-IsGuarded}
use atomix_js.Execution.Bounds.Frames.{
  vm_exec_function-SameFrame, vm_exec_module-SameFrame, api_call_function_leftover, inst_call_pops,
}
use atomix_js.Execution.Run.{
  inst_set, Natives, Importer, calls, vm_exec, function_loop, vm_exec_function, vm_exec_module,
  exec_function, enter_function, is_return, run_instruction, inst_set, return_value, restore,
}
use atomix_js.Execution.Stack
use atomix_js.Vm.Exec.{
  deref_function, deref_module, load_slot, init_string, push, deref_scope, put_scope,
}
use atomix_js.Scope.{scope_declare, declare_in}
use atomix_js.Format.{element}

-- Doubles are counted in whole numbers here.
abbrev pub processor : Platform
processor = record {
  fadd = λ a b. a + b;
  fsub = λ a b. a - b;
  fmul = λ a b. a * b;
  fdiv = λ a b. a / b;
  fmod = λ a b. a % b;
  fneg = λ a. a;
  of_int = λ a. a;
  to_int = λ a. a;
  feq = λ a b. a == b;
  flt = λ a b. ltb a b;
  fle = λ a b. leb a b;
  fzero = 0;
  nan = 77;
  pos_infinity = 78;
  neg_infinity = 79;
}

-- The collector gives out 100, 101, ...
abbrev pub host : Host
host = record {
  platform = processor;
  malloc = λ n. 100 + n;
  print_int = λ n. [];
  print_double = λ n. [];
  print_fixed = λ n. [];
  module_size = 1;
}

-- A native function that returns `undefined`.
abbrev silent : Natives
silent call importer i this args = pure value_undefined

-- The function 7 of module 3, and the module.
abbrev five : JsFunction
five = record {
  base = 0;
  native_function = 0;
  scope = 1;
  home = 3;
  instruction_start = 0;
  instruction_end = 2;
  is_native = false;
}

abbrev pub code : JsModule
code = record {
  bundle = 0;
  hash = 0;
  string_table = record { length = 0; count = 0; offsets = []; strings = [] };
  count = 2;
  instructions =
      some (record { opcode = op_ld_int; operand = 5; operand2 = 0 })
      ∷ some (record { opcode = op_return; operand = 0; operand2 = 0 })
      ∷ [];
  initialized = true;
  exports = 0;
  scope = 1;
}

-- Module 3 declares the function 7 at index 0: `return 5`.
abbrev pub machine : List JsValue → Vm
machine values = record {
  current = 3;
  global_scope = 1;
  scope = 1;
  stats = record {
    instruction_counter = 2;
    stack_counter = length values;
    stack_start = 0;
    stack = λ i. elim (get_elem? values i) [ none ↦ value_undefined | some v ↦ v ];
  };
  heap = record {
    allocs = 0;
    strings = λ p. none;
    objects = λ p. none;
    scopes =
        λ p. if p == 1 then some (record { parent = 0; symbols = dict_create_dict 1 }) else none;
    functions = λ p. if p == 7 then some five else none;
    boxes = λ p. none;
    modules = λ p. if p == 3 then some code else none;
    bundles = λ p. none;
  };
  globals = record {
    object_prototype = 0;
    array_prototype = 0;
    function_prototype = 0;
    symbol_prototype = 0;
    symbol_to_primitive = 0;
    native_modules = [];
    output = [];
  };
}

abbrev pub two_values : Vm
two_values = machine (value_int 3 ∷ value_int 4 ∷ [])

-- `this` and the function, for a call without arguments.
abbrev about_to_call : Vm
about_to_call = machine (value_undefined ∷ value_function 7 ∷ [])

abbrev pub no_operand : Opcode → Inst
no_operand o = record { opcode = o; operand = 0; operand2 = 0 }

silent-Fits :
    (call : Caller) (importer : Importer)
    → ((g : Ptr) (this : JsValue) (args : List JsValue) → Keeps Fits (call g this args))
    → ((p : Ptr) → Keeps Fits (importer p))
    → (i : ℕ) (this : JsValue) (args : List JsValue) → Keeps Fits (silent call importer i this args)
silent-Fits call importer kept kept_import i this args vm k = returned k

stack_ops_lem_example :
    (stack_after (inst_pop (no_operand op_pop) two_values)
      ≡ some (value_int 3 ∷ live 0 two_values.stats.stack))
    × (stack_after (inst_dup (no_operand op_pop) two_values)
        ≡ some (value_int 4 ∷ value_int 4 ∷ value_int 3 ∷ live 0 two_values.stats.stack))
    × (stack_after (inst_swap (no_operand op_pop) two_values)
        ≡ some (value_int 3 ∷ value_int 4 ∷ live 0 two_values.stats.stack))
stack_ops_lem_example = stack_ops_lem (no_operand op_pop) two_values 0 refl (omega arith)

inst_set-IsGuarded_example :
    IsGuarded
      (inst_set host (calls host silent 2) Opcode.op_add (no_operand Opcode.op_add) two_values)
inst_set-IsGuarded_example =
    inst_set-IsGuarded host (calls host silent 2) Opcode.op_add (no_operand Opcode.op_add)
      two_values (unfold works_on_stack in refl) (omega arith)

vm_exec_function-SameFrame_example :
    Ends (SameFrame two_values) (vm_exec_function host silent 3 7 two_values)
vm_exec_function-SameFrame_example = vm_exec_function-SameFrame host silent 3 7 two_values

vm_exec_module-SameFrame_example :
    Ends (SameFrame two_values) (vm_exec_module host 3 (calls host silent 2) 3 two_values)
vm_exec_module-SameFrame_example = vm_exec_module-SameFrame host silent 2 3 3 two_values

api_call_function_leftover_example :
    Ends
      (λ w. w.stats.stack_counter ≡ 3)
      (Calls.api_call_function host
        (calls host silent 3)
        7
        value_undefined
        (value_int 1 ∷ [])
        two_values)
api_call_function_leftover_example =
    api_call_function_leftover host silent 3 7 _ value_undefined (value_int 1 ∷ []) two_values refl
      refl (omega arith)

inst_call_pops_example :
    Ends
      (λ w. w.stats.stack_counter + 1 ≡ 2)
      (Calls.inst_call host (calls host silent 3) (no_operand op_call) about_to_call)
inst_call_pops_example =
    inst_call_pops host silent 3 (no_operand op_call) _ about_to_call (omega arith) (omega arith)
      refl refl

-- The value that a run returns, and the stack counter behind it.
stack_counter_of : {A : Type 0} → Outcome A → Option (A × ℕ)
stack_counter_of (ret a vm) = some (a, vm.stats.stack_counter)
stack_counter_of _ = none

-- `api_call_function` returns 5, and the counter has risen from 2 to 3.
called :
    stack_counter_of
      (Calls.api_call_function host (calls host silent 4) 7 value_undefined [] two_values)
    ≡ some (value_int 5, 3)
unfolding stack_counter_of Calls.api_call_function Calls.push_all calls exec_function deref_function
    enter_function function_loop deref_module element is_return vm_exec run_instruction inst_set
    Stack.inst_ld_int return_value load_slot restore init_string push scope_declare declare_in
    deref_scope dict_get dict_create_dict dict_add put_scope sub64
called = refl

-- A run of function 7 returns 5 and leaves the stack counter.
run : stack_counter_of (vm_exec_function host silent 4 7 two_values) ≡ some (value_int 5, 2)
unfolding stack_counter_of vm_exec_function calls exec_function deref_function enter_function
    function_loop deref_module element is_return vm_exec run_instruction inst_set Stack.inst_ld_int
    return_value load_slot restore
run = refl
