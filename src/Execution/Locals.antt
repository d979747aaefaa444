-- ===== src/Execution/Locals.antt =====
-- core/execution.c: strings and `this`, local variables, arguments, scopes, jumps and functions.
use atomix_js.Prelude.{ℕ, ◌+◌, Bool, true, false, Str, [], ◌∷◌, leb, ◌==◌, if◌then◌else◌}
use atomix_js.Prelude.Result.{symbol_not_found, could_not_update_local, no_parent_scope}
use atomix_js.Prelude.Word.{sub64}
use atomix_js.Value.{
  JsValue, value_string, value_undefined, value_function, value_is_falsy, Platform,
}
use atomix_js.Format.{string_table_load_str}
use atomix_js.Instruction.{Inst, Opcode, op_alloc_local, op_func_decl}
use atomix_js.Vm.{Ptr, null}
use atomix_js.Vm.Exec.{
  Exec, pure, raise, lift, ◌>>=◌, ◌>>◌, Host, get_vm, stack_counter, set_stack_counter,
  set_instruction_counter, set_scope, load_slot, peek, push, lower, need, room, deref_module,
  deref_scope, deref_string, init_string,
}
use atomix_js.Scope.{
  chain_fuel, scope_create_scope, scope_set, scope_declare, scope_get, scope_contains,
}
use atomix_js.Function.{function_create_function}
use atomix_js.Execution.Compare.{falsy}

abbrev pub text_this : Str
text_this = b't' ∷ b'h' ∷ b'i' ∷ b's' ∷ []

unfoldable pub is_alloc_local : Opcode → Bool
is_alloc_local op_alloc_local = true
is_alloc_local _ = false

unfoldable pub is_func_decl : Opcode → Bool
is_func_decl op_func_decl = true
is_func_decl _ = false

-- FUNC_DECL has the name and the size as operands, FUNC_DECL_E the size alone.
unfoldable pub declared_size : Inst → ℕ
declared_size inst = if is_func_decl inst.opcode then inst.operand2 else inst.operand

module _ (h : Host) where
  -- `string_table_load_str(&vm->module->string_table, idx)`: a fresh copy of a string.
  unfoldable pub load_str : ℕ → Exec Ptr
  load_str idx = do
    vm ← get_vm
    m ← deref_module vm.current
    s ← lift (string_table_load_str m.string_table idx)
    init_string h s

  -- The same, as the text of a key.
  unfoldable pub load_key : ℕ → Exec Str
  load_key idx = do p ← load_str idx; deref_string p

  unfoldable pub inst_ld_string : Inst → Exec (Unit {0})
  inst_ld_string inst = do room; str ← load_str inst.operand; push (value_string str)

  unfoldable pub inst_ld_this : Inst → Exec (Unit {0})
  inst_ld_this inst = do
    room
    vm ← get_vm
    fuel ← chain_fuel
    v ← scope_get fuel vm.scope text_this
    push v

  unfoldable pub inst_alloc_store_local : Inst → Exec (Unit {0})
  inst_alloc_store_local inst = do
    need 1
    value ← peek 1
    lower
    key ← load_key inst.operand
    vm ← get_vm
    fuel ← chain_fuel
    if is_alloc_local inst.opcode then scope_declare h vm.scope key value else do
      updated ← scope_set fuel vm.scope key value
      if updated then pure tt else raise could_not_update_local

  unfoldable pub inst_load_local : Inst → Exec (Unit {0})
  inst_load_local inst = do
    room
    key ← load_key inst.operand
    vm ← get_vm
    fuel ← chain_fuel
    there ← scope_contains fuel vm.scope key true
    if there then (do v ← scope_get fuel vm.scope key; push v) else raise symbol_not_found

  unfoldable pub declare_function : Inst → Ptr → JsValue → Exec (Unit {0})
  declare_function inst scope value =
      if is_func_decl inst.opcode
      then (do key ← load_key inst.operand; scope_declare h scope key value)
      else pure tt

  unfoldable pub inst_func_decl : Inst → Exec (Unit {0})
  inst_func_decl inst = do
    room
    vm ← get_vm
    let start = vm.stats.instruction_counter
    function ← function_create_function h vm.scope vm.current start (start + declared_size inst)
    let value = value_function function
    declare_function inst vm.scope value
    push value
    set_instruction_counter (start + declared_size inst)

  unfoldable pub inst_push_scope : Inst → Exec (Unit {0})
  inst_push_scope inst = do vm ← get_vm; s ← scope_create_scope h vm.scope; set_scope s

-- `c - (c - start)`, in `size_t`, is where the frame begins. The source reads `stack_counter` there
-- while it increments it, and has no test for a full stack.
unfoldable pub inst_load_arg : Inst → Exec (Unit {0})
inst_load_arg inst = do
  vm ← get_vm
  let c = vm.stats.stack_counter
  let base = sub64 c (sub64 c vm.stats.stack_start)
  if leb base inst.operand
      then push value_undefined
      else do v ← load_slot (sub64 (sub64 base inst.operand) 1); push v

unfoldable pub inst_pop_scope : Inst → Exec (Unit {0})
inst_pop_scope inst = do
  vm ← get_vm
  s ← deref_scope vm.scope
  if s.parent == null then raise no_parent_scope else set_scope s.parent

unfoldable pub inst_jmp : Inst → Exec (Unit {0})
inst_jmp inst = set_instruction_counter inst.operand

-- `stack[--stack_counter]` with no test for an empty stack.
unfoldable pub take_top : Exec JsValue
take_top = do c ← stack_counter; set_stack_counter (sub64 c 1); load_slot (sub64 c 1)

module _ (p : Platform) where
  unfoldable pub inst_jmp_f : Inst → Exec (Unit {0})
  inst_jmp_f inst = do
    test ← take_top
    b ← falsy (value_is_falsy p test)
    if b then set_instruction_counter inst.operand else pure tt

  unfoldable pub inst_jmp_t : Inst → Exec (Unit {0})
  inst_jmp_t inst = do
    test ← take_top
    b ← falsy (value_is_falsy p test)
    if b then pure tt else set_instruction_counter inst.operand
